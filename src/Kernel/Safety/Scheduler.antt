-- ===== src/Kernel/Safety/Scheduler.antt =====
-- The invariant of Kernel/Safety through k/key.cc, k/keys.h and k/scheduler.cc.
use brittle_kernel.Prelude.{ℕ, zero, suc, ◌+◌, false, arith, ◌==◌, Bool-cases, inl, inr}
use brittle_kernel.Run.Keeps.{Keeps, Keeps-bind, Keeps-then, Keeps-pure, Keeps-require}
use brittle_kernel.Abi.Sizes.{n_task_regions}
use brittle_kernel.Kernel.{Key, State, Do, modify, emit, body}
use brittle_kernel.Kernel.Hardware.{HwOp}
use brittle_kernel.Kernel.Keys.{
  get_key, get_region, Bank, KeysRef, bank, registers, set_key, copy_keys, read_key, map_index,
  resolve,
}
use brittle_kernel.Kernel.Safety.{
  Safe, Safe-put_key, Safe-put_null_key, Safe-put_body, resolve-null, Keeps-gets, Keeps-on_lists,
  Keeps-put_body, Keeps-modify,
}
use brittle_kernel.Kernel.Scheduler.{
  load_region, load_regions, apply_to_mpu, apply_current, pend_switch, switch_now,
  do_deferred_switch, set_stack, set_state, make_runnable, unlink_item,
}

pub Keeps-emit : (op : HwOp) → Keeps Safe (emit op)
unfolding emit
Keeps-emit op = record { at = λ k h. h }

-- `get` on a key register, on register 0 too.
pub Keeps-get_key : (c i : ℕ) → Keeps Safe (get_key c i)
unfolding get_key
Keeps-get_key c i = record {
  at = λ k h.
      Safe-put_null_key k c i (resolve k ((body k c).keys i))
        (λ e. resolve-null k _ (rw e (h.null_keys c))) h;
}

pub Keeps-get_region : (c i : ℕ) → Keeps Safe (get_region c i)
unfolding get_region
Keeps-get_region c i = record { at = λ k h. Safe-put_body k c _ (λ b z. z) h }

-- `set` through a map never writes register 0.
pub Keeps-set_key :
    (dest : KeysRef) (i : ℕ) (key : Key) (b : Bank) → Keeps Safe (set_key dest i key b)
unfolding set_key
Keeps-set_key bank i key b = record { at = λ k h. h }
Keeps-set_key (registers c map) i key b = record {
  at = λ k h. elim (Bool-cases (map_index map i == 0)) [
    | inl z ↦ rw z h
    | inr z ↦ rw z (Safe-put_key k c (map_index map i) key (ground arith) h)
  ];
}

pub Keeps-read_key : (c map i : ℕ) → Keeps Safe (read_key c map i)
unfolding read_key
Keeps-read_key c map i = Keeps-gets _

pub Keeps-copy_keys :
    (n i : ℕ) (source : ℕ → Do Key) (dest : KeysRef) (b : Bank)
    → ((j : ℕ) → Keeps Safe (source j))
    → Keeps Safe (copy_keys n i source dest b)
unfolding copy_keys
Keeps-copy_keys zero i source dest b h = Keeps-pure Safe b
Keeps-copy_keys (suc n) i source dest b h = Keeps-bind Safe _ _ (h i) λ key.
    Keeps-bind Safe _ _ (Keeps-set_key dest i key b)
      λ b'. Keeps-copy_keys n (i + 1) source dest b' h

Keeps-load_region : (c i : ℕ) → Keeps Safe (load_region c i)
unfolding load_region
Keeps-load_region c i = Keeps-bind Safe _ _ (Keeps-get_region c i) λ key.
    Keeps-bind Safe _ _ (Keeps-gets _) λ region.
      Keeps-bind Safe _ _ (Keeps-gets _) λ p. Keeps-then Safe _ _ (Keeps-emit _) (Keeps-emit _)

Keeps-load_regions : (c n i : ℕ) → Keeps Safe (load_regions c n i)
unfolding load_regions
Keeps-load_regions c zero i = Keeps-pure Safe tt
Keeps-load_regions c (suc n) i =
    Keeps-then Safe _ _ (Keeps-load_region c i) (Keeps-load_regions c n (i + 1))

pub Keeps-apply_to_mpu : (c : ℕ) → Keeps Safe (apply_to_mpu c)
unfolding apply_to_mpu
Keeps-apply_to_mpu c =
    Keeps-then Safe _ _ (Keeps-emit _)
      (Keeps-then Safe _ _ (Keeps-load_regions c n_task_regions 0) (Keeps-emit _))

pub Keeps-apply_current : Keeps Safe apply_current
unfolding apply_current
Keeps-apply_current = record { at = λ k h. (Keeps-apply_to_mpu k.current).at k h }

pub Keeps-pend_switch : Keeps Safe pend_switch
unfolding pend_switch modify
Keeps-pend_switch = record { at = λ k h. h }

pub Keeps-switch_now : Keeps Safe switch_now
unfolding switch_now
Keeps-switch_now = Keeps-bind Safe _ _ (Keeps-gets _) λ head.
    Keeps-bind Safe _ _ (Keeps-require Safe _ head)
      λ it. Keeps-then Safe _ _ (Keeps-modify _ (λ k h. h)) Keeps-apply_current

pub Keeps-do_deferred_switch : Keeps Safe do_deferred_switch
unfolding do_deferred_switch
Keeps-do_deferred_switch = record {
  at = λ k h. elim (Bool-cases k.switch_pending) [
    | inl e ↦ simp e (Keeps-switch_now.at (record k { switch_pending = false }) h)
    | inr e ↦ simp e h
  ];
}

pub Keeps-set_stack : (c s : ℕ) → Keeps Safe (set_stack c s)
unfolding set_stack
Keeps-set_stack c s = Keeps-put_body c _ (λ b z. z)

pub Keeps-set_state : (c : ℕ) (state : State) → Keeps Safe (set_state c state)
unfolding set_state
Keeps-set_state c state = Keeps-put_body c _ (λ b z. z)

pub Keeps-make_runnable : (c : ℕ) → Keeps Safe (make_runnable c)
unfolding make_runnable
Keeps-make_runnable c = Keeps-bind Safe _ _ (Keeps-gets _) λ p.
    Keeps-then Safe _ _ (Keeps-on_lists _)
      (Keeps-then Safe _ _ (Keeps-set_state c _) Keeps-pend_switch)

pub Keeps-unlink_item : (it : ℕ) → Keeps Safe (unlink_item it)
unfolding unlink_item
Keeps-unlink_item it = Keeps-on_lists _
