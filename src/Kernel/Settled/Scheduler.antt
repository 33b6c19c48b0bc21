-- ===== src/Kernel/Settled/Scheduler.antt =====
-- The invariant of Kernel/Settled through keys, the scheduler and the run queue.
use brittle_kernel.Prelude.{
  ℕ, zero, suc, ◌+◌, ◌≡◌, refl, Bool, true, false, Bool-cases, inl, inr, Option, none, some, ◌==◌,
}
use brittle_kernel.Run.{◌>>=◌, ◌>>◌, require}
use brittle_kernel.Run.Keeps.{
  Keeps, Ensures, Keeps-bind, Keeps-then, Keeps-pure, Keeps-if, Keeps-ref, Keeps-panic_unless,
  Keeps-panic_if, and_then-Ensures_of,
}
use brittle_kernel.Links
use brittle_kernel.Links.Laid.{unlink-Laid}
use brittle_kernel.Links.Laid.Operations.{insert-Laid, peek-owner}
use brittle_kernel.Kernel.{Kernel, Key, State, Do, gets, modify, on_lists, ctx_item, owner}
use brittle_kernel.Kernel.Keys.{
  get_key, get_region, KeysRef, bank, registers, set_key, Bank, map_index, read_key, copy_keys,
}
use brittle_kernel.Kernel.Hardware.{scb_set_pend_sv}
use brittle_kernel.Kernel.Scheduler.{
  load_region, load_regions, apply_to_mpu, apply_current, pend_switch, switch_now,
  do_deferred_switch, do_deferred_switch_from_irq, set_stack, set_state, make_runnable, unlink_item,
}
use brittle_kernel.Kernel.Settled.{
  Settled, J, settled, Keeps-gets, Keeps-modify, Keeps-emit, Keeps-put_body, Settled-put_body,
  Keeps-on_lists, ctx_item-is_root, ctx_item-in_use, runnable-IsPlace, runnable-used,
}

module _ (live E : ℕ → Bool) (n : ℕ) where
  pub Keeps-get_key : (c i : ℕ) → Keeps (J live E n) (get_key c i)
  unfolding get_key
  Keeps-get_key c i = record { at = λ k h. Settled-put_body live E n k c _ h }

  pub Keeps-get_region : (c i : ℕ) → Keeps (J live E n) (get_region c i)
  unfolding get_region
  Keeps-get_region c i = record { at = λ k h. Settled-put_body live E n k c _ h }

  pub Keeps-set_key :
      (dest : KeysRef) (i : ℕ) (key : Key) (b : Bank) → Keeps (J live E n) (set_key dest i key b)
  unfolding set_key
  Keeps-set_key bank i key b = record { at = λ k h. h }
  Keeps-set_key (registers c map) i key b = record {
    at = λ k h. elim (Bool-cases (map_index map i == 0)) [
      | inl e ↦ rw e h
      | inr e ↦ rw e (Settled-put_body live E n k c _ h)
    ];
  }

  pub Keeps-read_key : (c map i : ℕ) → Keeps (J live E n) (read_key c map i)
  unfolding read_key
  Keeps-read_key c map i = Keeps-gets live E n _

  pub Keeps-copy_keys :
      (m i : ℕ) (source : ℕ → Do Key) (dest : KeysRef) (b : Bank)
      → ((j : ℕ) → Keeps (J live E n) (source j))
      → Keeps (J live E n) (copy_keys m i source dest b)
  unfolding copy_keys
  Keeps-copy_keys zero i source dest b h = Keeps-pure _ b
  Keeps-copy_keys (suc m) i source dest b h = Keeps-bind _ _ _ (h i) λ key.
      Keeps-bind _ _ _ (Keeps-set_key dest i key b) λ b'. Keeps-copy_keys m (i + 1) source dest b' h

  pub Settled-pending :
      (k : Kernel) (b : Bool) → J live E n k → J live E n (record k { switch_pending = b })
  Settled-pending k b h = record {
    count = h.count;
    kinds = h.kinds;
    beyond = h.beyond;
    lists = h.lists;
    current = h.current;
    handlers = h.handlers;
  }

  pub Keeps-pend_switch : Keeps (J live E n) pend_switch
  unfolding pend_switch
  Keeps-pend_switch = Keeps-modify live E n _ (λ k h. Settled-pending k true h)

  pub Keeps-set_state : (c : ℕ) (state : State) → Keeps (J live E n) (set_state c state)
  unfolding set_state
  Keeps-set_state c state = Keeps-put_body live E n c _

  pub Keeps-set_stack : (c s : ℕ) → Keeps (J live E n) (set_stack c s)
  unfolding set_stack
  Keeps-set_stack c s = Keeps-put_body live E n c _

  pub Keeps-unlink_item : (it : ℕ) → Keeps (J live E n) (unlink_item it)
  unfolding unlink_item
  Keeps-unlink_item it = Keeps-on_lists live E n _ (λ s l. unlink-Laid live s l it)

  pub Keeps-insert_runnable :
      (p c : ℕ) → live c ≡ true → Keeps (J live E n) (on_lists (Links.insert p 0 (ctx_item c)))
  Keeps-insert_runnable p c u = Keeps-on_lists live E n _ λ s l.
      insert-Laid live s l (ctx_item c) (ctx_item-is_root c) (ctx_item-in_use live c u) p 0
        (runnable-IsPlace live c)

pub ruleset keeps = (
  Keeps-bind, Keeps-then, Keeps-pure, Keeps-if, Keeps-ref, Keeps-panic_unless, Keeps-panic_if,
  Keeps-gets, Keeps-emit, Keeps-get_key, Keeps-get_region, Keeps-set_key, Keeps-read_key,
  Keeps-copy_keys, Keeps-pend_switch, Keeps-set_state, Keeps-set_stack, Keeps-unlink_item,
  Keeps-put_body,
)

module _ (live E : ℕ → Bool) (n : ℕ) where
  pub Keeps-make_runnable : (c : ℕ) → live c ≡ true → Keeps (J live E n) (make_runnable c)
  unfolding make_runnable
  Keeps-make_runnable c u = search (keeps, Keeps-insert_runnable) depth 12

  Keeps-load_region : (c i : ℕ) → Keeps (J live E n) (load_region c i)
  unfolding load_region
  Keeps-load_region c i = search keeps depth 12

  Keeps-load_regions : (c m i : ℕ) → Keeps (J live E n) (load_regions c m i)
  unfolding load_regions
  Keeps-load_regions c zero i = Keeps-pure _ tt
  Keeps-load_regions c (suc m) i =
      Keeps-then _ _ _ (Keeps-load_region c i) (Keeps-load_regions c m (i + 1))

  pub Keeps-apply_to_mpu : (c : ℕ) → Keeps (J live E n) (apply_to_mpu c)
  unfolding apply_to_mpu
  Keeps-apply_to_mpu c = search (keeps, Keeps-load_regions) depth 9

  pub Keeps-apply_current : Keeps (J live E n) apply_current
  unfolding apply_current
  Keeps-apply_current = record { at = λ k h. (Keeps-apply_to_mpu k.current).at k h }

  pub Keeps-switch_from_irq : Keeps (J live E n) do_deferred_switch_from_irq
  unfolding do_deferred_switch_from_irq
  Keeps-switch_from_irq = record {
    at = λ k h. elim (Bool-cases k.switch_pending) [
      | inl e ↦ simp e (
          (Keeps-emit live E n scb_set_pend_sv).at (record k { switch_pending = false })
            (Settled-pending live E n k false h))
      | inr e ↦ simp e h
    ];
  }

-- A switch makes an object in use current.
module _ (live E F : ℕ → Bool) (n : ℕ) (within : (i : ℕ) → live i ≡ true → F i ≡ true) where
  Settled-current :
      (k : Kernel) (it : ℕ)
      → J live E n k
      → live (owner it) ≡ true
      → J live F n (record k { current = owner it })
  Settled-current k it h u = record {
    count = h.count;
    kinds = h.kinds;
    beyond = h.beyond;
    lists = h.lists;
    current = within (owner it) u;
    handlers = h.handlers;
  }

  pub switch_now-Settled :
      (k : Kernel) → J live E n k → Ensures (λ _ t. J live F n t) (switch_now k)
  unfolding switch_now owner ◌>>=◌ ◌>>◌ gets modify require
  switch_now-Settled k h = go (Links.peek 0 k.links) refl
    where
      go : (o : Option ℕ) → Links.peek 0 k.links ≡ o → Ensures (λ _ t. J live F n t) (switch_now k)
      go none e = rw (switch_now, e) tt
      go (some it) e =
          rw (switch_now, e)
            ((Keeps-apply_current live F n).at _ (
              Settled-current k it h (peek-owner live k.links h.lists 0 it (runnable-used live) e)))

module _ (live E : ℕ → Bool) (n : ℕ) (within : (i : ℕ) → live i ≡ true → E i ≡ true) where
  pub Keeps-switch_now : Keeps (J live E n) switch_now
  Keeps-switch_now = record { at = switch_now-Settled live E E n within }

  pub Keeps-do_deferred_switch : Keeps (J live E n) do_deferred_switch
  unfolding do_deferred_switch
  Keeps-do_deferred_switch = record {
    at = λ k h. elim (Bool-cases k.switch_pending) [
      | inl e ↦ simp e (
          switch_now-Settled live E E n within (record k { switch_pending = false })
            (Settled-pending live E n k false h))
      | inr e ↦ simp e h
    ];
  }
