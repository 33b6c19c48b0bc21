-- ===== src/Whole/Switched.antt =====
-- The switch after a system call leaves the registers and keys of every context as they are.
use brittle_kernel.Prelude.{
  ℕ, zero, suc, ◌+◌, ◌/◌, ◌^◌, ◌≡◌, refl, arith, false, Option, none, some, sym, ◌∙◌, Bool-cases,
  inl, inr,
}
use brittle_kernel.Run.{
  Run, ok, panic, out_of_fuel, and_then, require, no_runnable_contexts, ◌>>=◌, ◌>>◌,
}
use brittle_kernel.Run.Keeps.{Keeps, Ensures-ok, Keeps-bind, Keeps-then, Keeps-pure}
use brittle_kernel.Abi.Sizes.{n_task_regions}
use brittle_kernel.Abi.Message.{Message}
use brittle_kernel.Kernel.{Kernel, Key, body, gets, modify, emit}
use brittle_kernel.Kernel.Hardware.{HwOp}
use brittle_kernel.Kernel.Events.{sv_call_handler}
use brittle_kernel.Kernel.Keys.{get_region, put_region}
use brittle_kernel.Kernel.Scheduler.{
  load_region, load_regions, apply_to_mpu, apply_current, switch_now, do_deferred_switch,
}
use brittle_kernel.Whole.{call_registers, system_call}
use brittle_kernel.Whole.Entry.{sv_call_handler-system_call}

-- The registers and the keys of the context.
abbrev pub Holds : ℕ → (ℕ → ℕ) → (ℕ → Key) → Kernel → Type 0
Holds c save keys k = ((body k c).save ≡ save) × ((body k c).keys ≡ keys)

module _ (c : ℕ) (save : ℕ → ℕ) (keys : ℕ → Key) where
  abbrev J : Kernel → Type 0
  J = Holds c save keys

  Keeps-gets : {A : Type 0} (f : Kernel → A) → Keeps J (gets f)
  unfolding gets
  Keeps-gets f = record { at = λ k h. h }

  Keeps-emit : (op : HwOp) → Keeps J (emit op)
  unfolding emit
  Keeps-emit op = record { at = λ k h. h }

  put_region-Holds : (i : ℕ) (key : Key) (k : Kernel) (j : ℕ) → J k → J (put_region j i key k)
  put_region-Holds i key k j h = ground (arith, h.0, h.1)

  Keeps-get_region : (j i : ℕ) → Keeps J (get_region j i)
  unfolding get_region
  Keeps-get_region j i = record { at = λ k h. put_region-Holds i _ k j h }

  Keeps-load_region : (j i : ℕ) → Keeps J (load_region j i)
  unfolding load_region
  Keeps-load_region j i = Keeps-bind J _ _ (Keeps-get_region j i) λ key.
      Keeps-bind J _ _ (Keeps-gets _) λ region.
        Keeps-bind J _ _ (Keeps-gets _) λ p. Keeps-then J _ _ (Keeps-emit _) (Keeps-emit _)

  Keeps-load_regions : (j n i : ℕ) → Keeps J (load_regions j n i)
  unfolding load_regions
  Keeps-load_regions j zero i = Keeps-pure J tt
  Keeps-load_regions j (suc n) i =
      Keeps-then J _ _ (Keeps-load_region j i) (Keeps-load_regions j n (i + 1))

  Keeps-apply_current : Keeps J apply_current
  unfolding apply_current apply_to_mpu
  Keeps-apply_current = record {
    at = λ k h.
        (Keeps-then J _ _ (Keeps-emit _)
            (Keeps-then J _ _ (Keeps-load_regions k.current n_task_regions 0) (Keeps-emit _))).at
          k h;
  }

  Keeps-require : (o : Option ℕ) → Keeps J (require no_runnable_contexts o)
  unfolding require
  Keeps-require none = record { at = λ k h. tt }
  Keeps-require (some a) = record { at = λ k h. h }

  Keeps-switch_now : Keeps J switch_now
  unfolding switch_now modify
  Keeps-switch_now = Keeps-bind J _ _ (Keeps-gets _) λ head.
      Keeps-bind J _ _ (Keeps-require head)
        λ it. Keeps-then J _ _ (record { at = λ k h. h }) Keeps-apply_current

  Keeps-do_deferred_switch : Keeps J do_deferred_switch
  unfolding do_deferred_switch
  Keeps-do_deferred_switch = record {
    at = λ k h. elim (Bool-cases k.switch_pending) [
      | inl e ↦ rw e (Keeps-switch_now.at (record k { switch_pending = false }) h)
      | inr e ↦ rw e h
    ];
  }

before_switch :
    (c : ℕ) (l : Kernel) (r : Run Kernel (Unit {0}))
    → and_then r (λ _. do_deferred_switch) ≡ ok tt l
    → (t : Kernel) × (r ≡ ok tt t) × Holds c (body t c).save (body t c).keys l
before_switch c l (ok a t) e = (
  t,
  refl,
  Ensures-ok (λ _. Holds c (body t c).save (body t c).keys) (do_deferred_switch t) tt l
      ((Keeps-do_deferred_switch c (body t c).save (body t c).keys).at t (refl, refl)) e,
)
before_switch c l (panic x) e = absurd (cc e)
before_switch c l out_of_fuel e = absurd (cc e)

-- Where the kernel's entry for a supervisor call of IPC returns, so does the system call of the context that
-- made it, and the entry leaves that context with the registers and the keys that the system call leaves it
-- with, whichever context runs next.
pub sv_call_handler-returns :
    (fuel c sp : ℕ) (m : Message) (send_map receive_map : ℕ) (k l : Kernel)
    → k.current ≡ c
    → m.desc / 2 ^ 28 ≡ 0
    → sv_call_handler fuel (call_registers m send_map receive_map) sp k ≡ ok tt l
    → (t : Kernel) × (system_call fuel c sp m send_map receive_map k ≡ ok tt t)
      × ((body l c).save ≡ (body t c).save)
      × ((body l c).keys ≡ (body t c).keys)
unfolding ◌>>=◌ ◌>>◌
sv_call_handler-returns fuel c sp m send_map receive_map k l current number returns =
    let (t, e, h) = before_switch c l (system_call fuel c sp m send_map receive_map k) (
      sym (sv_call_handler-system_call fuel c sp m send_map receive_map k current number)
      ∙ returns) in
    (t, e, h.0, h.1)
