-- ===== src/Kernel/Settled/Boot.antt =====
-- The invariant of Kernel/Settled from boot: k/app.cc. Any object may be current until the first
-- switch, which the end of booting has pending.
use brittle_kernel.Prelude.{
  ℕ, zero, suc, ◌+◌, ◌-◌, ◌≤◌, ◌<◌, ◌≡◌, refl, Bool, true, false, Bool-cases, inl, inr, Option,
  none, some, List, [], ◌∷◌, arith,
}
use brittle_kernel.Run.{out_of_donated_ram, ◌>>◌}
use brittle_kernel.Run.Keeps.{
  Keeps, Leads, Keeps-bind, Keeps-then, Keeps-pure, Keeps-fail, Keeps-ref, Keeps-panic_unless,
  Leads-bind, Leads-after, Leads-then,
}
use brittle_kernel.Abi.Sizes.{oi_first_context, oi_object_table, well_known_object_count}
use brittle_kernel.Links.Laid.{Laid}
use brittle_kernel.Kernel.{Kernel, Object, null, slot, object_table, modify}
use brittle_kernel.Kernel.Boot.{
  AppInfo, BootLibrary, MemGrant, reset, allocated, allocate, place, initialize_well_known_objects,
  create_memory_objects, fill_extra_slots, load_grants, ustore, clear_irq_table,
  prepare_first_context, initialize_app, start_app, table_size,
}
use brittle_kernel.Kernel.Hardware.{Platform}
use brittle_kernel.Kernel.Scheduler.{make_runnable, do_deferred_switch, pend_switch}
use brittle_kernel.Kernel.Settled.{Settled, J, settled, Keeps-gets, Keeps-put_body}
use brittle_kernel.Kernel.Settled.Creation.{more, Leads-new_context}
use brittle_kernel.Kernel.Settled.Objects.{
  Keeps-put_object, Keeps-new_memory, Keeps-set_irq_entry, Handling-none, Keeps-unshared,
  Keeps-put_word,
}
use brittle_kernel.Kernel.Settled.Scheduler.{
  keeps, Keeps-apply_to_mpu, Keeps-insert_runnable, Keeps-set_state, Settled-pending,
  switch_now-Settled,
}

abbrev no_object : ℕ → Bool
no_object i = false

abbrev any_object : ℕ → Bool
any_object i = true

abbrev first_context : ℕ → Bool
first_context = more no_object oi_first_context

reset-Laid : (p : Platform) → Laid no_object (reset p).links
unfolding reset
reset-Laid p = record {
  next-prev = λ a. refl;
  prev-next = λ a. refl;
  apart = λ a. refl;
  idle = λ a e. refl;
  ring = λ a. a;
  ring-next = λ a. refl;
  ring-root = λ a e. refl;
  listed = λ it l e. cc;
}

pub reset-Settled : (p : Platform) → Settled no_object any_object 0 (reset p)
unfolding reset settled
reset-Settled p = record {
  count = refl;
  kinds = λ i. refl;
  beyond = λ i le. refl;
  lists = reset-Laid p;
  current = refl;
  handlers = λ x i e. cc;
}

-- A switch is pending.
abbrev Pending : ℕ → Kernel → Type 0
Pending n k = J first_context any_object n k × (k.switch_pending ≡ true)

module _ (lib : BootLibrary) (live : ℕ → Bool) (n : ℕ) where
  abbrev B : Kernel → Type 0
  B = J live any_object n

  Keeps-allocated : (o : Option ℕ) → Keeps B (allocated lib o)
  Keeps-allocated none = Keeps-fail _ out_of_donated_ram
  Keeps-allocated (some a) = Keeps-pure _ a

  Keeps-allocate : (used size : ℕ) → Keeps B (allocate lib used size)
  unfolding allocate
  Keeps-allocate used size = Keeps-allocated (lib.allocate used size)

  Keeps-place :
      (i : ℕ) (o : Object) → settled o ≡ false → live i ≡ false → i < n → Keeps B (place lib i o)
  unfolding place
  Keeps-place i o s u lt = Keeps-put_object live any_object n i 0 o s u lt

  Keeps-clear_irq_table : (m i : ℕ) → Keeps B (clear_irq_table lib m i)
  unfolding clear_irq_table
  Keeps-clear_irq_table zero i = Keeps-pure _ tt
  Keeps-clear_irq_table (suc m) i =
      Keeps-then _ _ _
        (Keeps-set_irq_entry live any_object n i none (Handling-none live any_object n))
        (Keeps-clear_irq_table m (i + 1))

  Keeps-load_grants : (gs : List MemGrant) (i : ℕ) → Keeps B (load_grants lib gs i)
  unfolding load_grants
  Keeps-load_grants [] i = Keeps-pure _ tt
  Keeps-load_grants (g ∷ gs) i = Keeps-bind _ _ _ (Keeps-gets live any_object n _) λ count.
      Keeps-then _ _ _ (Keeps-panic_unless _ _ _) (
        Keeps-bind _ _ _ (Keeps-gets live any_object n _) λ maybe_key.
          Keeps-bind _ _ _ (Keeps-ref _ maybe_key) λ key.
            Keeps-then _ _ _ (Keeps-put_body live any_object n oi_first_context _)
              (Keeps-load_grants gs (i + 1)))

  Keeps-ustore : (a w : ℕ) → Keeps B (ustore lib a w)
  unfolding ustore
  Keeps-ustore a w = record {
    at = λ k h. elim (Bool-cases (lib.can_store k a)) [
      | inl e ↦ simp e (
          (Keeps-then B _ _
              (Keeps-then B _ _ (Keeps-unshared live any_object n a 4)
                (Keeps-put_word live any_object n a w))
              (Keeps-pure B true)).at
            k h)
      | inr e ↦ simp e h
    ];
  }

module _ (lib : BootLibrary) (n : ℕ) where
  abbrev C : Kernel → Type 0
  C = J first_context any_object n

  Keeps-create_memory_objects :
      (app : AppInfo) (m i : ℕ)
      → well_known_object_count + i + m ≤ n
      → Keeps C (create_memory_objects lib app m i)
  unfolding create_memory_objects
  Keeps-create_memory_objects app zero i le = Keeps-pure _ tt
  Keeps-create_memory_objects app (suc m) i le =
      Keeps-then _ _ _
        (Keeps-new_memory first_context any_object n _ _ _ _ _ _ (ground arith) (omega arith))
        (Keeps-create_memory_objects app m (i + 1) (omega arith))

  Keeps-fill_extra_slots :
      (m i : ℕ) → well_known_object_count ≤ i → i + m ≤ n → Keeps C (fill_extra_slots lib m i)
  unfolding fill_extra_slots settled
  Keeps-fill_extra_slots zero i ge le = Keeps-pure _ tt
  Keeps-fill_extra_slots (suc m) i ge le =
      Keeps-then _ _ _ (Keeps-place lib first_context n i slot refl (ground arith) (omega arith))
        (Keeps-fill_extra_slots m (i + 1) (omega arith) (omega arith))

  Leads-pend_switch : Leads C (Pending n) pend_switch
  unfolding pend_switch modify
  Leads-pend_switch = record {
    at = λ k h. (Settled-pending first_context any_object n k true h, refl);
  }

  Leads-make_runnable : Leads C (Pending n) (make_runnable oi_first_context)
  unfolding make_runnable
  Leads-make_runnable = Leads-bind _ _ _ _ (Keeps-gets first_context any_object n _) λ p.
      Leads-after _ _ _ _ (Keeps-insert_runnable first_context any_object n p oi_first_context refl)
        (Leads-after _ _ _ _ (Keeps-set_state first_context any_object n _ _) Leads-pend_switch)

  Leads-prepare_first_context :
      (app : AppInfo) → Leads C (Pending n) (prepare_first_context lib app)
  unfolding prepare_first_context
  Leads-prepare_first_context app =
      search
        (
          Leads-bind, Leads-after, Leads-make_runnable, keeps, Keeps-load_grants,
          Keeps-apply_to_mpu, Keeps-ustore,
        )
        depth 20

  Leads-build :
      (app : AppInfo) (used : ℕ)
      → n ≡ table_size lib app
      → Leads (J no_object any_object n) (Pending n) (do
        initialize_well_known_objects lib used
        create_memory_objects lib app (app.memory_map_count + app.device_map_count) 0
        fill_extra_slots lib app.extra_slot_count (table_size lib app - app.extra_slot_count)
        prepare_first_context lib app)
  unfolding initialize_well_known_objects settled
  Leads-build app used e =
      Leads-then _ _ C _ _
        (Leads-after _ _ _ _ (Keeps-place lib no_object n 0 null refl refl (omega arith)) (
          Leads-after _ _ _ _
            (Keeps-place lib no_object n oi_object_table object_table refl refl (omega arith))
            (Leads-bind _ _ _ _ (Keeps-allocate lib no_object n used _) λ _.
              Leads-new_context no_object any_object any_object n oi_first_context (λ i t. t) refl
                (omega arith) 0)))
        (Leads-after _ _ _ _ (Keeps-create_memory_objects app _ 0 (omega arith)) (
          Leads-after _ _ _ _ (Keeps-fill_extra_slots _ _ (omega arith) (omega arith))
            (Leads-prepare_first_context app)))

module _ (lib : BootLibrary) (app : AppInfo) where
  abbrev size : ℕ
  size = table_size lib app

  Leads-set_counts :
      (irq_count : ℕ)
      → Leads
          (J no_object any_object 0)
          (J no_object any_object size)
          (modify (λ k. record k { count = size; irq_count = irq_count }))
  unfolding modify
  Leads-set_counts irq_count = record {
    at = λ k h. record {
      count = refl;
      kinds = h.kinds;
      beyond = λ i le. h.beyond i (omega arith);
      lists = h.lists;
      current = h.current;
      handlers = h.handlers;
    };
  }

  Leads-initialize_app : Leads (J no_object any_object 0) (Pending size) (initialize_app lib app)
  unfolding initialize_app
  Leads-initialize_app = Leads-after _ _ _ _ (Keeps-panic_unless _ _ _) (
      Leads-bind _ _ _ _ (Keeps-allocate lib no_object 0 0 _) λ used.
        Leads-bind _ _ _ _ (Keeps-allocate lib no_object 0 used _) λ used'.
          Leads-then _ _ (J no_object any_object size) _ _ (Leads-set_counts _) (
            Leads-after _ _ _ _ (Keeps-clear_irq_table lib no_object size _ 0)
              (Leads-build lib size app used' refl)))

  Leads-first_switch : Leads (Pending size) (J first_context first_context size) do_deferred_switch
  unfolding do_deferred_switch
  Leads-first_switch = record {
    at = λ k (h, e). simp e (
        switch_now-Settled first_context any_object first_context size (λ i u. u)
          (record k { switch_pending = false })
          (Settled-pending first_context any_object size k false h));
  }

  pub Leads-start_app :
      Leads (J no_object any_object 0) (J first_context first_context size) (start_app lib app)
  unfolding start_app
  Leads-start_app = Leads-then _ _ (Pending size) _ _ Leads-initialize_app Leads-first_switch
