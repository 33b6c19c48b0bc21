-- ===== src/Kernel/Safety/Boot.antt =====
-- The invariant of Kernel/Safety from boot: k/app.cc.
use brittle_kernel.Prelude.{
  ℕ, zero, suc, ◌+◌, ◌-◌, Bool-cases, inl, inr, ◌≢◌, Option, none, some, List, [], ◌∷◌, refl, arith,
  true,
}
use brittle_kernel.Run.{out_of_donated_ram, ◌>>◌}
use brittle_kernel.Run.Keeps.{
  Keeps, Keeps-bind, Keeps-then, Keeps-pure, Keeps-ref, Keeps-fail, Keeps-panic_unless,
}
use brittle_kernel.Abi.Sizes.{oi_first_context, oi_object_table}
use brittle_kernel.Kernel.{Key, Object, null, slot, object_table, modify}
use brittle_kernel.Kernel.Boot.{
  AppInfo, BootLibrary, MemGrant, reset, allocated, allocate, place, initialize_well_known_objects,
  create_memory_objects, fill_extra_slots, load_grants, ustore, clear_irq_table,
  prepare_first_context, initialize_app, start_app, table_size,
}
use brittle_kernel.Kernel.Keys.{put_region, put_key}
use brittle_kernel.Kernel.Hardware.{Platform}
use brittle_kernel.Kernel.Safety.{
  Safe, HasNullKey, Inv-update, Keeps-gets, Keeps-modify, Keeps-put_body, Keeps-put_object,
  Safe-put_key,
}
use brittle_kernel.Kernel.Safety.Delivery.{keeps}
use brittle_kernel.Kernel.Safety.Objects.{
  Keeps-new_context, Keeps-new_memory, Keeps-set_irq_entry, Keeps-unshared, Keeps-put_word,
}
use brittle_kernel.Kernel.Safety.Scheduler.{
  Keeps-apply_to_mpu, Keeps-set_stack, Keeps-do_deferred_switch,
}

pub Safe-reset : (p : Platform) → Safe (reset p)
unfolding reset
Safe-reset p = record { null_object = refl; null_keys = λ c. refl }

module _ (lib : BootLibrary) where
  Keeps-allocated : (o : Option ℕ) → Keeps Safe (allocated lib o)
  Keeps-allocated none = Keeps-fail Safe out_of_donated_ram
  Keeps-allocated (some a) = Keeps-pure Safe a

  Keeps-allocate : (used size : ℕ) → Keeps Safe (allocate lib used size)
  unfolding allocate
  Keeps-allocate used size = Keeps-allocated (lib.allocate used size)

  Keeps-place : (i : ℕ) (o : Object) → i ≢ 0 → HasNullKey o → Keeps Safe (place lib i o)
  unfolding place
  Keeps-place i o ne n = Keeps-put_object i _ ne n

  Keeps-place_null : Keeps Safe (place lib 0 null)
  unfolding place
  Keeps-place_null = Keeps-modify _ (λ k h. Inv-update k.objects 0 _ (λ _ _. refl) (λ _. refl) h)

  Keeps-initialize_well_known_objects :
      (used : ℕ) → Keeps Safe (initialize_well_known_objects lib used)
  unfolding initialize_well_known_objects
  Keeps-initialize_well_known_objects used = Keeps-then Safe _ _ Keeps-place_null (
      Keeps-then Safe _ _ (Keeps-place oi_object_table object_table (λ e. omega arith) refl) (
        Keeps-bind Safe _ _ (Keeps-allocate used _)
          (λ _. Keeps-new_context oi_first_context 0 (λ e. omega arith))))

  Keeps-create_memory_objects :
      (app : AppInfo) (n i : ℕ) → Keeps Safe (create_memory_objects lib app n i)
  unfolding create_memory_objects
  Keeps-create_memory_objects app zero i = Keeps-pure Safe tt
  Keeps-create_memory_objects app (suc n) i =
      Keeps-then Safe _ _ (Keeps-new_memory _ _ _ _ _ _ (λ e. omega arith))
        (Keeps-create_memory_objects app n (i + 1))

  Keeps-fill_extra_slots : (n i : ℕ) → i ≢ 0 → Keeps Safe (fill_extra_slots lib n i)
  unfolding fill_extra_slots
  Keeps-fill_extra_slots zero i ne = Keeps-pure Safe tt
  Keeps-fill_extra_slots (suc n) i ne =
      Keeps-then Safe _ _ (Keeps-place i slot ne refl)
        (Keeps-fill_extra_slots n (i + 1) (λ e. omega arith))

  Keeps-load_grant : (i : ℕ) (key : Key) → Keeps Safe (modify (put_region oi_first_context i key))
  Keeps-load_grant i key = Keeps-put_body oi_first_context _ (λ b z. z)

  Keeps-load_grants : (gs : List MemGrant) (i : ℕ) → Keeps Safe (load_grants lib gs i)
  unfolding load_grants
  Keeps-load_grants [] i = Keeps-pure Safe tt
  Keeps-load_grants (g ∷ gs) i = Keeps-bind Safe _ _ (Keeps-gets _) λ count.
      Keeps-then Safe _ _ (Keeps-panic_unless Safe _ _) (
        Keeps-bind Safe _ _ (Keeps-gets _) λ maybe_key.
          Keeps-bind Safe _ _ (Keeps-ref Safe maybe_key)
            λ key. Keeps-then Safe _ _ (Keeps-load_grant i key) (Keeps-load_grants gs (i + 1)))

  Keeps-ustore : (a w : ℕ) → Keeps Safe (ustore lib a w)
  unfolding ustore
  Keeps-ustore a w = record {
    at = λ k h. elim (Bool-cases (lib.can_store k a)) [
      | inl e ↦ simp e (
          (Keeps-then Safe _ _ (Keeps-then Safe _ _ (Keeps-unshared a 4) (Keeps-put_word a w))
              (Keeps-pure Safe true)).at
            k h)
      | inr e ↦ simp e h
    ];
  }

  Keeps-clear_irq_table : (n i : ℕ) → Keeps Safe (clear_irq_table lib n i)
  unfolding clear_irq_table
  Keeps-clear_irq_table zero i = Keeps-pure Safe tt
  Keeps-clear_irq_table (suc n) i =
      Keeps-then Safe _ _ (Keeps-set_irq_entry i none) (Keeps-clear_irq_table n (i + 1))

  Keeps-give_table_key : (key : Key) → Keeps Safe (modify (put_key oi_first_context 1 key))
  Keeps-give_table_key key =
      Keeps-modify _ (λ k h. Safe-put_key k oi_first_context 1 key (λ e. omega arith) h)

  Keeps-prepare_first_context : (app : AppInfo) → Keeps Safe (prepare_first_context lib app)
  unfolding prepare_first_context
  Keeps-prepare_first_context app =
      search
        (
          keeps, Keeps-load_grants, Keeps-apply_to_mpu, Keeps-ustore, Keeps-set_stack,
          Keeps-give_table_key,
        )
        depth 14

  Keeps-extra_slots :
      (app : AppInfo)
      → Keeps Safe
          (fill_extra_slots lib app.extra_slot_count (table_size lib app - app.extra_slot_count))
  Keeps-extra_slots app = Keeps-fill_extra_slots _ _ (λ e. omega arith)

  Keeps-set_counts :
      (count irq_count : ℕ)
      → Keeps Safe (modify (λ k. record k { count = count; irq_count = irq_count }))
  Keeps-set_counts count irq_count = Keeps-modify _ (λ k h. h)

  Keeps-build :
      (app : AppInfo) (used : ℕ)
      → Keeps Safe (do
        initialize_well_known_objects lib used
        create_memory_objects lib app (app.memory_map_count + app.device_map_count) 0
        fill_extra_slots lib app.extra_slot_count (table_size lib app - app.extra_slot_count)
        prepare_first_context lib app)
  Keeps-build app used = Keeps-then Safe _ _ (Keeps-initialize_well_known_objects used) (
      Keeps-then Safe _ _ (Keeps-create_memory_objects app _ 0)
        (Keeps-then Safe _ _ (Keeps-extra_slots app) (Keeps-prepare_first_context app)))

  Keeps-initialize_app : (app : AppInfo) → Keeps Safe (initialize_app lib app)
  unfolding initialize_app
  Keeps-initialize_app app = Keeps-then Safe _ _ (Keeps-panic_unless Safe _ _) (
      Keeps-bind Safe _ _ (Keeps-allocate 0 _) λ used.
        Keeps-bind Safe _ _ (Keeps-allocate used _) λ used'.
          Keeps-then Safe _ _ (Keeps-set_counts _ _)
            (Keeps-then Safe _ _ (Keeps-clear_irq_table _ 0) (Keeps-build app used')))

  pub Keeps-start_app : (app : AppInfo) → Keeps Safe (start_app lib app)
  unfolding start_app
  Keeps-start_app app = Keeps-then Safe _ _ (Keeps-initialize_app app) Keeps-do_deferred_switch
