-- ===== src/Kernel/Boot.antt =====
-- k/app.cc and common/app_info.h: from the application's AppInfo to the first context switch.
-- The arena that donated RAM is allocated from, the unprivileged store and the layout of the
-- exception frame belong to the hardware library, and are parameters.
use brittle_kernel.Prelude.{
  ℕ, zero, suc, ◌+◌, ◌*◌, ◌%◌, ◌^◌, ◌-◌, Bool, true, false, Option, none, some, List, [], ◌∷◌, ◌==◌,
  ltb, leb, if◌then◌else◌, bit_xor,
}
use brittle_kernel.Run.{
  pure, ok, ref, fail, ◌>>=◌, ◌>>◌, panic_unless, bad_abi_token, out_of_donated_ram, stack_fault,
  index_out_of_range,
}
use brittle_kernel.Abi.Sizes.{
  well_known_object_count, oi_null, oi_object_table, oi_first_context, object_head_size,
  context_size,
}
use brittle_kernel.Kernel.{Kernel, Object, null, object_table, slot, Do, gets, modify, put_object}
use brittle_kernel.Kernel.Hardware.{Platform}
use brittle_kernel.Kernel.Keys.{make_key, put_key, put_region}
use brittle_kernel.Kernel.Memory.{unshared, put_word, new_memory, device_attribute_mask, word_mod}
use brittle_kernel.Kernel.Objects.{set_irq_entry}
use brittle_kernel.Kernel.Protocol.Memory.{new_context}
use brittle_kernel.Kernel.Scheduler.{apply_to_mpu, set_stack, make_runnable, do_deferred_switch}

abbrev pub current_abi_token : ℕ
current_abi_token = 0xca11ab1e

pub record MemGrant : Type 0 where
  pub memory_index : ℕ
  pub brand : ℕ

pub record MemoryMapEntry : Type 0 where
  pub base : ℕ
  pub end : ℕ

pub record AppInfo : Type 0 where
  pub abi_token : ℕ
  pub memory_map_count : ℕ
  pub device_map_count : ℕ
  pub extra_slot_count : ℕ
  pub external_interrupt_count : ℕ
  pub initial_task_sp : ℕ
  pub initial_task_pc : ℕ
  pub initial_task_grants : List MemGrant
  pub memory_map : ℕ → MemoryMapEntry

-- The parts of the hardware library that booting uses. `allocate used size` is what the arena has
-- given out after one more block, if donated RAM suffices.
pub record BootLibrary : Type 0 where
  pub allocate : ℕ → ℕ → Option ℕ
  pub pointer_size : ℕ
  pub can_store : Kernel → ℕ → Bool
  pub frame_size : ℕ
  pub psr_offset : ℕ
  pub r15_offset : ℕ

-- The priorities that `initialize_irq_priorities` computes from the value that BASEPRI keeps.
pub record IrqPriorities : Type 0 where
  pub p_fault : ℕ
  pub p_svc : ℕ
  pub p_irq : ℕ
  pub p_pendsv : ℕ

unfoldable pub irq_priorities : ℕ → IrqPriorities
irq_priorities actual_basepri =
    let lsb : ℕ = bit_xor actual_basepri 0xff + 1 in
    record {
      p_fault = 0;
      p_svc = lsb % 256;
      p_irq = (lsb % 256 + lsb) % 256;
      p_pendsv = ((lsb % 256 + lsb) % 256 + lsb) % 256;
    }

-- Static storage, and the donated RAM before any object is built.
unfoldable pub reset : Platform → Kernel
reset p = record {
  count = 0;
  objects = λ _. record { generation = 0; object = null };
  links = record { next = λ a. a; prev = λ a. a; container = λ _. none };
  current = 0;
  switch_pending = false;
  irq_count = 0;
  irq_table = λ _. none;
  words = λ _. 0;
  own = p.kernel_memory;
  hw = [];
  platform = p;
}

module _ (lib : BootLibrary) where
  abbrev pub allocated : Option ℕ → Do ℕ
  allocated none = fail out_of_donated_ram
  allocated (some used) = pure used

  unfoldable pub allocate : ℕ → ℕ → Do ℕ
  allocate used size = allocated (lib.allocate used size)

  -- `new(&entries[i])` of an object with no body.
  unfoldable pub place : ℕ → Object → Do (Unit {0})
  place i o = modify (put_object i (record { generation = 0; object = o }))

  unfoldable pub initialize_well_known_objects : ℕ → Do (Unit {0})
  unfolding allocate place new_context
  initialize_well_known_objects used = do
    place oi_null null
    place oi_object_table object_table
    _ ← allocate used context_size
    new_context oi_first_context 0

  -- The loop of `create_memory_objects` from `i`; the entries are a slice at `well_known_object_count`.
  unfoldable pub create_memory_objects : AppInfo → ℕ → ℕ → Do (Unit {0})
  unfolding new_memory
  create_memory_objects app zero i = pure tt
  create_memory_objects app (suc n) i = do
    let e = app.memory_map i
    let atts = if leb app.memory_map_count i then device_attribute_mask else 0
    new_memory (well_known_object_count + i) 0 e.base ((e.end + word_mod - e.base) % word_mod) atts
        none
    create_memory_objects app n (i + 1)

  unfoldable pub fill_extra_slots : ℕ → ℕ → Do (Unit {0})
  unfolding place
  fill_extra_slots zero i = pure tt
  fill_extra_slots (suc n) i = do place i slot; fill_extra_slots n (i + 1)

  -- The loop over the memory grants, from grant `i`.
  unfoldable pub load_grants : List MemGrant → ℕ → Do (Unit {0})
  unfolding make_key
  load_grants [] i = pure tt
  load_grants (g ∷ gs) i = do
    count ← gets (λ k. k.count)
    panic_unless (ltb g.memory_index count) index_out_of_range
    maybe_key ← gets (λ k. make_key k g.memory_index g.brand)
    key ← ref maybe_key
    modify (put_region oi_first_context i key)
    load_grants gs (i + 1)

  -- `ustore`.
  unfoldable pub ustore : ℕ → ℕ → Do Bool
  unfolding unshared put_word
  ustore address word k =
      if lib.can_store k address
      then (unshared address 4 >> put_word address word >> pure true) k
      else ok false k

  unfoldable pub prepare_first_context : AppInfo → Do (Unit {0})
  unfolding load_grants apply_to_mpu ustore set_stack make_key make_runnable
  prepare_first_context app = do
    load_grants app.initial_task_grants 0
    apply_to_mpu oi_first_context
    let s = (app.initial_task_sp + word_mod - lib.frame_size) % word_mod
    stored_psr ← ustore (s + lib.psr_offset) (2 ^ 24)
    panic_unless stored_psr stack_fault
    stored_pc ← ustore (s + lib.r15_offset) app.initial_task_pc
    panic_unless stored_pc stack_fault
    set_stack oi_first_context s
    maybe_key ← gets (λ k. make_key k oi_object_table 0)
    key ← ref maybe_key
    modify (put_key oi_first_context 1 key)
    make_runnable oi_first_context

  -- The loop that clears the interrupt table.
  unfoldable pub clear_irq_table : ℕ → ℕ → Do (Unit {0})
  unfolding set_irq_entry
  clear_irq_table zero i = pure tt
  clear_irq_table (suc n) i = do set_irq_entry i none; clear_irq_table n (i + 1)

  abbrev pub table_size : AppInfo → ℕ
  table_size app =
      well_known_object_count + app.memory_map_count + app.device_map_count + app.extra_slot_count

  unfoldable pub initialize_app : AppInfo → Do (Unit {0})
  unfolding allocate clear_irq_table initialize_well_known_objects create_memory_objects
      fill_extra_slots prepare_first_context
  initialize_app app = do
    panic_unless (app.abi_token == current_abi_token) bad_abi_token
    used ← allocate 0 (object_head_size * table_size app)
    let irq_count = app.external_interrupt_count + 1
    used' ← allocate used (lib.pointer_size * irq_count)
    modify (λ k. record k { count = table_size app; irq_count = irq_count })
    clear_irq_table irq_count 0
    initialize_well_known_objects used'
    create_memory_objects app (app.memory_map_count + app.device_map_count) 0
    fill_extra_slots app.extra_slot_count (table_size app - app.extra_slot_count)
    prepare_first_context app

  -- `start_app`, less the priorities, up to the first return to unprivileged code.
  unfoldable pub start_app : AppInfo → Do (Unit {0})
  unfolding initialize_app do_deferred_switch
  start_app app = do initialize_app app; do_deferred_switch
