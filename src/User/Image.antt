-- ===== src/User/Image.antt =====
-- The information on the system program, with its serial application, that the kernel boots from: app_info
-- of a/sys/main.cc, memory_map of a/app/serial/setup.cc and a/app/serial/peanut_config.h.
use brittle_kernel.Prelude.{ℕ, ◌+◌, ◌*◌, ◌/◌, ◌^◌, List, [], ◌∷◌, ◌==◌, if◌then◌else◌}
use brittle_kernel.Abi.Sizes.{well_known_object_count, context_size, object_head_size}
use brittle_kernel.Kernel.Boot.{AppInfo, MemGrant, MemoryMapEntry, current_abi_token}
use brittle_kernel.Kernel.Hardware.{Platform}

abbrev pub memory_map_count : ℕ
memory_map_count = 3

abbrev pub device_map_count : ℕ
device_map_count = 1

abbrev pub extra_slot_count : ℕ
extra_slot_count = 20

abbrev pub external_interrupt_count : ℕ
external_interrupt_count = 40

-- The symbols that the linker script gives, and the hardware library's reset handler.
pub record Symbols : Type 0 where
  pub sys_initial_stack : ℕ
  pub reset_handler : ℕ
  pub sys_rom_start : ℕ
  pub sys_rom_end : ℕ
  pub sys_ram0_start : ℕ
  pub sys_ram0_end : ℕ
  pub app_ram1_start : ℕ
  pub app_ram1_end : ℕ

-- What lies behind the map in the image is not known, and reads as empty.
unfoldable pub memory_map : Symbols → ℕ → MemoryMapEntry
memory_map sym i =
    if i == 0
    then record { base = sym.sys_rom_start; end = sym.sys_rom_end }
    else if i == 1
    then record { base = sym.sys_ram0_start; end = sym.sys_ram0_end }
    else if i == 2
    then record { base = sym.app_ram1_start; end = sym.app_ram1_end }
    else if i == 3
    then record { base = 0x40000000; end = 0x60000000 }
    else record { base = 0; end = 0 }

abbrev rom_grant : Platform → MemGrant
rom_grant p = record {
  memory_index = well_known_object_count + 0;
  brand = p.with_ap p.p_read_u_read 0 / 2 ^ 8;
}

abbrev ram_grant : Platform → MemGrant
ram_grant p = record {
  memory_index = well_known_object_count + 1;
  brand = p.with_xn 1 (p.with_ap p.p_write_u_write 0) / 2 ^ 8;
}

-- A grant that the initializer leaves out.
abbrev no_grant : MemGrant
no_grant = record { memory_index = 0; brand = 0 }

unfoldable pub initial_task_grants : Platform → List MemGrant
initial_task_grants p = rom_grant p ∷ ram_grant p ∷ no_grant ∷ no_grant ∷ []

unfoldable pub app_info : Platform → Symbols → AppInfo
unfolding memory_map initial_task_grants
app_info p sym = record {
  abi_token = current_abi_token;
  memory_map_count = memory_map_count;
  device_map_count = device_map_count;
  extra_slot_count = extra_slot_count;
  external_interrupt_count = external_interrupt_count;
  initial_task_sp = sym.sys_initial_stack;
  initial_task_pc = sym.reset_handler;
  initial_task_grants = initial_task_grants p;
  memory_map = memory_map sym;
}

abbrev pub object_table_count : ℕ
object_table_count =
    well_known_object_count + memory_map_count + device_map_count + extra_slot_count

-- The size of `kernel_donation`, the RAM that the kernel gets, by that of a pointer.
unfoldable pub kernel_donation : ℕ → ℕ
kernel_donation pointer_size =
    context_size
    + object_head_size * object_table_count
    + pointer_size * (1 + external_interrupt_count)
