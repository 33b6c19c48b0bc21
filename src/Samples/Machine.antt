-- ===== src/Samples/Machine.antt =====
-- An ARMv7-M with its MPU register layout, an arena and a stack frame, and a small application: one
-- block of memory, two slots and two external interrupts.
use brittle_kernel.Prelude.{
  ℕ, ◌+◌, ◌-◌, ◌*◌, ◌/◌, ◌%◌, ◌^◌, true, none, some, [], ◌∷◌, leb, ltb, ◌&&◌, if◌then◌else◌,
}
use brittle_kernel.Run.{Run, ok, panic, out_of_fuel}
use brittle_kernel.Kernel.{Kernel, Key}
use brittle_kernel.Kernel.Boot.{AppInfo, BootLibrary, reset, start_app}
use brittle_kernel.Kernel.Hardware.{Platform}

abbrev bits : ℕ → ℕ → ℕ → ℕ
bits lsb width word = word / 2 ^ lsb % 2 ^ width

abbrev with_bits : ℕ → ℕ → ℕ → ℕ → ℕ
with_bits lsb width value word = word - bits lsb width word * 2 ^ lsb + value % 2 ^ width * 2 ^ lsb

abbrev pub armv7m : Platform
armv7m = record {
  kernel_memory = λ a. leb 0x10000000 a && ltb a 0x10001000;
  rbar_addr_27 = λ a. a * 2 ^ 5;
  rbar_region = λ i word. with_bits 0 4 i (with_bits 4 1 1 word);
  rasr_enable = λ s word. with_bits 0 1 1 (with_bits 1 5 s word);
  get_xn = bits 28 1;
  get_ap = bits 24 3;
  get_tex = bits 19 3;
  get_s = bits 18 1;
  get_c = bits 17 1;
  get_b = bits 16 1;
  get_srd = bits 8 8;
  with_xn = with_bits 28 1;
  with_ap = with_bits 24 3;
  with_tex = with_bits 19 3;
  with_s = with_bits 18 1;
  with_c = with_bits 17 1;
  with_b = with_bits 16 1;
  with_srd = with_bits 8 8;
  p_none_u_none = 0;
  p_read_u_none = 5;
  p_read_u_read = 6;
  p_write_u_none = 1;
  p_write_u_read = 2;
  p_write_u_write = 3;
}

abbrev pub library : BootLibrary
library = record {
  allocate = λ used size. if leb (used + size) 4096 then some (used + size) else none;
  pointer_size = 4;
  can_store = λ k address. true;
  frame_size = 32;
  psr_offset = 28;
  r15_offset = 24;
}

abbrev pub app : AppInfo
app = record {
  abi_token = 0xca11ab1e;
  memory_map_count = 1;
  device_map_count = 0;
  extra_slot_count = 2;
  external_interrupt_count = 2;
  initial_task_sp = 0x20001000;
  initial_task_pc = 0x1000;
  initial_task_grants = record { memory_index = 3; brand = 0 } ∷ [];
  memory_map = λ i. record { base = 0x20000000; end = 0x20001000 };
}

-- The state that a run returns, or the one given.
abbrev pub state_or : {A : Type 0} → Kernel → Run Kernel A → Kernel
state_or k (ok a t) = t
state_or k (panic e) = k
state_or k out_of_fuel = k

unfoldable pub booted : Kernel
unfolding start_app
booted = state_or (reset armv7m) (start_app library app (reset armv7m))

-- A key to the block of memory, object 3.
abbrev pub memory_key : Key
memory_key = record { brand = 0; generation = 0; ptr = some 3 }
