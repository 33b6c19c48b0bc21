-- ===== src/Abi/Selectors/Context.antt =====
-- common/selectors.h: the selectors of the Context protocol.
use brittle_kernel.Prelude.{ℕ}

abbrev pub read_register : ℕ
read_register = 1

abbrev pub write_register : ℕ
write_register = 2

abbrev pub read_key_register : ℕ
read_key_register = 3

abbrev pub write_key_register : ℕ
write_key_register = 4

abbrev pub read_region_register : ℕ
read_region_register = 5

abbrev pub write_region_register : ℕ
write_region_register = 6

abbrev pub make_runnable : ℕ
make_runnable = 7

abbrev pub get_priority : ℕ
get_priority = 8

abbrev pub set_priority : ℕ
set_priority = 9

abbrev pub read_low_registers : ℕ
read_low_registers = 10

abbrev pub read_high_registers : ℕ
read_high_registers = 11

abbrev pub write_low_registers : ℕ
write_low_registers = 12

abbrev pub write_high_registers : ℕ
write_high_registers = 13
