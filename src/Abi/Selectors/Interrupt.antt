-- ===== src/Abi/Selectors/Interrupt.antt =====
-- common/selectors.h: the selectors of the Interrupt protocol.
use brittle_kernel.Prelude.{ℕ}

abbrev pub set_target : ℕ
set_target = 1

abbrev pub enable : ℕ
enable = 2
