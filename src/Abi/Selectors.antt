-- ===== src/Abi/Selectors.antt =====
-- common/selectors.h and common/sysnums.h: the numbers that name the operations.
pub mod Context
pub mod Gate
pub mod Interrupt
pub mod Memory
pub mod ObjectTable
use brittle_kernel.Prelude.{ℕ}

abbrev pub sysnum_ipc : ℕ
sysnum_ipc = 0

abbrev pub sysnum_copy_key : ℕ
sysnum_copy_key = 1
