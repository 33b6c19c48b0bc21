-- ===== src/User/Stubs.antt =====
-- a/k: the bindings of the kernel objects' protocols. `k` is the key register of the object called.
pub mod Context
pub mod Gate
pub mod Held
pub mod Interrupt
pub mod Memory
pub mod ObjectTable
