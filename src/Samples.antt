-- ===== src/Samples.antt =====
-- A processor, a hardware library and an application to try the kernel on, and the theorems of the
-- other modules at them.
pub mod Booting
pub mod FuelWitnesses
pub mod ListWitnesses
pub mod Machine
pub mod ProtocolWitnesses
pub mod SimWitnesses
pub mod UartTests
pub mod UserWitnesses
pub mod WholeWitnesses
pub mod Witnesses
