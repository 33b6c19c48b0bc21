-- ===== src/Abi.antt =====
-- common/: the interface between the kernel and the code that runs on it.
pub mod Sizes
pub mod Descriptor
pub mod Exceptions
pub mod Message
pub mod Selectors
