-- ===== src/User.antt =====
-- a/: what the programs above the kernel share. The kernel and the other programs are a `World`, which
-- the assembly of a/rt/ipc.S changes; what it does is a parameter.
pub mod Alloc
pub mod Ascii
pub mod Driver
pub mod Image
pub mod Ipc
pub mod Keys
pub mod Load
pub mod Setup
pub mod Server
pub mod Startup
pub mod Stubs
use brittle_kernel.Prelude.{ℕ, Bool, false}
use brittle_kernel.Run.{Cmd, ok, panic_unless, panic_if, assertion_failed}
use brittle_kernel.Abi.Descriptor.{Descriptor}
use brittle_kernel.Abi.Message.{Message}
use brittle_kernel.Kernel.Hardware.{Platform}

-- What comes back from `svc`: the message and the brand.
pub record Outcome (W : Type 0) : Type 0 where
  pub message : Message
  pub brand : ℕ
  pub world : W

-- What is not under a/ in C++: the system call; peanut_config.h, which each build provides; what the
-- linker and the hardware library provide.
pub record System (W : Type 0) : Type 0 where
  -- The message, the keys to send, the keys to receive.
  pub svc : Message → ℕ → ℕ → W → Outcome W
  -- The system call of `copy_key`, which returns nothing.
  pub svc_copy_key : Descriptor → W → W
  pub memory_map_count : ℕ
  pub device_map_count : ℕ
  pub extra_slot_count : ℕ
  pub frame_size : ℕ
  -- The addresses of a/sys/idle.cc's `idle_stack` and `idle_main`.
  pub idle_stack_address : ℕ
  pub idle_main_address : ℕ
  pub platform : Platform

-- The static variables: the mask `available_keys` of a/rt/keys.cc as its bits, those of
-- a/sys/alloc.cc and a/sys/idle.cc, and the counters of a/drv/stm32f4/uart/main.cc.
pub record Process (W : Type 0) : Type 0 where
  pub available : ℕ → Bool
  pub slots_used : ℕ
  pub mem_roots : ℕ → ℕ
  pub idle_stack : ℕ → ℕ
  pub receive_count : ℕ
  pub send_count : ℕ
  pub world : W

abbrev pub User : Type 0 → Type 0 → Type 0
User W A = Cmd (Process W) A

module _ {W : Type 0} where
  unfoldable pub reads : {A : Type 0} → (Process W → A) → User W A
  reads f p = ok (f p) p

  unfoldable pub writes : (Process W → Process W) → User W (Unit {0})
  writes f p = ok tt (f p)

  -- ETL_ASSERT.
  unfoldable pub assert : Bool → User W (Unit {0})
  assert b = panic_unless b assertion_failed
