-- ===== src/Kernel/Hardware.antt =====
-- The hardware library that the kernel calls (etl/armv7m), as parameters. `Platform` holds the bit
-- fields of the MPU registers and the encodings of its access permissions; `HwOp` names each write
-- to a device register, and the kernel's state keeps the writes made, the newest first.
use brittle_kernel.Prelude.{ℕ, Bool}

pub record Platform : Type 0 where
  -- The addresses of the kernel's image, static storage and donated RAM, as they are linked.
  pub kernel_memory : ℕ → Bool
  -- `Rbar().with_addr_27`, and `with_valid(true).with_region(i)`.
  pub rbar_addr_27 : ℕ → ℕ
  pub rbar_region : ℕ → ℕ → ℕ
  -- `with_size(s).with_enable(true)`.
  pub rasr_enable : ℕ → ℕ → ℕ
  pub get_xn : ℕ → ℕ
  pub get_ap : ℕ → ℕ
  pub get_tex : ℕ → ℕ
  pub get_s : ℕ → ℕ
  pub get_c : ℕ → ℕ
  pub get_b : ℕ → ℕ
  pub get_srd : ℕ → ℕ
  pub with_xn : ℕ → ℕ → ℕ
  pub with_ap : ℕ → ℕ → ℕ
  pub with_tex : ℕ → ℕ → ℕ
  pub with_s : ℕ → ℕ → ℕ
  pub with_c : ℕ → ℕ → ℕ
  pub with_b : ℕ → ℕ → ℕ
  pub with_srd : ℕ → ℕ → ℕ
  pub p_none_u_none : ℕ
  pub p_read_u_none : ℕ
  pub p_read_u_read : ℕ
  pub p_write_u_none : ℕ
  pub p_write_u_read : ℕ
  pub p_write_u_write : ℕ

pub data HwOp : Type 0 where
  mpu_enable : Bool → HwOp
  mpu_rbar : ℕ → HwOp
  mpu_rasr : ℕ → HwOp
  nvic_disable_irq : ℕ → HwOp
  nvic_enable_irq : ℕ → HwOp
  nvic_clear_pending_irq : ℕ → HwOp
  sys_tick_tickint : Bool → HwOp
  scb_clear_sys_tick : HwOp
  scb_set_pend_sv : HwOp
