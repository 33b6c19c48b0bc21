-- ===== src/User/Setup.antt =====
-- a/app/serial/setup.cc: the set-up of the serial application, a UART driver and a client of it.
pub mod Balance
use brittle_kernel.Prelude.{
  ℕ, ◌+◌, ◌-◌, ◌*◌, ◌/◌, ◌%◌, ◌^◌, Option, none, some, true, ltb, if◌then◌else◌,
}
use brittle_kernel.Run.{pure, ref, ◌>>=◌, ◌>>◌}
use brittle_kernel.Abi.Sizes.{interrupt_l2_size}
use brittle_kernel.User.{System, User}
use brittle_kernel.User.Alloc.{alloc_mem, alloc_slot, ki_ot, ki_syscall_gate}
use brittle_kernel.User.Keys.{drop_key}
use brittle_kernel.User.Load.{load_program}
use brittle_kernel.User.Startup.{make_gate, oi_sys_rom, oi_apb}
use brittle_kernel.User.Stubs.Context.{set_key, set_priority, make_runnable}
use brittle_kernel.User.Stubs.Gate.{make_client_key}
use brittle_kernel.User.Stubs.Interrupt.{set_target}
use brittle_kernel.User.Stubs.Memory.{become, make_child, type_interrupt}
use brittle_kernel.User.Stubs.ObjectTable.{mint_key, read_key}

-- The addresses of the programs' images, which the linker gives, and the hardware library's number of
-- the interrupt.
pub record Images : Type 0 where
  pub drv_stm32f4_uart : ℕ
  pub srv_ascii : ℕ
  pub usart2 : ℕ

-- `Brand(1) << 63`.
abbrev transparent : ℕ
transparent = 2 ^ 63

module _ {W : Type 0} (sys : System W) (images : Images) where
  -- `uint32_t(Rasr().with_ap(p_read_u_read)) >> 8`, and the brand of the APB.
  abbrev rom_brand : ℕ
  rom_brand = sys.platform.with_ap sys.platform.p_read_u_read 0 / 2 ^ 8

  abbrev apb_brand : ℕ
  apb_brand = sys.platform.with_xn 1 (sys.platform.with_ap sys.platform.p_write_u_write 0) / 2 ^ 8

  -- The function literals that make a key to an image of `size` bytes.
  unfoldable pub make_image_key : ℕ → ℕ → User W ℕ
  unfolding mint_key alloc_slot make_child drop_key
  make_image_key addr size = do
    k_rom ← mint_key sys ki_ot oi_sys_rom rom_brand
    k_slot ← alloc_slot sys
    make_child sys k_rom addr size k_slot
    drop_key k_rom
    pure k_slot

  -- A system call key for the program, in its key register 15.
  unfoldable pub give_syscall_key : ℕ → User W (Unit {0})
  unfolding read_key make_client_key set_key drop_key
  give_syscall_key k_prog = do
    prog_info ← read_key sys ki_ot k_prog
    k_sys ← make_client_key sys ki_syscall_gate (transparent + prog_info.index)
    set_key sys k_prog 15 k_sys
    drop_key k_sys

  -- The interrupt and the gate for it.
  unfoldable pub give_interrupt : ℕ → User W (Unit {0})
  unfolding alloc_mem become set_key make_gate make_client_key set_target drop_key interrupt_l2_size
  give_interrupt k_prog = do
    maybe_k_irq ← alloc_mem sys (interrupt_l2_size - 1) 0
    k_irq ← ref maybe_k_irq
    become sys k_irq type_interrupt images.usart2
    set_key sys k_prog 12 k_irq
    k_irq_gate ← make_gate sys
    set_key sys k_prog 13 k_irq_gate
    k_irq_gate_client ← make_client_key sys k_irq_gate transparent
    set_target sys k_irq k_irq_gate_client
    drop_key k_irq_gate_client
    drop_key k_irq_gate
    drop_key k_irq

  unfoldable pub give_apb : ℕ → User W (Unit {0})
  unfolding mint_key set_key drop_key
  give_apb k_prog = do
    k_apb ← mint_key sys ki_ot oi_apb apb_brand
    set_key sys k_prog 11 k_apb
    drop_key k_apb

  unfoldable pub make_uart_driver : User W ℕ
  unfolding make_image_key load_program give_syscall_key make_gate set_key give_interrupt give_apb
      set_priority make_runnable drop_key
  make_uart_driver = do
    let addr = images.drv_stm32f4_uart
    k_img ← make_image_key addr 2048
    maybe_k_prog ← load_program sys addr k_img
    k_prog ← ref maybe_k_prog
    give_syscall_key k_prog
    k_gate ← make_gate sys
    set_key sys k_prog 14 k_gate
    give_interrupt k_prog
    give_apb k_prog
    set_priority sys k_prog 0
    make_runnable sys k_prog
    drop_key k_prog
    drop_key k_img
    pure k_gate

  unfoldable pub make_uart_client : ℕ → User W (Unit {0})
  unfolding make_image_key load_program give_syscall_key make_client_key set_key set_priority
      make_runnable drop_key
  make_uart_client k_uart_gate = do
    let addr = images.srv_ascii
    k_img ← make_image_key addr 512
    maybe_k_prog ← load_program sys addr k_img
    k_prog ← ref maybe_k_prog
    give_syscall_key k_prog
    k_uart_client ← make_client_key sys k_uart_gate transparent
    set_key sys k_prog 14 k_uart_client
    drop_key k_uart_client
    set_priority sys k_prog 0
    make_runnable sys k_prog
    drop_key k_prog
    drop_key k_img

  unfoldable pub app_setup : User W (Unit {0})
  unfolding make_uart_driver make_uart_client drop_key
  app_setup = do k_uart_gate ← make_uart_driver; make_uart_client k_uart_gate; drop_key k_uart_gate
