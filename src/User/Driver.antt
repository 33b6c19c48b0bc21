-- ===== src/User/Driver.antt =====
-- a/drv/stm32f4/uart/main.cc: a driver that sends characters through a UART.
pub mod Replies
use brittle_kernel.Prelude.{
  ℕ, zero, suc, ◌+◌, ◌/◌, ◌%◌, ◌^◌, Bool, true, false, not, ◌==◌, if◌then◌else◌,
}
use brittle_kernel.Run.{pure, ◌>>=◌, ◌>>◌}
use brittle_kernel.Abi.Descriptor.{
  Descriptor, zero_descriptor, get_error, get_selector, with_receive_enabled, with_source,
  with_send_enabled, with_target, with_error, with_block,
}
use brittle_kernel.Abi.Message.{Message, zero_message}
use brittle_kernel.User.{System, Process, User, reads, writes, assert}
use brittle_kernel.User.Ipc.{keymap, ipc2_with_brand, ipc2}
use brittle_kernel.User.Keys.{reserve_key}
use brittle_kernel.User.Server.{map_memory}
use brittle_kernel.User.Stubs.Interrupt.{enable}

-- The key registers.
abbrev pub k_sender_reply : ℕ
k_sender_reply = 1

abbrev pub k_irq_reply : ℕ
k_irq_reply = 2

abbrev pub k_reg_mem : ℕ
k_reg_mem = 11

abbrev pub k_irq : ℕ
k_irq = 12

abbrev pub k_irq_gate : ℕ
k_irq_gate = 13

abbrev pub k_gate : ℕ
k_gate = 14

abbrev pub k_sys : ℕ
k_sys = 15

-- The hardware library's access to the device registers.
pub record Board (W : Type 0) : Type 0 where
  -- `rcc.write_apb1enr(rcc.read_apb1enr().with_bit(n, true))`, and the same of ahb1enr.
  pub enable_apb1_clock : ℕ → W → W
  pub enable_ahb1_clock : ℕ → W → W
  -- Writes to usart2: cr1 with `ue` alone, brr, two stop bits in cr2, `te` and `re` in cr1.
  pub write_cr1_ue : W → W
  pub write_brr : ℕ → W → W
  pub set_two_stop_bits : W → W
  pub set_te_re : W → W
  -- `gpioa`, pins 2 and 3: the mode `alternate`, and the function.
  pub set_mode_alternate : W → W
  pub set_alternate_function : ℕ → W → W
  pub read_cr1 : W → ℕ
  pub write_cr1 : ℕ → W → W
  pub write_dr : ℕ → W → W
  pub with_txeie : Bool → ℕ → ℕ

unfoldable pub receive_only_descriptor : Descriptor
unfolding with_receive_enabled with_source
receive_only_descriptor = with_source k_gate (with_receive_enabled true zero_descriptor)

-- The answer to a character that was sent.
unfoldable pub sent_reply : Message
unfolding receive_only_descriptor with_send_enabled with_target
sent_reply = record zero_message {
  desc = with_target k_sender_reply (with_send_enabled true receive_only_descriptor);
}

-- The answer to a selector that is not known.
unfoldable pub bogus_reply : Message
unfolding receive_only_descriptor with_send_enabled with_target with_error
bogus_reply = record zero_message {
  desc = with_error true (with_target 0 (with_send_enabled true receive_only_descriptor));
}

abbrev apb1_hz : ℕ
apb1_hz = 16000000

abbrev console_baud : ℕ
console_baud = 115200

-- The register writes of `initialize_hardware`.
unfoldable pub set_up : {W : Type 0} → Board W → W → W
set_up board w = board.set_alternate_function 7 (
    board.set_mode_alternate (
      board.set_te_re (
        board.set_two_stop_bits (
          board.write_brr (apb1_hz / console_baud)
            (board.write_cr1_ue (board.enable_ahb1_clock 0 (board.enable_apb1_clock 17 w)))))))

module _ {W : Type 0} (sys : System W) (board : Board W) where
  unfoldable pub initialize_hardware : User W (Unit {0})
  unfolding map_memory enable set_up
  initialize_hardware = do
    map_memory sys k_sys k_reg_mem 2
    writes (λ p. record p { world = set_up board p.world })
    enable sys k_irq false

  -- `usart2.write_cr1(usart2.read_cr1().with_txeie(e))`.
  unfoldable pub set_txeie : Bool → User W (Unit {0})
  set_txeie e = writes (λ p. record p {
    world = board.write_cr1 (board.with_txeie e (board.read_cr1 p.world)) p.world;
  })

  unfoldable pub wait_for_txe : User W (Unit {0})
  unfolding ipc2 keymap assert get_error set_txeie enable with_receive_enabled with_source
      with_block
  wait_for_txe = do
    r ←
        ipc2 sys
          (record zero_message {
            desc =
                with_block true
                  (with_source k_irq_gate (with_receive_enabled true zero_descriptor));
          })
          0 (keymap k_irq_reply 0 0 0)
    assert (not (get_error r.desc))
    set_txeie false
    enable sys k_irq_reply true

  -- The case of selector 1.
  unfoldable pub send_character : ℕ → User W Message
  unfolding set_txeie wait_for_txe sent_reply
  send_character c = do
    writes (λ p. record p { send_count = (p.send_count + 1) % 2 ^ 32 })
    writes (λ p. record p { world = board.write_dr (c % 2 ^ 8) p.world })
    set_txeie true
    wait_for_txe
    pure sent_reply

  -- One round of the loop, from the message to be sent to the next one.
  unfoldable pub driver_round : Message → User W Message
  unfolding ipc2_with_brand keymap get_error get_selector send_character bogus_reply
      receive_only_descriptor
  driver_round m = do
    r ← ipc2_with_brand sys m (keymap 0 0 0 0) (keymap k_sender_reply 0 0 0)
    writes (λ p. record p { receive_count = (p.receive_count + 1) % 2 ^ 32 })
    if get_error r.m.desc
        then pure (record r.m { desc = receive_only_descriptor })
        else if get_selector r.m.desc == 1
        then send_character r.m.d0
        else pure bogus_reply

  -- The loop, for the rounds given.
  unfoldable pub driver_rounds : ℕ → Message → User W Message
  unfolding driver_round
  driver_rounds zero m = pure m
  driver_rounds (suc n) m = do m' ← driver_round m; driver_rounds n m'

  unfoldable pub driver_main : ℕ → User W Message
  unfolding reserve_key initialize_hardware driver_rounds receive_only_descriptor
  driver_main n = do
    reserve_key k_sender_reply
    reserve_key k_irq_reply
    reserve_key k_reg_mem
    reserve_key k_irq
    reserve_key k_irq_gate
    reserve_key k_gate
    reserve_key k_sys
    initialize_hardware
    driver_rounds n (record zero_message { desc = receive_only_descriptor })
