-- ===== src/Sim/Uart.antt =====
-- sim/uart.cc: a server for a UART, which answers on four ports.
pub mod Flush
use brittle_kernel.Prelude.{
  ℕ, zero, suc, ◌+◌, ◌*◌, ◌-◌, ◌/◌, ◌%◌, ◌^◌, Bool, true, false, not, ◌&&◌, ◌==◌, if◌then◌else◌,
  Option, none, some, bit_or,
}
use brittle_kernel.Run.{pure, fail, ◌>>=◌, ◌>>◌, maybe, assertion_failed}
use brittle_kernel.Sim.{
  Message, ReceivedMessage, SysResult, Peer, Child, is_success, reads, writes, assert, send, call,
  open_receive, move_cap, mask, unmask,
}

-- Slots for keys.
abbrev pub k0 : ℕ
k0 = 0

abbrev pub k_saved_reply : ℕ
k_saved_reply = 4

abbrev pub k_flush_reply : ℕ
k_flush_reply = 5

abbrev pub k_reg : ℕ
k_reg = 14

-- Ports.
abbrev pub p_mon : ℕ
p_mon = 0

abbrev pub p_tx : ℕ
p_tx = 1

abbrev pub p_irq : ℕ
p_irq = 2

abbrev pub p_rx : ℕ
p_rx = 3

-- Bit `n` of a word, and the word without it.
unfoldable pub has_bit : ℕ → ℕ → Bool
has_bit n w = w / 2 ^ n % 2 == 1

unfoldable pub clear_bit : ℕ → ℕ → ℕ
clear_bit n w = w - w / 2 ^ n % 2 * 2 ^ n

abbrev pub message : ℕ → ℕ → ℕ → ℕ → Message
message a b c d = record { data0 = a; data1 = b; data2 = c; data3 = d }

module _ {W : Type 0} (peer : Peer W) where
  -- The result of the send is ignored.
  unfoldable pub reply : ℕ → ℕ → ℕ → ℕ → Child W (Unit {0})
  unfolding send
  reply a b c d = do _ ← send peer false k_saved_reply (message a b c d); pure tt

  unfoldable pub write_register : ℕ → ℕ → Child W (Unit {0})
  unfolding send assert is_success
  write_register offset value = do
    r ← send peer true k_reg (message 0 offset value 0)
    assert (is_success r)

  unfoldable pub read_register : ℕ → Child W ℕ
  unfolding call
  read_register offset = do
    r ← call peer true k_reg (message 1 offset 0 0)
    maybe r (fail assertion_failed) (λ rm. pure (rm.m.data0 % 2 ^ 32))

  unfoldable pub write_cr1 : ℕ → Child W (Unit {0})
  unfolding write_register
  write_cr1 value = write_register 12 value

  unfoldable pub write_dr : ℕ → Child W (Unit {0})
  unfolding write_register
  write_dr value = write_register 4 (value % 2 ^ 8)

  unfoldable pub read_dr : Child W ℕ
  unfolding read_register
  read_dr = read_register 4

  unfoldable pub read_cr1 : Child W ℕ
  unfolding read_register
  read_cr1 = read_register 12

  unfoldable pub read_sr : Child W ℕ
  unfolding read_register
  read_sr = read_register 0

  -- enable_irq_on_txe, enable_irq_on_rxne and enable_irq_on_tc, by the bit of cr1.
  unfoldable pub enable_irq_on : ℕ → Child W (Unit {0})
  unfolding read_cr1 write_cr1
  enable_irq_on n = do cr1 ← read_cr1; write_cr1 (bit_or cr1 (2 ^ n))

  unfoldable pub handle_mon : Message → Child W (Unit {0})
  unfolding reply
  handle_mon req = if req.data0 == 0 then reply req.data1 req.data2 req.data3 0 else pure tt

  unfoldable pub do_send1 : Message → Child W (Unit {0})
  unfolding write_dr mask enable_irq_on reply
  do_send1 req = do write_dr req.data1; _ ← mask peer p_tx; enable_irq_on 7; reply 0 0 0 0

  -- The port is masked, and the reply key is kept until the end of the flush.
  unfoldable pub begin_flush : Child W (Unit {0})
  unfolding mask move_cap writes
  begin_flush = do
    _ ← mask peer p_tx
    _ ← move_cap peer k_saved_reply k_flush_reply
    writes (λ s. record s { flushing = true })

  unfoldable pub do_flush : Child W (Unit {0})
  unfolding enable_irq_on begin_flush
  do_flush = do enable_irq_on 6; begin_flush

  unfoldable pub handle_tx : Message → Child W (Unit {0})
  unfolding do_send1 do_flush
  handle_tx req =
      if req.data0 == 0 then do_send1 req else if req.data0 == 1 then do_flush else pure tt

  -- `if (!flushing) unmask(p_tx)`.
  unfoldable pub allow_send : Child W (Unit {0})
  unfolding reads unmask
  allow_send = do
    f ← reads (λ s. s.flushing)
    if f then pure tt else do _ ← unmask peer p_tx; pure tt

  -- The flag is reset, and the port is open again.
  unfoldable pub end_flush : Child W (Unit {0})
  unfolding writes unmask
  end_flush = do writes (λ s. record s { flushing = false }); _ ← unmask peer p_tx; pure tt

  -- The three causes of the interrupt; each returns cr1.
  unfoldable pub on_txe : ℕ → ℕ → Child W ℕ
  unfolding has_bit clear_bit write_cr1 allow_send
  on_txe sr cr1 =
      if has_bit 7 sr && has_bit 7 cr1
      then (do write_cr1 (clear_bit 7 cr1); allow_send; pure (clear_bit 7 cr1))
      else pure cr1

  unfoldable pub on_rxne : ℕ → ℕ → Child W ℕ
  unfolding has_bit clear_bit write_cr1 unmask
  on_rxne sr cr1 =
      if has_bit 5 sr && has_bit 5 cr1
      then (do write_cr1 (clear_bit 5 cr1); _ ← unmask peer p_rx; pure (clear_bit 5 cr1))
      else pure cr1

  unfoldable pub on_tc : ℕ → ℕ → Child W (Unit {0})
  unfolding has_bit clear_bit write_cr1 reads assert send end_flush
  on_tc sr cr1 =
      if has_bit 6 sr && has_bit 6 cr1
      then (do
        write_cr1 (clear_bit 6 cr1)
        f ← reads (λ s. s.flushing)
        assert f
        _ ← send peer false k_flush_reply (message 0 0 0 0)
        end_flush)
      else pure tt

  unfoldable pub handle_irq : Child W (Unit {0})
  unfolding read_sr read_cr1 on_txe on_rxne on_tc reply
  handle_irq = do
    sr ← read_sr
    cr1 ← read_cr1
    cr1' ← on_txe sr cr1
    cr1'' ← on_rxne sr cr1'
    on_tc sr cr1''
    reply 1 0 0 0

  unfoldable pub do_recv1 : Child W (Unit {0})
  unfolding read_dr mask enable_irq_on reply
  do_recv1 = do b ← read_dr; _ ← mask peer p_rx; enable_irq_on 5; reply b 0 0 0

  unfoldable pub handle_rx : Message → Child W (Unit {0})
  unfolding do_recv1
  handle_rx req = if req.data0 == 0 then do_recv1 else pure tt

  unfoldable pub dispatch : ReceivedMessage → Child W (Unit {0})
  unfolding handle_mon handle_tx handle_irq handle_rx
  dispatch rm =
      if rm.port == p_mon
      then handle_mon rm.m
      else if rm.port == p_tx
      then handle_tx rm.m
      else if rm.port == p_irq
      then handle_irq
      else if rm.port == p_rx
      then handle_rx rm.m
      else fail assertion_failed

  -- A round of the main loop.
  unfoldable pub uart_round : Child W (Unit {0})
  unfolding open_receive move_cap dispatch
  uart_round = do
    r ← open_receive peer true
    maybe r (pure tt) (λ rm. do _ ← move_cap peer k0 k_saved_reply; dispatch rm)

  unfoldable pub uart_rounds : ℕ → Child W (Unit {0})
  unfolding uart_round
  uart_rounds zero = pure tt
  uart_rounds (suc n) = do uart_round; uart_rounds n

  -- The program, for the rounds given.
  unfoldable pub uart_main : ℕ → Child W (Unit {0})
  unfolding mask uart_rounds
  uart_main n = do _ ← mask peer p_rx; uart_rounds n
