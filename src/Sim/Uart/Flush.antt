-- ===== src/Sim/Uart/Flush.antt =====
-- The port for sending, while a flush is pending.
use brittle_kernel.Prelude.{
  ℕ, zero, suc, ◌≡◌, refl, Bool, true, false, Bool-cases, inl, inr, none, some, ◌==◌, arith, Option,
}
use brittle_kernel.Run.{ok, pure, ◌>>=◌, ◌>>◌}
use brittle_kernel.Run.Keeps.{
  Keeps, Ensures-ok, Keeps-bind, Keeps-then, Keeps-pure, Keeps-if, Keeps-maybe, Keeps-fail,
  Keeps-panic_unless,
}
use brittle_kernel.Sim.{
  Message, ReceivedMessage, Request, Response, complete_response, message_response, Simulation,
  Peer, reads, writes, assert, ask, answered, Answer, completed, received, send, call, open_receive,
  move_cap, mask, unmask, system_call,
}
use brittle_kernel.Sim.Uart.{
  p_tx, reply, write_register, read_register, write_cr1, write_dr, read_dr, read_cr1, read_sr,
  enable_irq_on, handle_mon, do_send1, begin_flush, do_flush, handle_tx, allow_send, end_flush,
  on_txe, on_rxne, on_tc, handle_irq, do_recv1, handle_rx, dispatch, uart_round, uart_rounds,
  uart_main,
}

-- While a flush is pending, the port for sending is masked.
unfoldable pub Guarded : {W : Type 0} → Simulation W → Type 0
Guarded s = s.flushing ≡ true → s.masked_ports p_tx ≡ true

module _ {W : Type 0} (peer : Peer W) where
  abbrev G : Simulation W → Type 0
  G = Guarded

  Keeps-reads : {A : Type 0} (f : Simulation W → A) → Keeps G (reads f)
  unfolding reads
  Keeps-reads f = record { at = λ s h. h }

  Keeps-answered : (a : Option (Answer W)) → Keeps G (answered peer a)
  unfolding answered Guarded
  Keeps-answered none = record { at = λ s h. tt }
  Keeps-answered (some a) = record { at = λ s h. h }

  Keeps-ask : (r : Request) → Keeps G (ask peer r)
  unfolding ask
  Keeps-ask r = record { at = λ s h. (Keeps-answered _).at s h }

  Keeps-completed : (r : Response) → Keeps G (completed peer r)
  unfolding completed
  Keeps-completed (complete_response r) = Keeps-pure G r
  Keeps-completed (message_response rm) = Keeps-fail G _

  Keeps-received : (r : Response) → Keeps G (received peer r)
  unfolding received assert
  Keeps-received (complete_response r) =
      Keeps-then G _ _ (Keeps-panic_unless G _ _) (Keeps-pure G none)
  Keeps-received (message_response rm) = Keeps-pure G (some rm)

  Keeps-send : (b : Bool) (t : ℕ) (m : Message) → Keeps G (send peer b t m)
  unfolding send system_call
  Keeps-send b t m = Keeps-bind G _ _ (Keeps-ask _) Keeps-completed

  Keeps-call : (b : Bool) (t : ℕ) (m : Message) → Keeps G (call peer b t m)
  unfolding call system_call
  Keeps-call b t m = Keeps-bind G _ _ (Keeps-ask _) Keeps-received

  Keeps-open_receive : (b : Bool) → Keeps G (open_receive peer b)
  unfolding open_receive system_call
  Keeps-open_receive b = Keeps-bind G _ _ (Keeps-ask _) Keeps-received

  Keeps-move_cap : (i j : ℕ) → Keeps G (move_cap peer i j)
  unfolding move_cap system_call completed writes pure ◌>>=◌ ◌>>◌ Guarded
  Keeps-move_cap i j = record { at = λ s h. h }

  Keeps-mask : (p : ℕ) → Keeps G (mask peer p)
  unfolding mask system_call completed writes pure ◌>>=◌ ◌>>◌ Guarded
  Keeps-mask p = record {
    at = λ s h f. elim (Bool-cases (p_tx == p)) [ inl e ↦ rw e refl | inr e ↦ rw e (h f) ];
  }

  -- Another port may be unmasked.
  Keeps-unmask_rx : Keeps G (unmask peer 3)
  unfolding unmask system_call completed writes pure ◌>>=◌ ◌>>◌ Guarded
  Keeps-unmask_rx = record { at = λ s h f. h f }

  Keeps-begin_flush : Keeps G (begin_flush peer)
  unfolding begin_flush mask move_cap system_call completed writes pure ◌>>=◌ ◌>>◌ Guarded
  Keeps-begin_flush = record { at = λ s h f. refl }

  Keeps-end_flush : Keeps G (end_flush peer)
  unfolding end_flush unmask system_call completed writes pure ◌>>=◌ ◌>>◌ Guarded
  Keeps-end_flush = record { at = λ s h f. absurd (ground arith) }

  Keeps-allow_send : Keeps G (allow_send peer)
  unfolding allow_send reads unmask system_call completed writes pure ◌>>=◌ ◌>>◌ Guarded
  Keeps-allow_send = record {
    at = λ s h. elim (Bool-cases s.flushing) [
      | inl e ↦ rw e (λ f. h e)
      | inr e ↦ rw e (λ f. absurd (ground arith))
    ];
  }

  Keeps-assert : (b : Bool) → Keeps G (assert b)
  unfolding assert
  Keeps-assert b = Keeps-panic_unless G b _

  ruleset guards = (
    Keeps-bind, Keeps-then, Keeps-pure, Keeps-if, Keeps-maybe, Keeps-fail, Keeps-assert,
    Keeps-reads, Keeps-send, Keeps-call, Keeps-open_receive, Keeps-move_cap, Keeps-mask,
    Keeps-unmask_rx, Keeps-begin_flush, Keeps-end_flush, Keeps-allow_send,
  )

  Keeps-reply : (a b c d : ℕ) → Keeps G (reply peer a b c d)
  unfolding reply
  Keeps-reply a b c d = search guards depth 9

  Keeps-write_register : (a v : ℕ) → Keeps G (write_register peer a v)
  unfolding write_register
  Keeps-write_register a v = search guards depth 9

  Keeps-read_register : (a : ℕ) → Keeps G (read_register peer a)
  unfolding read_register
  Keeps-read_register a = search guards depth 9

  Keeps-enable_irq_on : (n : ℕ) → Keeps G (enable_irq_on peer n)
  unfolding enable_irq_on read_cr1 write_cr1
  Keeps-enable_irq_on n = search (guards, Keeps-write_register, Keeps-read_register) depth 9

  Keeps-handle_tx : (m : Message) → Keeps G (handle_tx peer m)
  unfolding handle_tx do_send1 do_flush write_dr
  Keeps-handle_tx m =
      search (guards, Keeps-write_register, Keeps-enable_irq_on, Keeps-reply) depth 12

  Keeps-on_txe : (sr cr1 : ℕ) → Keeps G (on_txe peer sr cr1)
  unfolding on_txe write_cr1
  Keeps-on_txe sr cr1 = search (guards, Keeps-write_register) depth 9

  Keeps-on_rxne : (sr cr1 : ℕ) → Keeps G (on_rxne peer sr cr1)
  unfolding on_rxne write_cr1
  Keeps-on_rxne sr cr1 = search (guards, Keeps-write_register) depth 9

  Keeps-on_tc : (sr cr1 : ℕ) → Keeps G (on_tc peer sr cr1)
  unfolding on_tc write_cr1
  Keeps-on_tc sr cr1 = search (guards, Keeps-write_register) depth 12

  Keeps-handle_irq : Keeps G (handle_irq peer)
  unfolding handle_irq read_sr read_cr1
  Keeps-handle_irq =
      search (guards, Keeps-read_register, Keeps-on_txe, Keeps-on_rxne, Keeps-on_tc, Keeps-reply)
        depth 12

  Keeps-dispatch : (rm : ReceivedMessage) → Keeps G (dispatch peer rm)
  unfolding dispatch handle_mon handle_rx do_recv1 read_dr
  Keeps-dispatch rm =
      search
        (
          guards, Keeps-read_register, Keeps-enable_irq_on, Keeps-reply, Keeps-handle_tx,
          Keeps-handle_irq,
        )
        depth 14

  Keeps-uart_round : Keeps G (uart_round peer)
  unfolding uart_round
  Keeps-uart_round = search (guards, Keeps-dispatch) depth 9

  Keeps-uart_rounds : (n : ℕ) → Keeps G (uart_rounds peer n)
  unfolding uart_rounds
  Keeps-uart_rounds zero = Keeps-pure G tt
  Keeps-uart_rounds (suc n) = Keeps-then G _ _ Keeps-uart_round (Keeps-uart_rounds n)

  Keeps-uart_main : (n : ℕ) → Keeps G (uart_main peer n)
  unfolding uart_main
  Keeps-uart_main n = search (guards, Keeps-uart_rounds) depth 5

-- The simulated UART, started with no flush pending, is after any number of rounds, where they return,
-- in a state in which the port for sending is masked if a flush is pending.
pub uart_main-Guarded :
    {W : Type 0} (peer : Peer W) (n : ℕ) (s t : Simulation W)
    → s.flushing ≡ false
    → uart_main peer n s ≡ ok tt t
    → Guarded t
unfolding Guarded
uart_main-Guarded peer n s t e =
    Ensures-ok _ _ tt t ((Keeps-uart_main peer n).at s (λ f. absurd (ground arith)))
