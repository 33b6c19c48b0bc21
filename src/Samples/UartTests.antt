-- ===== src/Samples/UartTests.antt =====
-- The simulated UART passes the tests of sim/uart_test.cc.
use brittle_kernel.Prelude.{ℕ, ◌≡◌, refl, Bool, true, false, not, ◌&&◌, List, [], ◌∷◌}
use brittle_kernel.Run.{Run, ok, panic, out_of_fuel, ◌>>=◌, ◌>>◌}
use brittle_kernel.Sim.{Simulation, reads, writes, completed, received, system_call, answered}
use brittle_kernel.Sim.Mock.{Expectation, mock}
use brittle_kernel.Sim.Uart.{uart_main}
use brittle_kernel.Sim.UartTest.{heartbeat, send_byte, receive_byte, flush_while_idle, started}

abbrev is_empty : List Expectation → Bool
is_empty [] = true
is_empty (e ∷ es) = false

-- The run returns, and the test has nothing left to expect; `port` is masked or not.
abbrev passes : ℕ → Bool → Run (Simulation (List Expectation)) (Unit {0}) → Bool
passes port true (ok tt s) = is_empty s.world && s.masked_ports port
passes port false (ok tt s) = is_empty s.world && not (s.masked_ports port)
passes port b (panic e) = false
passes port b out_of_fuel = false

passes-heartbeat : passes 1 false (uart_main mock 1 (started heartbeat)) ≡ true
unfolding uart_main started heartbeat mock ◌>>=◌ ◌>>◌ reads writes completed received system_call
    answered
passes-heartbeat = refl

passes-send_byte : passes 1 false (uart_main mock 2 (started send_byte)) ≡ true
unfolding uart_main started send_byte mock ◌>>=◌ ◌>>◌ reads writes completed received system_call
    answered
passes-send_byte = refl

passes-receive_byte : passes 3 true (uart_main mock 2 (started receive_byte)) ≡ true
unfolding uart_main started receive_byte mock ◌>>=◌ ◌>>◌ reads writes completed received system_call
    answered
passes-receive_byte = refl

passes-flush_while_idle : passes 1 false (uart_main mock 2 (started flush_while_idle)) ≡ true
unfolding uart_main started flush_while_idle mock ◌>>=◌ ◌>>◌ reads writes completed received
    system_call answered
passes-flush_while_idle = refl
