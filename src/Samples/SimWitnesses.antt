-- ===== src/Samples/SimWitnesses.antt =====
-- The theorems on the simulated UART, at a client that asks for a flush.
use brittle_kernel.Prelude.{ℕ, ◌+◌, ◌≡◌, refl, true, false, [], some}
use brittle_kernel.Run.{Run, ok, panic, out_of_fuel, ◌>>=◌, ◌>>◌}
use brittle_kernel.Sim.{
  Request, Response, send_request, call_request, open_receive_request, copy_cap_request,
  null_cap_request, mask_port_request, unmask_port_request, complete_response, message_response,
  success, Simulation, Peer, reads, writes, completed, received, system_call, answered,
}
use brittle_kernel.Sim.Uart.{message, p_tx, uart_main}
use brittle_kernel.Sim.Uart.Flush.{Guarded, uart_main-Guarded}

-- A flush is asked for; registers read as 0.
abbrev flush_response : Request → Response
flush_response (send_request b t m) = complete_response success
flush_response (call_request b t m) = message_response (record { port = 0; m = message 0 0 0 0 })
flush_response (open_receive_request b) =
    message_response (record { port = p_tx; m = message 1 0 0 0 })
flush_response (copy_cap_request i j) = complete_response success
flush_response (null_cap_request i) = complete_response success
flush_response (mask_port_request i) = complete_response success
flush_response (unmask_port_request i) = complete_response success

abbrev client : Peer ℕ
client r keys masks w = some (record { response = flush_response r; clist = keys; world = w + 1 })

abbrev idle : Simulation ℕ
idle = record { clist = λ i. []; masked_ports = λ i. false; flushing = false; world = 0 }

abbrev state_of : {A : Type 0} → Run (Simulation ℕ) A → Simulation ℕ
state_of (ok a s) = s
state_of (panic e) = idle
state_of out_of_fuel = idle

unfoldable flushed : Simulation ℕ
unfolding uart_main
flushed = state_of (uart_main client 1 idle)

flush_returns : uart_main client 1 idle ≡ ok tt flushed
unfolding uart_main flushed ◌>>=◌ ◌>>◌ reads writes completed received system_call answered
flush_returns = refl

flush_begun : flushed.flushing ≡ true
unfolding uart_main flushed ◌>>=◌ ◌>>◌ reads writes completed received system_call answered
flush_begun = refl

uart_main-Guarded_example : Guarded flushed
uart_main-Guarded_example = uart_main-Guarded client 1 idle flushed refl flush_returns
