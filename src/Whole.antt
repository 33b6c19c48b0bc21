-- ===== src/Whole.antt =====
-- A program and the kernel together: the system call of a/rt/ipc.S, entered through k/entry.S and
-- carried out by the model of the kernel, up to the switch that chooses the next context: the program sees
-- the state that the message and its reply leave.
pub mod Asking
pub mod Calling
pub mod Entry
pub mod Invoking
pub mod Minting
pub mod Switched
use brittle_kernel.Prelude.{ℕ, ◌+◌, ◌*◌, ◌^◌, update, not, ◌==◌}
use brittle_kernel.Run.{kr0_written, panic_if, Run, ok, panic, out_of_fuel, ◌>>=◌, ◌>>◌}
use brittle_kernel.Abi.Message.{Message}
use brittle_kernel.Kernel.{Kernel, Do, body, gets, kind, object_at, put_message, sys_message}
use brittle_kernel.Kernel.Dispatch.{ipc_phase}
use brittle_kernel.Kernel.Events.{save_registers}
use brittle_kernel.Kernel.Keys.{get_key, pointee}
use brittle_kernel.Kernel.Scheduler.{set_stack}
use brittle_kernel.User.{System, Outcome}

-- The registers r4 to r11 at the `svc` of `ipc` and `ipc2`.
unfoldable pub call_registers : Message → ℕ → ℕ → ℕ → ℕ
unfolding put_message
call_registers m send_map receive_map =
    put_message m (update (update (λ _. 0) 6 send_map) 7 receive_map)

-- etl_armv7m_sv_call_handler and Context::do_ipc of the context `c`, up to the switch.
unfoldable pub system_call : ℕ → ℕ → ℕ → Message → ℕ → ℕ → Do (Unit {0})
unfolding save_registers call_registers set_stack get_key ipc_phase
system_call fuel c sp m send_map receive_map = do
  save_registers (call_registers m send_map receive_map) c
  set_stack c sp
  key0 ← get_key c 0
  kind0 ← gets (λ k. kind (object_at k (pointee key0)))
  panic_if (not (kind0 == 0)) kr0_written
  ipc_phase fuel c m.desc

-- What the registers r4 to r11 hold when the context runs again, as `ipc2` stores them.
abbrev pub outcome : ℕ → Kernel → Outcome Kernel
outcome c k = record {
  message = sys_message (body k c).save;
  brand = (body k c).save 6 + (body k c).save 7 * 2 ^ 32;
  world = k;
}

-- After a panic no program runs; the state is then as before.
abbrev pub state_after : Kernel → Run Kernel (Unit {0}) → Kernel
state_after k (ok a s) = s
state_after k (panic e) = k
state_after k out_of_fuel = k

-- The program of the context `c` above the kernel, with its stack pointer, the rest of its surroundings as given.
unfoldable pub above_kernel : ℕ → ℕ → ℕ → System Kernel → System Kernel
unfolding system_call
above_kernel fuel c sp sys = record sys {
  svc = λ m send_map receive_map k.
      outcome c (state_after k (system_call fuel c sp m send_map receive_map k));
}
