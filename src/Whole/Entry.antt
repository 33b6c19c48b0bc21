-- ===== src/Whole/Entry.antt =====
-- The entry of the kernel for a system call is the system call of the current context and the switch.
use brittle_kernel.Prelude.{ℕ, ◌/◌, ◌^◌, ◌≡◌, refl, Bool, true, false}
use brittle_kernel.Run.{
  Run, ok, panic, out_of_fuel, and_then, panic_if, kr0_written, pure, ◌>>=◌, ◌>>◌,
}
use brittle_kernel.Abi.Message.{Message}
use brittle_kernel.Kernel.{Kernel, Do, gets, modify, put_message}
use brittle_kernel.Kernel.Dispatch.{do_ipc, ipc_phase}
use brittle_kernel.Kernel.Events.{save_registers, sv_call_handler}
use brittle_kernel.Kernel.Keys.{get_key}
use brittle_kernel.Kernel.Scheduler.{set_stack, do_deferred_switch, stack}
use brittle_kernel.Whole.{call_registers, system_call}

ignored :
    (r : Run Kernel (Unit {0}))
    → and_then (and_then r (λ _ l. ok (stack l l.current) l)) (λ _ l. ok tt l) ≡ r
ignored (ok a s) = refl
ignored (panic e) = refl
ignored out_of_fuel = refl

-- The value that `do_ipc` returns is not used.
switch-value :
    (r : Run Kernel (Unit {0}))
    → and_then
        (and_then r (λ _ s. and_then (do_deferred_switch s) (λ _ l. ok (stack l l.current) l)))
        (λ _ l. ok tt l)
      ≡ and_then r (λ _. do_deferred_switch)
switch-value (ok a s) = ignored (do_deferred_switch s)
switch-value (panic e) = refl
switch-value out_of_fuel = refl

checked-value :
    (failed : Bool) (phase : Do (Unit {0})) (k : Kernel)
    → and_then
        (and_then (panic_if failed kr0_written k) (λ _ s.
          and_then
            (phase s)
            (λ _ s'. and_then (do_deferred_switch s') (λ _ l. ok (stack l l.current) l))))
        (λ _ l. ok tt l)
      ≡ and_then (and_then (panic_if failed kr0_written k) (λ _. phase)) (λ _. do_deferred_switch)
unfolding panic_if
checked-value true phase k = refl
checked-value false phase k = switch-value (phase k)

-- A supervisor call with the registers of a message whose system-call number is 0, those of IPC, does what
-- the system call of the current context does, and then the switch.
pub sv_call_handler-system_call :
    (fuel c sp : ℕ) (m : Message) (send_map receive_map : ℕ) (k : Kernel)
    → k.current ≡ c
    → m.desc / 2 ^ 28 ≡ 0
    → sv_call_handler fuel (call_registers m send_map receive_map) sp k
      ≡ (system_call fuel c sp m send_map receive_map >> do_deferred_switch) k
unfolding sv_call_handler do_ipc system_call save_registers set_stack get_key gets modify
    call_registers put_message pure ◌>>=◌ ◌>>◌
sv_call_handler-system_call fuel c sp m send_map receive_map k current number =
    rw (current, number) (checked-value _ (ipc_phase fuel c m.desc) _)
