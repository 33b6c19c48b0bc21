-- ===== src/Samples/Witnesses.antt =====
-- The theorems on the whole kernel, at the sample application.
use brittle_kernel.Kernel.Settled.Creation.{Sound}
use brittle_kernel.Kernel.Settled.Reachable.{reachable-Sound, reachable-perform}
use brittle_kernel.Kernel.Safety.Depth.{deliver_from-reply_depth}
use brittle_kernel.Prelude.{ℕ, ◌≡◌, refl, arith, ◌==◌, if◌then◌else◌, ◌≢◌}
use brittle_kernel.Run.{ok, ◌>>=◌, ◌>>◌, out_of_fuel}
use brittle_kernel.Abi.Descriptor.{call}
use brittle_kernel.Links
use brittle_kernel.Links.{Links}
use brittle_kernel.Kernel.{Kernel, gets, modify, on_lists, emit, dispatch, owner}
use brittle_kernel.Kernel.Boot.{reset, start_app}
use brittle_kernel.Kernel.Dispatch.{do_ipc, ipc_phase, deliver_from, reply_depth}
use brittle_kernel.Kernel.Events.{Event, sv_call, perform, here, step}
use brittle_kernel.Kernel.Keys.{resolve, null_key, get_key}
use brittle_kernel.Kernel.Delivery.{task}
use brittle_kernel.Kernel.Objects.{invalidate}
use brittle_kernel.Kernel.Objects.Revocation.{invalidate-revokes}
use brittle_kernel.Kernel.Safety.{Safe}
use brittle_kernel.Kernel.Safety.Events.{reachable-null_key, perform-Safe, do_ipc-unchecked}
use brittle_kernel.Kernel.Scheduler.{load_region, set_stack, stack, do_deferred_switch}
use brittle_kernel.Samples.Machine.{armv7m, library, app, booted, state_or, memory_key}

app_boots : start_app library app (reset armv7m) ≡ ok tt booted
unfolding start_app reset booted ◌>>◌ modify gets on_lists emit load_region Links.peek
app_boots = refl

-- The application calls the object table: what kind has object 2?
abbrev registers : ℕ → ℕ
registers i = if i == 0 then call 3 1 else if i == 1 then 2 else 0

abbrev table_call : Event
table_call = sv_call registers 0x20000f00

unfoldable after_call : Kernel
unfolding perform
after_call = state_or booted (perform 4 table_call booted)

call_returns : perform 4 table_call booted ≡ ok tt after_call
unfolding perform after_call ◌>>=◌ gets call ◌>>◌ modify booted on_lists emit load_region Links.peek
    reset dispatch
call_returns = refl

reachable-null_key_example : Safe after_call
reachable-null_key_example =
    reachable-null_key library app armv7m 4 booted after_call app_boots
      (step table_call here call_returns)

reachable-Sound_example : Sound 6 after_call
reachable-Sound_example =
    reachable-Sound library app armv7m 4 booted after_call app_boots
      (step table_call here call_returns)

-- A table of six objects: fuel above 56 is enough.
reachable-perform_example : perform 57 table_call after_call ≢ out_of_fuel
reachable-perform_example =
    reachable-perform library app armv7m 4 booted after_call app_boots
      (step table_call here call_returns) 57 table_call (omega arith)

booted-Safe : Safe booted
booted-Safe = reachable-null_key library app armv7m 4 booted booted app_boots here

perform-Safe_example : Safe after_call
perform-Safe_example = perform-Safe 4 table_call booted after_call booted-Safe call_returns

do_ipc-unchecked_example :
    do_ipc 4 2 0x20000f00 (call 3 1) booted
    ≡ (do
      set_stack 2 0x20000f00
      _ ← get_key 2 0
      ipc_phase 4 2 (call 3 1)
      do_deferred_switch
      gets (λ k. stack k k.current))
        booted
do_ipc-unchecked_example = do_ipc-unchecked 4 2 0x20000f00 (call 3 1) booted booted-Safe

-- The context asks the object table once more, with the registers that it was left with.
deliver_from-reply_depth_example :
    deliver_from 5 4 1 0 (task 2 1) after_call
    ≡ deliver_from reply_depth 4 1 0 (task 2 1) after_call
deliver_from-reply_depth_example =
    deliver_from-reply_depth 3 4 1 0 (task 2 1) after_call
      (perform-Safe 4 table_call booted after_call booted-Safe call_returns)

unfoldable after_invalidate : Kernel
unfolding invalidate
after_invalidate = state_or booted (invalidate 3 booted)

invalidate_returns : invalidate 3 booted ≡ ok tt after_invalidate
unfolding invalidate after_invalidate ◌>>◌ dispatch booted modify gets on_lists emit load_region
    Links.peek reset owner
invalidate_returns = refl

generation_of_memory : 0 ≡ (booted.objects 3).generation
unfolding booted start_app reset ◌>>◌ modify gets on_lists emit load_region Links.peek owner
generation_of_memory = refl

invalidate-revokes_example : resolve after_invalidate memory_key ≡ null_key after_invalidate
invalidate-revokes_example =
    invalidate-revokes 3 booted after_invalidate memory_key (omega (arith, generation_of_memory))
      refl generation_of_memory invalidate_returns
