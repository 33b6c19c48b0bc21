-- ===== src/Samples/FuelWitnesses.antt =====
-- The theorem on fuel, at a kernel where a task waits to send to a gate and another receives from it.
use brittle_kernel.Prelude.{ℕ, ◌≡◌, ◌≢◌, refl, true, none, some, arith, ◌==◌, if◌then◌else◌, update}
use brittle_kernel.Run.{out_of_fuel}
use brittle_kernel.Abi.Descriptor.{zero_descriptor, with_receive_enabled, with_source}
use brittle_kernel.Links.{Links}
use brittle_kernel.Links.Woven.{Woven, blocked, is_sender}
use brittle_kernel.Kernel.{
  Kernel, empty_key, Object, null, context, gate, ContextBody, blank_context, sending, runnable,
}
use brittle_kernel.Kernel.Boot.{reset}
use brittle_kernel.Kernel.Events.{Event, sv_call, perform}
use brittle_kernel.Kernel.Fuel.Events.{perform-fuel}
use brittle_kernel.Kernel.Safety.{Safe}
use brittle_kernel.Samples.Machine.{armv7m}

-- Object 4 is a gate; context 5 waits in its list of senders; context 2 has a key to it in register 1.
abbrev receiver : ContextBody
receiver = record blank_context {
  state = runnable;
  keys = λ i. if i == 1 then record { brand = 0; generation = 0; ptr = some 4 } else empty_key;
}

abbrev object_of : ℕ → Object
object_of i =
    if i == 2
    then context receiver
    else if i == 4
    then gate
    else if i == 5
    then context (record blank_context { state = sending })
    else null

abbrev waiting_links : Links
waiting_links = record {
  next = update (update (λ a. a) 42 49) 49 42;
  prev = update (update (λ a. a) 42 49) 49 42;
  container = update (λ a. none) 49 (some 42);
}

abbrev waiting : Kernel
waiting = record (reset armv7m) {
  objects = λ i. record { generation = 0; object = object_of i };
  links = waiting_links;
  current = 2;
}

abbrev receive : Event
receive =
    sv_call (λ i. if i == 0 then with_source 1 (with_receive_enabled true zero_descriptor) else 0)
      0x20000f00

waiting-Safe : Safe waiting
waiting-Safe = record { null_object = refl; null_keys = λ c. ground arith }

waiting-Woven : Woven 60 waiting_links
unfolding is_sender
waiting-Woven = record {
  next-prev = λ a. ground arith;
  prev-next = λ a. ground arith;
  apart = λ a. ground arith;
  bound = λ a e le. ground (arith, e, le);
}

blocked-waiting : 2 ≡ blocked 60 waiting_links
unfolding blocked
blocked-waiting = refl

perform-fuel_example : perform 4 receive waiting ≢ out_of_fuel
perform-fuel_example =
    perform-fuel 60 4 receive waiting waiting-Safe waiting-Woven (omega (arith, blocked-waiting))
