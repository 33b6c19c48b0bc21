-- ===== src/Kernel/Safety/Events.antt =====
-- The invariant of Kernel/Safety in every state that the kernel reaches from boot.
use brittle_kernel.Kernel.Safety.Objects.{Keeps-unshared, Keeps-put_word}
use brittle_kernel.Prelude.{ℕ, ◌≡◌, update}
use brittle_kernel.Run.{Run, ok, panic_if, ◌>>=◌, ◌>>◌}
use brittle_kernel.Run.Keeps.{Keeps, Ensures, Keeps-then}
use brittle_kernel.Abi.Descriptor.{Descriptor}
use brittle_kernel.Kernel.{
  Kernel, gets, modify, kind, object_at, Key, body, put_body, stack_register,
}
use brittle_kernel.Kernel.Boot.{AppInfo, BootLibrary, reset, start_app}
use brittle_kernel.Kernel.Dispatch.{do_ipc, ipc_phase}
use brittle_kernel.Kernel.Keys.{get_key, pointee, resolve, put_key}
use brittle_kernel.Kernel.Events.{
  Event, unprivileged, sv_call, interrupt_entry, pend_sv, save_registers, sv_call_handler,
  pend_sv_handler, perform, Reaches, here, step,
}
use brittle_kernel.Kernel.Hardware.{Platform}
use brittle_kernel.Kernel.Scheduler.{switch_after_interrupt, set_stack, stack, do_deferred_switch}
use brittle_kernel.Kernel.Safety.{
  Safe, Keeps-put_body, resolve-null, Safe-put_null_key, Safe-put_body,
}
use brittle_kernel.Kernel.Safety.Boot.{Safe-reset, Keeps-start_app}
use brittle_kernel.Kernel.Safety.Delivery.{keeps}
use brittle_kernel.Kernel.Safety.Dispatch.{Keeps-do_ipc, Keeps-do_key_op, Keeps-irq_redirector}
use brittle_kernel.Kernel.Safety.Scheduler.{Keeps-set_stack, Keeps-switch_now}

Keeps-save_registers : (registers : ℕ → ℕ) (c : ℕ) → Keeps Safe (save_registers registers c)
unfolding save_registers
Keeps-save_registers registers c = Keeps-put_body c _ (λ b z. z)

Keeps-sv_call_handler :
    (fuel : ℕ) (registers : ℕ → ℕ) (sp : ℕ) → Keeps Safe (sv_call_handler fuel registers sp)
unfolding sv_call_handler
Keeps-sv_call_handler fuel registers sp =
    search (keeps, Keeps-save_registers, Keeps-do_ipc, Keeps-do_key_op) depth 12

Keeps-pend_sv_handler : (registers : ℕ → ℕ) (sp : ℕ) → Keeps Safe (pend_sv_handler registers sp)
unfolding pend_sv_handler switch_after_interrupt
Keeps-pend_sv_handler registers sp =
    search (keeps, Keeps-save_registers, Keeps-set_stack, Keeps-switch_now) depth 14

Keeps-perform : (fuel : ℕ) (e : Event) → Keeps Safe (perform fuel e)
unfolding perform
Keeps-perform fuel (unprivileged address word) =
    Keeps-then Safe _ _ (Keeps-unshared address 4) (Keeps-put_word address word)
Keeps-perform fuel (sv_call registers sp) = Keeps-sv_call_handler fuel registers sp
Keeps-perform fuel (interrupt_entry ipsr) = Keeps-irq_redirector fuel ipsr
Keeps-perform fuel (pend_sv registers sp) = Keeps-pend_sv_handler registers sp

returned-Safe :
    (r : Run Kernel (Unit {0})) (k : Kernel) → Ensures (λ _ t. Safe t) r → r ≡ ok tt k → Safe k
returned-Safe r k h e = rw e at h

-- Every entry of the kernel that returns keeps the invariant: object 0 of the table is the null
-- object, and key register 0 of every context designates it. An entry that uses the kernel's own
-- memory, through a Memory object or by a store, does not return.
pub perform-Safe :
    (fuel : ℕ) (e : Event) (k l : Kernel) → Safe k → perform fuel e k ≡ ok tt l → Safe l
perform-Safe fuel e k l h eq = returned-Safe _ l ((Keeps-perform fuel e).at k h) eq

Reaches-Safe : (fuel : ℕ) (j k : Kernel) → Safe j → Reaches fuel j k → Safe k
Reaches-Safe fuel j k h here = h
Reaches-Safe fuel j k h (step {k = i} e r eq) =
    perform-Safe fuel e i k (Reaches-Safe fuel j i h r) eq

-- After the kernel has booted an application, in every state that a sequence of entries reaches,
-- object 0 of the table is the null object and key register 0 of every context designates it. An entry
-- that uses the kernel's own memory, through a Memory object or by a store, leads to no state.
pub reachable-null_key :
    (lib : BootLibrary) (app : AppInfo) (p : Platform) (fuel : ℕ) (j k : Kernel)
    → start_app lib app (reset p) ≡ ok tt j
    → Reaches fuel j k
    → Safe k
reachable-null_key lib app p fuel j k boot r =
    Reaches-Safe fuel j k
      (returned-Safe _ j ((Keeps-start_app lib app).at (reset p) (Safe-reset p)) boot) r

-- `key(0).get()` leaves a key to the null object.
module _ (c : ℕ) (k : Kernel) (h : Safe k) where
  kr0 : Key
  unfolding resolve
  kr0 = resolve k ((body k c).keys 0)

  kr0-null : pointee kr0 ≡ 0
  unfolding kr0
  kr0-null = resolve-null k ((body k c).keys 0) (h.null_keys c)

  kr0-kind : kind (object_at (put_key c 0 kr0 k) (pointee kr0)) ≡ 0
  kr0-kind = rw (kr0-null, (Safe-put_null_key k c 0 kr0 (λ _. kr0-null) h).null_object)

-- In a state with the invariant, the check of key register 0 in `do_ipc` never fails: without it
-- `do_ipc` does the same.
pub do_ipc-unchecked :
    (fuel this sp : ℕ) (d : Descriptor) (k : Kernel)
    → Safe k
    → do_ipc fuel this sp d k
      ≡ (do
        set_stack this sp
        _ ← get_key this 0
        ipc_phase fuel this d
        do_deferred_switch
        gets (λ k. stack k k.current))
          k
unfolding do_ipc ◌>>=◌ ◌>>◌ gets set_stack modify get_key panic_if kr0
do_ipc-unchecked fuel this sp d k h =
    let k' = put_body this (λ b. record b { save = update b.save stack_register sp }) k in
    let h' =
      Safe-put_body k this (λ b. record b { save = update b.save stack_register sp }) (λ b z. z)
        h in
    rw (kr0-kind this k' h')
