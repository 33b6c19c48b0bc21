-- ===== src/Kernel/Fuel/Events.antt =====
-- The entries of the kernel on enough fuel: Context::do_ipc, Interrupt::trigger and irq_redirector.
use brittle_kernel.Kernel.Scheduler.{do_deferred_switch_from_irq, switch_after_interrupt}
use brittle_kernel.Kernel.Safety.Objects.{Keeps-disable_interrupt, Keeps-get_irq_entry}
use brittle_kernel.Kernel.Objects.{get_irq_entry}
use brittle_kernel.Kernel.Keys.{get_key}
use brittle_kernel.Prelude.{ℕ, ◌<◌, ◌≢◌, arith, ◌/◌, ◌^◌, ◌==◌}
use brittle_kernel.Abi.Descriptor.{Descriptor, get_send_enabled, get_receive_enabled}
use brittle_kernel.Run.{out_of_fuel, pure}
use brittle_kernel.Run.Ends.{
  Ends, Finishes-fuel, Finishes-map, Ends-bind_from, Ends-then_from, Ends-then, Ends-if, Ends-pure,
  Ends-panic_if, Finishes-both, Ends-panic_unless, Ends-require,
}
use brittle_kernel.Run.Keeps.{Keeps}
use brittle_kernel.Links.Waiting.{Waiting}
use brittle_kernel.Links.Woven.{Woven, blocked}
use brittle_kernel.Kernel.{Kernel, Do, gets, emit}
use brittle_kernel.Kernel.Delivery.{Sender, deliver_to}
use brittle_kernel.Kernel.Dispatch.{
  deliver_from, reply_depth, ipc_phase, do_ipc, trigger, irq_redirector, do_key_op,
}
use brittle_kernel.Kernel.Events.{
  Event, unprivileged, sv_call, interrupt_entry, pend_sv, perform, sv_call_handler, pend_sv_handler,
  save_registers,
}
use brittle_kernel.Kernel.Fuel.{
  On, ends, Ends-get_key, Ends-gets, Ends-set_stack, Ends-put_body, Ends-disable_interrupt,
  Ends-put_interrupt,
}
use brittle_kernel.Kernel.Fuel.Ipc.{Finishes-any, delivered, deliver_from-Returns}
use brittle_kernel.Kernel.Fuel.Total.{
  Any, Total, Total-do_deferred_switch, totals, Total-switch_now, Total-store,
}
use brittle_kernel.Kernel.Safety.{Safe, Keeps-gets, Keeps-put_interrupt, Keeps-put_body}
use brittle_kernel.Kernel.Safety.Scheduler.{Keeps-set_stack, Keeps-get_key}

module _ (n m fuel : ℕ) (lt : m < fuel) where
  abbrev Ready : Kernel → Type 0
  Ready k = Safe k × On (Waiting n m) k

  Ends-Ready :
      {A : Type 0} (c : Do A)
      → Ends (On (Waiting n m)) (On (Waiting n m)) c
      → Keeps Safe c
      → Ends Ready Ready c
  Ends-Ready c e s = record {
    at = λ k h.
        Finishes-map _ _ (c k)
          (Finishes-both (λ _. On (Waiting n m)) (λ _. Safe) (c k) (e.at k h.1) (s.at k h.0))
          (λ a t p. (p.1, p.0));
  }

  Ends-deliver_from :
      (this brand : ℕ) (s : Sender)
      → Ends Ready (On Any) (deliver_from reply_depth fuel this brand s)
  unfolding On Any
  Ends-deliver_from this brand s = record {
    at = λ k h. deliver_from-Returns n m fuel lt 0 this brand s k h.0 h.1;
  }

  Ends-deliver_to-Any : (o brand c : ℕ) → Ends Ready (On Any) (deliver_to fuel o brand c)
  unfolding On Any
  Ends-deliver_to-Any o brand c = record {
    at = λ k h. Finishes-any _ _ ((delivered n m fuel lt o brand c).at k h.1);
  }

  Ends-pure-Any : Ends Ready (On Any) (pure tt)
  unfolding On Any pure
  Ends-pure-Any = record { at = λ k h. tt }

  Ends-Ready-get_key : (c i : ℕ) → Ends Ready Ready (get_key c i)
  Ends-Ready-get_key c i = Ends-Ready _ (Ends-get_key _ c i) (Keeps-get_key c i)

  Ends-Ready-gets : {A : Type 0} (f : Kernel → A) → Ends Ready Ready (gets f)
  Ends-Ready-gets f = Ends-Ready _ (Ends-gets _ f) (Keeps-gets f)

  Ends-ipc_phase : (this : ℕ) (d : Descriptor) → Ends Ready (On Any) (ipc_phase fuel this d)
  unfolding ipc_phase
  Ends-ipc_phase this d =
      Ends-if _ _ (get_send_enabled d) _ _
        (Ends-bind_from Ready Ready _ _ _ (Ends-Ready-get_key this _)
          λ key. Ends-deliver_from _ _ _)
        (Ends-if _ _ (get_receive_enabled d) _ _
          (Ends-bind_from Ready Ready _ _ _ (Ends-Ready-get_key this _)
            λ key. Ends-deliver_to-Any _ _ this)
          Ends-pure-Any)

  Ends-do_ipc : (this sp : ℕ) (d : Descriptor) → Ends Ready (On Any) (do_ipc fuel this sp d)
  unfolding do_ipc
  Ends-do_ipc this sp d =
      Ends-then_from Ready Ready _ _ _
        (Ends-Ready _ (Ends-set_stack _ this sp) (Keeps-set_stack this sp))
        (Ends-bind_from Ready Ready _ _ _ (Ends-Ready-get_key this 0) λ key0.
          Ends-bind_from Ready Ready _ _ _ (Ends-Ready-gets _) λ kind0.
            Ends-then_from Ready Ready _ _ _ (Ends-panic_if Ready _ _) (
              Ends-then_from (On Any) Ready _ _ _ (Ends-ipc_phase this d)
                (Ends-then (On Any) _ _ Total-do_deferred_switch (Ends-gets Any _))))

  Ends-trigger : (i : ℕ) → Ends Ready (On Any) (trigger fuel i)
  unfolding trigger
  Ends-trigger i =
      Ends-then_from Ready Ready _ _ _
        (Ends-Ready _ (Ends-disable_interrupt (Waiting n m) i) (Keeps-disable_interrupt i))
        (Ends-bind_from Ready Ready _ _ _ (Ends-Ready-gets _) λ linked.
          Ends-if _ _ linked _ _ Ends-pure-Any (
            Ends-bind_from Ready Ready _ _ _ (Ends-Ready-gets _) λ target.
              Ends-then_from Ready Ready _ _ _
                (Ends-Ready _ (Ends-put_interrupt (Waiting n m) i _) (Keeps-put_interrupt i _))
                (Ends-deliver_from _ _ _)))

  Total-switch_from_irq : Total do_deferred_switch_from_irq
  unfolding do_deferred_switch_from_irq On Any emit
  Total-switch_from_irq = record { at = λ k h. ground (arith, h) }

  Ends-irq_redirector : (ipsr : ℕ) → Ends Ready (On Any) (irq_redirector fuel ipsr)
  unfolding irq_redirector get_irq_entry
  Ends-irq_redirector ipsr = Ends-then_from Ready Ready _ _ _ (Ends-panic_unless Ready _ _) (
      Ends-bind_from Ready Ready _ _ _ (Ends-Ready _ (search ends depth 9) (Keeps-get_irq_entry _))
        λ handler.
          Ends-bind_from Ready Ready _ _ _ (Ends-require Ready _ handler)
            λ i. Ends-then_from (On Any) Ready _ _ _ (Ends-trigger i) Total-switch_from_irq)

  Total-do_key_op : (this sysnum : ℕ) (d : Descriptor) → Total (do_key_op this sysnum d)
  unfolding do_key_op
  Total-do_key_op this sysnum d = search (ends, totals) depth 9

  Ends-Total : {A : Type 0} (c : Do A) → Total c → Ends Ready (On Any) c
  unfolding On Any
  Ends-Total c t = record { at = λ k h. t.at k tt }

  Ends-sv_call_handler :
      (registers : ℕ → ℕ) (sp : ℕ) → Ends Ready (On Any) (sv_call_handler fuel registers sp)
  unfolding sv_call_handler save_registers
  Ends-sv_call_handler registers sp = Ends-bind_from Ready Ready _ _ _ (Ends-Ready-gets _) λ c.
      Ends-if _ _ (registers 0 / 2 ^ 28 == 0) _ _
        (Ends-then_from Ready Ready _ _ _
          (Ends-Ready _ (Ends-put_body (Waiting n m) c _) (Keeps-put_body c _ (λ b z. z)))
          (Ends-bind_from (On Any) Ready _ _ _ (Ends-do_ipc c sp (registers 0))
            λ _. Ends-pure (On Any) tt))
        (Ends-Total _ (Total-do_key_op c (registers 0 / 2 ^ 28) (registers 0)))

  Total-pend_sv_handler : (registers : ℕ → ℕ) (sp : ℕ) → Total (pend_sv_handler registers sp)
  unfolding pend_sv_handler save_registers switch_after_interrupt
  Total-pend_sv_handler registers sp = search (ends, totals, Total-switch_now) depth 12

  Ends-perform : (e : Event) → Ends Ready (On Any) (perform fuel e)
  unfolding perform
  Ends-perform (unprivileged address word) = Ends-Total _ (Total-store address word)
  Ends-perform (sv_call registers sp) = Ends-sv_call_handler registers sp
  Ends-perform (interrupt_entry ipsr) = Ends-irq_redirector ipsr
  Ends-perform (pend_sv registers sp) = Ends-Total _ (Total-pend_sv_handler registers sp)

-- Every entry to the kernel returns or panics, in a state where object 0 is null and no key register 0
-- holds another key, where the lists' links are undone by one another, and where fewer senders wait
-- than there is fuel for `deliver_to`.
pub perform-fuel :
    (n fuel : ℕ) (e : Event) (k : Kernel)
    → Safe k
    → Woven n k.links
    → blocked n k.links < fuel
    → perform fuel e k ≢ out_of_fuel
unfolding On
perform-fuel n fuel e k h w lt =
    Finishes-fuel _ _ ((Ends-perform n (blocked n k.links) fuel lt e).at k (h, (w, omega arith)))
