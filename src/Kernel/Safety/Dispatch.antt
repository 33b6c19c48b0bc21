-- ===== src/Kernel/Safety/Dispatch.antt =====
-- The invariant of Kernel/Safety through message delivery and the kernel's entry points.
use brittle_kernel.Kernel.Hardware.{scb_set_pend_sv}
use brittle_kernel.Kernel.Scheduler.{do_deferred_switch_from_irq}
use brittle_kernel.Kernel.Protocol.Context.{context_handler}
use brittle_kernel.Abi.Selectors.{sysnum_copy_key}
use brittle_kernel.Prelude.{ℕ, zero, suc, ◌≡◌, refl, false, arith, ◌==◌, Bool-cases, inl, inr}
use brittle_kernel.Run.Keeps.{
  Keeps, Keeps-bind, Keeps-pure, Keeps-if, Keeps-maybe, Keeps-require, Keeps-exhausted,
  Keeps-panic_unless, Keeps-if_case, Keeps-panic_if,
}
use brittle_kernel.Abi.Descriptor.{Descriptor, get_target}
use brittle_kernel.Kernel.{Key, Object, null, object_table, memory, context, gate, interrupt}
use brittle_kernel.Kernel.Delivery.{Sender, ReplySender, deliver_to, has_top_bit}
use brittle_kernel.Kernel.Dispatch.{
  gate_handler, interrupt_handler, handler, DeliverFrom, send_reply, converse, pass_through,
  accept_reply, deliver_from_object, deliver_from, ipc_phase, do_ipc, do_key_op, trigger,
  irq_redirector,
}
use brittle_kernel.Kernel.Protocol.{Handler}
use brittle_kernel.Kernel.Safety.{
  Safe, Safe-put_key, Keeps-modify, Keeps-put_interrupt, Keeps-dispatch_null, Keeps-on_lists,
}
use brittle_kernel.Kernel.Safety.Delivery.{
  keeps, Keeps-brand_now, Keeps-deliver_to, Keeps-on_delivery, Keeps-complete_blocked_receive,
  Keeps-block_in_send,
}
use brittle_kernel.Kernel.Safety.MemoryProtocol.{Handles-memory}
use brittle_kernel.Kernel.Safety.Objects.{
  Keeps-advance_reply_brand, Keeps-clear_pending, Keeps-enable_interrupt, Keeps-disable_interrupt,
  Keeps-get_irq_entry,
}
use brittle_kernel.Kernel.Safety.Protocols.{
  Handles, Handles-context, Handles-object_table, Keeps-with_new_key,
}
use brittle_kernel.Kernel.Safety.Scheduler.{
  Keeps-set_stack, Keeps-do_deferred_switch, Keeps-get_key, Keeps-emit,
}

module _ (this : ℕ) where
  Handles-gate : Handles this gate_handler
  unfolding gate_handler
  Handles-gate brand m keys = search (keeps, Keeps-with_new_key) depth 9

  Handles-interrupt : Handles this interrupt_handler
  unfolding interrupt_handler
  Handles-interrupt brand m keys =
      search (keeps, Keeps-put_interrupt, Keeps-clear_pending, Keeps-enable_interrupt) depth 12

  pub Handles-handler : (o : Object) → (this ≡ 0 → o ≡ null) → Handles this (handler o)
  unfolding handler
  Handles-handler object_table z brand m keys = Handles-object_table this brand m keys
  Handles-handler (memory h) z brand m keys = Handles-memory this (λ e. cc (z e)) brand m keys
  Handles-handler (context b) z brand m keys = Handles-context this brand m keys
  Handles-handler gate z brand m keys = Handles-gate brand m keys
  Handles-handler (interrupt b) z brand m keys = Handles-interrupt brand m keys
  Handles-handler _ z brand m keys = Keeps-pure Safe _

module _ (call : DeliverFrom)
    (delivers : (this brand : ℕ) (s : Sender) → Keeps Safe (call this brand s)) where
  Keeps-send_reply : (key : Key) (r : ReplySender) → Keeps Safe (send_reply call key r)
  unfolding send_reply
  Keeps-send_reply key r = search (keeps, delivers) depth 9

  Keeps-converse :
      (fuel this : ℕ) (handle : Handler) (brand : ℕ) (s : Sender)
      → Handles this handle
      → Keeps Safe (converse call fuel handle this brand s)
  unfolding converse
  Keeps-converse fuel this handle brand s handles =
      Keeps-bind Safe _ _ (Keeps-on_delivery (deliver_to fuel) (Keeps-deliver_to fuel) s _ _)
        λ (m, keys).
          Keeps-bind Safe _ _ (Keeps-brand_now s brand)
            λ now. Keeps-bind Safe _ _ (handles now m keys) λ r. Keeps-send_reply (keys 0) r

  Keeps-pass_through : (fuel g brand : ℕ) (s : Sender) → Keeps Safe (pass_through fuel g brand s)
  unfolding pass_through
  Keeps-pass_through fuel g brand s =
      search
        (keeps, Keeps-maybe, Keeps-block_in_send, Keeps-complete_blocked_receive, Keeps-deliver_to)
        depth 9

  Keeps-accept_reply :
      (fuel this brand : ℕ) (s : Sender) → Keeps Safe (accept_reply fuel this brand s)
  unfolding accept_reply
  Keeps-accept_reply fuel this brand s =
      search (keeps, Keeps-advance_reply_brand, Keeps-complete_blocked_receive, Keeps-deliver_to)
        depth 9

  Keeps-deliver_from_object :
      (fuel : ℕ) (o : Object) (this brand : ℕ) (s : Sender)
      → (this ≡ 0 → o ≡ null)
      → Keeps Safe (deliver_from_object call fuel o this brand s)
  unfolding deliver_from_object
  Keeps-deliver_from_object fuel gate this brand s z =
      Keeps-if Safe (has_top_bit brand) _ _ (Keeps-pass_through fuel this brand s)
        (Keeps-converse fuel this gate_handler brand s (Handles-gate this))
  Keeps-deliver_from_object fuel (context b) this brand s z =
      Keeps-if Safe (has_top_bit brand) _ _
        (Keeps-if Safe (brand == b.expected_reply_brand) _ _ (Keeps-accept_reply fuel this brand s)
          (Keeps-converse fuel this (handler null) brand s (Handles-handler this null (λ _. refl))))
        (Keeps-converse fuel this context_handler brand s (Handles-context this))
  Keeps-deliver_from_object fuel o this brand s z =
      Keeps-converse fuel this (handler o) brand s (Handles-handler this o z)

pub Keeps-deliver_from :
    (depth fuel this brand : ℕ) (s : Sender) → Keeps Safe (deliver_from depth fuel this brand s)
unfolding deliver_from
Keeps-deliver_from zero fuel this brand s = Keeps-exhausted Safe
Keeps-deliver_from (suc depth) fuel this brand s = Keeps-dispatch_null this _ (λ o z.
    Keeps-deliver_from_object (deliver_from depth fuel) (Keeps-deliver_from depth fuel) fuel o this
      brand s z)

pub Keeps-ipc_phase : (fuel this : ℕ) (d : Descriptor) → Keeps Safe (ipc_phase fuel this d)
unfolding ipc_phase
Keeps-ipc_phase fuel this d =
    search (keeps, Keeps-deliver_from, Keeps-deliver_to, Keeps-get_key) depth 9

pub Keeps-do_key_op : (this sysnum : ℕ) (d : Descriptor) → Keeps Safe (do_key_op this sysnum d)
unfolding do_key_op
Keeps-do_key_op this sysnum d =
    Keeps-if Safe (sysnum == sysnum_copy_key) _ _
      (Keeps-if_case Safe (get_target d == 0) _ _ (λ _. Keeps-pure Safe tt)
        (λ ne. Keeps-modify _ λ k h. Safe-put_key k this (get_target d) _ (λ e. ground arith) h))
      (Keeps-pure Safe tt)

pub Keeps-trigger : (fuel i : ℕ) → Keeps Safe (trigger fuel i)
unfolding trigger
Keeps-trigger fuel i =
    search (keeps, Keeps-disable_interrupt, Keeps-on_lists, Keeps-put_interrupt, Keeps-deliver_from)
      depth 12

Keeps-switch_from_irq : Keeps Safe do_deferred_switch_from_irq
unfolding do_deferred_switch_from_irq
Keeps-switch_from_irq = record {
  at = λ k h. elim (Bool-cases k.switch_pending) [
    | inl e ↦ simp e ((Keeps-emit scb_set_pend_sv).at (record k { switch_pending = false }) h)
    | inr e ↦ simp e h
  ];
}

pub Keeps-irq_redirector : (fuel ipsr : ℕ) → Keeps Safe (irq_redirector fuel ipsr)
unfolding irq_redirector
Keeps-irq_redirector fuel ipsr =
    search
      (
        keeps, Keeps-panic_unless, Keeps-require, Keeps-get_irq_entry, Keeps-trigger,
        Keeps-switch_from_irq,
      )
      depth 12

pub Keeps-do_ipc : (fuel this sp : ℕ) (d : Descriptor) → Keeps Safe (do_ipc fuel this sp d)
unfolding do_ipc
Keeps-do_ipc fuel this sp d =
    search
      (
        keeps, Keeps-panic_if, Keeps-set_stack, Keeps-get_key, Keeps-ipc_phase,
        Keeps-do_deferred_switch,
      )
      depth 12
