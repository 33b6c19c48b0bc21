-- ===== src/Kernel/Safety/Delivery.antt =====
-- The invariant of Kernel/Safety through the delivery protocol, Kernel/Delivery.
use brittle_kernel.Prelude.{ℕ, zero, suc}
use brittle_kernel.Run.Keeps.{
  Keeps, Ensures, Keeps-bind, Keeps-then, Keeps-pure, Keeps-if, Keeps-ref, Keeps-panic_unless,
  Keeps-maybe, Keeps-exhausted,
}
use brittle_kernel.Abi.Exceptions.{Exception, bad_operation}
use brittle_kernel.Kernel.{Key, Object, gate, context, interrupt}
use brittle_kernel.Kernel.Delivery.{
  DeliverTo, Sender, task, irq, reply, complete_receive_exception, block_in_receive, block_in_reply,
  make_reply_key, receive_phase, context_on_delivery, interrupt_on_delivery, reply_on_delivery,
  on_delivery, brand_now, context_on_blocked_delivery, interrupt_on_blocked_delivery,
  on_blocked_delivery, blocked_delivery_of, deliver_to_object, complete_receive,
  complete_blocked_receive, complete_blocked_receive_exception, gate_deliver_to, context_deliver_to,
  deliver_to, agree_to_block, context_block_in_send, interrupt_block_in_send, block_in_send,
  on_blocked_delivery_aborted, put_save,
}
use brittle_kernel.Kernel.Keys.{Bank, KeysRef}
use brittle_kernel.Kernel.Safety.{
  Safe, Keeps-gets, Keeps-on_lists, Keeps-put_body, Keeps-modify, Keeps-put_interrupt,
  Keeps-dispatch,
}
use brittle_kernel.Kernel.Safety.Scheduler.{
  Keeps-get_key, Keeps-set_key, Keeps-read_key, Keeps-copy_keys, Keeps-pend_switch, Keeps-set_state,
  Keeps-make_runnable, Keeps-unlink_item,
}

pub ruleset keeps = (
  Keeps-bind, Keeps-then, Keeps-pure, Keeps-if, Keeps-ref, Keeps-panic_unless, Keeps-gets,
  Keeps-on_lists, Keeps-get_key, Keeps-set_key, Keeps-read_key, Keeps-copy_keys, Keeps-pend_switch,
  Keeps-set_state, Keeps-make_runnable, Keeps-unlink_item,
)

pub Keeps-put_save : (c : ℕ) (f : (ℕ → ℕ) → ℕ → ℕ) → Keeps Safe (put_save c f)
Keeps-put_save c f = Keeps-put_body c _ (λ b z. z)

pub Keeps-complete_receive_exception :
    (c : ℕ) (e : Exception) (p : ℕ) → Keeps Safe (complete_receive_exception c e p)
unfolding complete_receive_exception
Keeps-complete_receive_exception c e p = Keeps-put_save c _

pub Keeps-block_in_receive : (c l : ℕ) → Keeps Safe (block_in_receive c l)
unfolding block_in_receive
Keeps-block_in_receive c l = search keeps depth 9

pub Keeps-block_in_reply : (c : ℕ) → Keeps Safe (block_in_reply c)
unfolding block_in_reply
Keeps-block_in_reply c = search keeps depth 9

Keeps-make_reply_key : (c : ℕ) → Keeps Safe (make_reply_key c)
unfolding make_reply_key
Keeps-make_reply_key c = search keeps depth 9

-- The rules for code that takes the call of `deliver_to` as an argument.
pub Keeps-brand_now : (s : Sender) (brand : ℕ) → Keeps Safe (brand_now s brand)
unfolding brand_now
Keeps-brand_now (task c t) brand = Keeps-gets _
Keeps-brand_now _ brand = Keeps-pure Safe brand

module _ (call : DeliverTo) (kept : (o brand c : ℕ) → Keeps Safe (call o brand c)) where
  Keeps-receive_phase : (c d : ℕ) (k0 : Key) → Keeps Safe (receive_phase call c d k0)
  unfolding receive_phase
  Keeps-receive_phase c d k0 = search (keeps, kept) depth 9

  pub Keeps-context_on_delivery :
      (c : ℕ) (dest : KeysRef) (b : Bank) → Keeps Safe (context_on_delivery call c dest b)
  unfolding context_on_delivery
  Keeps-context_on_delivery c dest b =
      search (keeps, Keeps-receive_phase, Keeps-make_reply_key) depth 20

  pub Keeps-interrupt_on_delivery :
      (i : ℕ) (dest : KeysRef) (b : Bank) → Keeps Safe (interrupt_on_delivery call i dest b)
  unfolding interrupt_on_delivery
  Keeps-interrupt_on_delivery i dest b = search keeps depth 20

  pub Keeps-on_delivery :
      (s : Sender) (dest : KeysRef) (b : Bank) → Keeps Safe (on_delivery call s dest b)
  unfolding on_delivery reply_on_delivery
  Keeps-on_delivery (task c t) dest b = Keeps-context_on_delivery c dest b
  Keeps-on_delivery (irq i) dest b = Keeps-interrupt_on_delivery i dest b
  Keeps-on_delivery (reply r) dest b = search keeps depth 9

  Keeps-blocked_delivery_of :
      (o : Object) (s : ℕ) (dest : KeysRef) → Keeps Safe (blocked_delivery_of call o s dest)
  unfolding blocked_delivery_of context_on_blocked_delivery interrupt_on_blocked_delivery
  Keeps-blocked_delivery_of (interrupt b) s dest =
      search (keeps, Keeps-interrupt_on_delivery) depth 9
  Keeps-blocked_delivery_of _ s dest = search (keeps, Keeps-context_on_delivery) depth 9

  Keeps-complete_receive : (c partner : ℕ) → Keeps Safe (complete_receive call c partner)
  unfolding complete_receive on_blocked_delivery
  Keeps-complete_receive c partner =
      search (keeps, Keeps-dispatch, Keeps-blocked_delivery_of, Keeps-put_save) depth 9

  pub Keeps-complete_blocked_receive :
      (c brand : ℕ) (s : Sender) → Keeps Safe (complete_blocked_receive call c brand s)
  unfolding complete_blocked_receive
  Keeps-complete_blocked_receive c brand s =
      search (keeps, Keeps-on_delivery, Keeps-brand_now, Keeps-put_save) depth 9

  Keeps-deliver_to_object :
      (object : Object) (o brand c : ℕ) → Keeps Safe (deliver_to_object call object o brand c)
  unfolding deliver_to_object gate_deliver_to context_deliver_to
  Keeps-deliver_to_object gate o brand c =
      search
        (
          keeps, Keeps-maybe, Keeps-complete_receive, Keeps-block_in_receive,
          Keeps-complete_receive_exception,
        )
        depth 9
  Keeps-deliver_to_object (context b) o brand c =
      search (keeps, Keeps-complete_receive_exception, Keeps-block_in_reply) depth 9
  Keeps-deliver_to_object _ o brand c = Keeps-complete_receive_exception c bad_operation 0

pub Keeps-deliver_to : (fuel o brand c : ℕ) → Keeps Safe (deliver_to fuel o brand c)
unfolding deliver_to
Keeps-deliver_to zero o brand c = Keeps-exhausted Safe
Keeps-deliver_to (suc fuel) o brand c =
    Keeps-dispatch o _
      λ object. Keeps-deliver_to_object (deliver_to fuel) (Keeps-deliver_to fuel) object o brand c

pub Keeps-block_in_send : (s : Sender) (brand l : ℕ) → Keeps Safe (block_in_send s brand l)
unfolding block_in_send context_block_in_send interrupt_block_in_send agree_to_block
Keeps-block_in_send (task c t) brand l = search (keeps, Keeps-put_body, Keeps-put_save) depth 20
Keeps-block_in_send (irq i) brand l = search (keeps, Keeps-put_interrupt) depth 9
Keeps-block_in_send (reply r) brand l = Keeps-pure Safe tt

pub Keeps-on_blocked_delivery_aborted : (c : ℕ) → Keeps Safe (on_blocked_delivery_aborted c)
unfolding on_blocked_delivery_aborted
Keeps-on_blocked_delivery_aborted c = search (keeps, Keeps-put_save) depth 9

pub Keeps-complete_blocked_receive_exception :
    (c : ℕ) (e : Exception) (p : ℕ) → Keeps Safe (complete_blocked_receive_exception c e p)
unfolding complete_blocked_receive_exception
Keeps-complete_blocked_receive_exception c e p =
    search (keeps, Keeps-complete_receive_exception) depth 9
