-- ===== src/Kernel/Dispatch.antt =====
-- Sending: Object::deliver_from of every kind of object, the reply of ScopedReplySender, and the
-- entry points of the kernel: Context::do_ipc, Context::do_key_op, Interrupt::trigger and
-- irq_redirector.
-- A reply is itself a message to an object, which replies in turn. The first argument bounds that
-- recursion; the second is the fuel of `deliver_to`.
pub mod Calls
pub mod Refusals
pub mod Replies
use brittle_kernel.Prelude.{ℕ, zero, suc, ◌+◌, ◌*◌, ◌%◌, ◌^◌, ◌-◌, not, ◌==◌, leb, if◌then◌else◌}
use brittle_kernel.Run.{
  pure, exhausted, require, maybe, ◌>>=◌, ◌>>◌, panic_unless, panic_if, context_not_awaiting_reply,
  kr0_written, null_irq_entry, fault_sent_to_redirector,
}
use brittle_kernel.Abi.Descriptor.{
  Descriptor, get_selector, get_send_enabled, get_receive_enabled, get_target, get_source,
}
use brittle_kernel.Abi.Selectors.{sysnum_copy_key}
use brittle_kernel.Abi.Selectors.Gate.{make_client_key}
use brittle_kernel.Abi.Selectors.Interrupt.{set_target, enable}
use brittle_kernel.Links
use brittle_kernel.Kernel.{
  Key, Object, null, object_table, memory, context, gate, interrupt, Do, gets, dispatch, modify,
  on_lists, kind, object_at, body, as_interrupt, put_interrupt, owner, sender_item, senders,
  receivers,
}
use brittle_kernel.Kernel.Keys.{empty_bank, bank, resolve, pointee, get_key, put_key}
use brittle_kernel.Kernel.Delivery.{
  ReplySender, Sender, task, irq, reply, deliver_to, on_delivery, brand_now,
  complete_blocked_receive, block_in_send, has_top_bit,
}
use brittle_kernel.Kernel.Objects.{
  set_top_bit, advance_reply_brand, disable_interrupt, enable_interrupt, clear_pending_interrupt,
  get_irq_entry,
}
use brittle_kernel.Kernel.Protocol.{Handler, empty_reply, with_new_key, do_badop}
use brittle_kernel.Kernel.Protocol.Context.{is_awaiting_reply, context_handler}
use brittle_kernel.Kernel.Protocol.Memory.{memory_handler}
use brittle_kernel.Kernel.Protocol.ObjectTable.{object_table_handler}
use brittle_kernel.Kernel.Scheduler.{
  set_stack, stack, do_deferred_switch, do_deferred_switch_from_irq,
}

-- The Gate protocol.
unfoldable pub gate_handler : Handler
unfolding set_top_bit with_new_key do_badop get_selector
gate_handler this brand m keys =
    if get_selector m.desc == make_client_key
    then with_new_key 1 this (set_top_bit (m.d0 + m.d1 * 2 ^ 32)) empty_reply
    else pure (do_badop m)

-- The Interrupt protocol: do_set_target and do_enable.
unfoldable pub interrupt_handler : Handler
unfolding clear_pending_interrupt enable_interrupt do_badop get_selector
interrupt_handler this brand m keys =
    let s = get_selector m.desc in
    if s == set_target
    then modify (put_interrupt this (λ b. record b { target = keys 1 })) >> pure empty_reply
    else if s == enable
    then (do
      (if m.d0 == 0 then pure tt else clear_pending_interrupt this)
      enable_interrupt this
      pure empty_reply)
    else pure (do_badop m)

-- The protocol that an object speaks itself; those with no protocol refuse every operation.
unfoldable pub handler : Object → Handler
unfolding context_handler memory_handler object_table_handler gate_handler interrupt_handler
    do_badop
handler object_table this brand m keys = object_table_handler this brand m keys
handler (memory _) this brand m keys = memory_handler this brand m keys
handler (context _) this brand m keys = context_handler this brand m keys
handler gate this brand m keys = gate_handler this brand m keys
handler (interrupt _) this brand m keys = interrupt_handler this brand m keys
handler _ this brand m keys = pure (do_badop m)

-- The type of Object::deliver_from: the object, the brand of the key, the sender.
abbrev pub DeliverFrom : Type 0
DeliverFrom = ℕ → ℕ → Sender → Do (Unit {0})

-- ScopedReplySender::~ScopedReplySender.
unfoldable pub send_reply : DeliverFrom → Key → ReplySender → Do (Unit {0})
unfolding resolve
send_reply deliver_from key r = do
  key' ← gets (λ k. resolve k key)
  n ← gets (λ k. kind (object_at k (pointee key')))
  if n == 0 then pure tt else deliver_from (pointee key') key'.brand (reply r)

-- The body of every local protocol: take the message, handle it, reply to key 0.
unfoldable pub converse : DeliverFrom → ℕ → Handler → DeliverFrom
unfolding send_reply on_delivery brand_now
converse deliver_from fuel handle this brand sender = do
  (m, keys) ← on_delivery (deliver_to fuel) sender bank empty_bank
  now ← brand_now sender brand
  r ← handle this now m keys
  send_reply deliver_from (keys 0) r

-- Gate::deliver_from for a transparent brand.
unfoldable pub pass_through : ℕ → DeliverFrom
unfolding Links.take owner complete_blocked_receive block_in_send
pass_through fuel g brand sender = do
  partner ← on_lists (Links.take (receivers g))
  maybe partner (block_in_send sender brand (senders g))
      (λ it. complete_blocked_receive (deliver_to fuel) (owner it) brand sender)

-- Context::deliver_from for the expected reply brand.
unfoldable pub accept_reply : ℕ → DeliverFrom
unfolding advance_reply_brand is_awaiting_reply complete_blocked_receive
accept_reply fuel this brand sender = do
  advance_reply_brand this
  awaiting ← gets (λ k. is_awaiting_reply k this)
  panic_unless awaiting context_not_awaiting_reply
  complete_blocked_receive (deliver_to fuel) this brand sender

-- `call` delivers the reply, if any.
unfoldable pub deliver_from_object : DeliverFrom → ℕ → Object → DeliverFrom
unfolding has_top_bit pass_through accept_reply converse handler
deliver_from_object call fuel gate this brand sender =
    if has_top_bit brand
    then pass_through fuel this brand sender
    else converse call fuel gate_handler this brand sender
deliver_from_object call fuel (context b) this brand sender =
    if has_top_bit brand
    then if brand == b.expected_reply_brand
      then accept_reply fuel this brand sender
      else converse call fuel (handler null) this brand sender
    else converse call fuel context_handler this brand sender
deliver_from_object call fuel o this brand sender = converse call fuel (handler o) this brand sender

-- Object::deliver_from, virtual.
unfoldable pub deliver_from : ℕ → ℕ → DeliverFrom
unfolding deliver_from_object
deliver_from zero fuel this brand sender = exhausted
deliver_from (suc depth) fuel this brand sender =
    dispatch this (λ o. deliver_from_object (deliver_from depth fuel) fuel o this brand sender)

-- The depth of `deliver_from`: the message, and the reply to it.
abbrev pub reply_depth : ℕ
reply_depth = 2

-- The first phase of IPC, that `do_ipc` performs through the context's key registers.
unfoldable pub ipc_phase : ℕ → ℕ → Descriptor → Do (Unit {0})
unfolding get_key get_send_enabled get_receive_enabled get_target get_source deliver_to deliver_from
ipc_phase fuel this d =
    if get_send_enabled d
    then (do
      key ← get_key this (get_target d)
      deliver_from reply_depth fuel (pointee key) key.brand (task this (get_target d)))
    else if get_receive_enabled d
    then (do key ← get_key this (get_source d); deliver_to fuel (pointee key) key.brand this)
    else pure tt

-- Context::do_ipc, at the context `this`.
unfoldable pub do_ipc : ℕ → ℕ → ℕ → Descriptor → Do ℕ
unfolding set_stack get_key ipc_phase do_deferred_switch stack
do_ipc fuel this sp d = do
  set_stack this sp
  key0 ← get_key this 0
  kind0 ← gets (λ k. kind (object_at k (pointee key0)))
  panic_if (not (kind0 == 0)) kr0_written
  ipc_phase fuel this d
  do_deferred_switch
  gets (λ k. stack k k.current)

-- Context::do_key_op.
unfoldable pub do_key_op : ℕ → ℕ → Descriptor → Do (Unit {0})
unfolding get_target get_source
do_key_op this sysnum d =
    if sysnum == sysnum_copy_key
    then if get_target d == 0
      then pure tt
      else modify (λ k. put_key this (get_target d) ((body k this).keys (get_source d)) k)
    else pure tt

-- Interrupt::trigger; `_body.target.deliver_from(this)` resolves the target in place.
unfoldable pub trigger : ℕ → ℕ → Do (Unit {0})
unfolding disable_interrupt Links.is_linked resolve deliver_from
trigger fuel i = do
  disable_interrupt i
  linked ← gets (λ k. Links.is_linked (sender_item i) k.links)
  if linked then pure tt else do
    target ← gets (λ k. resolve k (as_interrupt (object_at k i)).target)
    modify (put_interrupt i (λ b. record b { target = target }))
    deliver_from reply_depth fuel (pointee target) target.brand (irq i)

-- irq_redirector, for the exception number that the processor reports.
unfoldable pub irq_redirector : ℕ → ℕ → Do (Unit {0})
unfolding get_irq_entry trigger do_deferred_switch_from_irq
irq_redirector fuel ipsr = do
  let exception_number = ipsr % 2 ^ 9
  panic_unless (leb 15 exception_number) fault_sent_to_redirector
  handler ← get_irq_entry (exception_number - 15)
  i ← require null_irq_entry handler
  trigger fuel i
  do_deferred_switch_from_irq
