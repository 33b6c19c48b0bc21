-- ===== src/Kernel/Protocol/Context.antt =====
-- The Context protocol, Context::handle_protocol in k/context.cc.
pub mod Registers
use brittle_kernel.Prelude.{ℕ, ◌+◌, Bool, false, not, ◌&&◌, ◌||◌, ◌==◌, leb, if◌then◌else◌, update}
use brittle_kernel.Run.{pure, ◌>>=◌, ◌>>◌}
use brittle_kernel.Abi.Exceptions.{bad_argument, would_block}
use brittle_kernel.Abi.Descriptor.{get_selector}
use brittle_kernel.Abi.Message.{zero_message}
use brittle_kernel.Abi.Sizes.{n_task_keys, n_task_regions, n_priorities}
use brittle_kernel.Abi.Selectors.Context as Sel
use brittle_kernel.Links
use brittle_kernel.Kernel.{
  Kernel, State, stopped, runnable, sending, receiving, Do, gets, modify, on_lists, body, put_body,
  ctx_item, sender_item, n_saved_registers,
}
use brittle_kernel.Kernel.Keys.{put_key, put_region}
use brittle_kernel.Kernel.Objects.{advance_reply_brand}
use brittle_kernel.Kernel.Delivery.{
  ReplySender, put_save, on_blocked_delivery_aborted, complete_blocked_receive_exception,
}
use brittle_kernel.Kernel.Scheduler.{apply_to_mpu, make_runnable, unlink_item}
use brittle_kernel.Kernel.Protocol.{Handler, empty_reply, reply_message, refuse, with_key, do_badop}

-- Context::is_awaiting_reply.
unfoldable pub is_awaiting_reply : Kernel → ℕ → Bool
unfolding Links.is_linked
is_awaiting_reply k c = elim (body k c).state [
  | receiving ↦ not (Links.is_linked (ctx_item c) k.links)
  | _ ↦ false
]

abbrev reply_d0 : ℕ → ReplySender
reply_d0 v = reply_message (record zero_message { d0 = v })

unfoldable pub do_register : Handler
unfolding refuse get_selector
do_register this _ m keys =
    if leb n_saved_registers m.d0
    then pure (refuse bad_argument)
    else if get_selector m.desc == Sel.read_register
    then gets (λ k. reply_d0 ((body k this).save m.d0))
    else put_save this (λ save. update save m.d0 m.d1) >> pure empty_reply

unfoldable pub do_key_register : Handler
unfolding refuse get_selector with_key
do_key_register this _ m keys =
    let is_read = get_selector m.desc == Sel.read_key_register in
    if leb n_task_keys m.d0 || (not is_read && (m.d0 == 0))
    then pure (refuse bad_argument)
    else if is_read
    then (do key ← gets (λ k. (body k this).keys m.d0); with_key 1 key empty_reply)
    else modify (put_key this m.d0 (keys 1)) >> pure empty_reply

unfoldable pub do_region_register : Handler
unfolding refuse get_selector with_key apply_to_mpu
do_region_register this _ m keys =
    if leb n_task_regions m.d0
    then pure (refuse bad_argument)
    else if get_selector m.desc == Sel.read_region_register
    then (do key ← gets (λ k. (body k this).memory_regions m.d0); with_key 1 key empty_reply)
    else do
      modify (put_region this m.d0 (keys 1))
      current ← gets (λ k. k.current)
      (if current == this then apply_to_mpu this else pure tt)
      pure empty_reply

-- The case `receiving` of make_runnable.
unfoldable pub cancel_receive : ℕ → Do (Unit {0})
unfolding is_awaiting_reply advance_reply_brand unlink_item complete_blocked_receive_exception
cancel_receive this = do
  awaiting ← gets (λ k. is_awaiting_reply k this)
  (if awaiting then advance_reply_brand this else pure tt)
  unlink_item (ctx_item this)
  complete_blocked_receive_exception this would_block 0

-- The case `sending`.
unfoldable pub cancel_send : ℕ → Do (Unit {0})
unfolding unlink_item on_blocked_delivery_aborted
cancel_send this = do unlink_item (sender_item this); on_blocked_delivery_aborted this

unfoldable pub runnable_from : State → ℕ → Do (Unit {0})
unfolding cancel_receive cancel_send make_runnable
runnable_from sending this = cancel_send this
runnable_from receiving this = cancel_receive this
runnable_from stopped this = make_runnable this
runnable_from runnable this = pure tt

unfoldable pub do_make_runnable : Handler
unfolding runnable_from
do_make_runnable this _ m keys = do
  state ← gets (λ k. (body k this).state)
  runnable_from state this
  pure empty_reply

-- `if (item.is_linked()) item.reinsert()`.
unfoldable pub requeue : ℕ → ℕ → Do (Unit {0})
unfolding Links.is_linked Links.reinsert
requeue p it = do
  linked ← gets (λ k. Links.is_linked it k.links)
  if linked then on_lists (Links.reinsert p it) else pure tt

unfoldable pub do_set_priority : Handler
unfolding refuse requeue
do_set_priority this _ m keys = if leb n_priorities m.d0 then pure (refuse bad_argument) else do
  modify (put_body this (λ b. record b { priority = m.d0 }))
  requeue m.d0 (ctx_item this)
  requeue m.d0 (sender_item this)
  pure empty_reply

-- `read_low_registers` from register 0, `read_high_registers` from register 5.
unfoldable pub do_read_registers : ℕ → Handler
do_read_registers index this _ m keys = do
  save ← gets (λ k. (body k this).save)
  pure (
      reply_message (record zero_message {
        d0 = save index;
        d1 = save (index + 1);
        d2 = save (index + 2);
        d3 = save (index + 3);
        d4 = save (index + 4);
      }))

-- `write_low_registers` and `write_high_registers`: the source takes the words from the reply's
-- message, not from the message received.
unfoldable pub do_write_registers : ℕ → Handler
do_write_registers index this _ m keys = do
  let reply = empty_reply.message
  put_save this (λ save.
      update
        (update
          (update (update (update save index reply.d0) (index + 1) reply.d1) (index + 2) reply.d2)
          (index + 3) reply.d3)
        (index + 4) reply.d4)
  pure empty_reply

-- The switch of Context::handle_protocol.
unfoldable pub context_handler : Handler
unfolding do_register do_key_register do_region_register do_make_runnable do_set_priority
    do_read_registers do_write_registers do_badop get_selector
context_handler this brand m keys =
    let s = get_selector m.desc in
    if s == Sel.read_register || s == Sel.write_register
    then do_register this brand m keys
    else if s == Sel.read_key_register || s == Sel.write_key_register
    then do_key_register this brand m keys
    else if s == Sel.read_region_register || s == Sel.write_region_register
    then do_region_register this brand m keys
    else if s == Sel.make_runnable
    then do_make_runnable this brand m keys
    else if s == Sel.get_priority
    then gets (λ k. reply_d0 (body k this).priority)
    else if s == Sel.set_priority
    then do_set_priority this brand m keys
    else if s == Sel.read_low_registers
    then do_read_registers 0 this brand m keys
    else if s == Sel.read_high_registers
    then do_read_registers 5 this brand m keys
    else if s == Sel.write_low_registers
    then do_write_registers 0 this brand m keys
    else if s == Sel.write_high_registers
    then do_write_registers 5 this brand m keys
    else pure (do_badop m)
