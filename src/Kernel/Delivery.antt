-- ===== src/Kernel/Delivery.antt =====
-- The delivery protocol between senders and receivers: k/sender.h, k/blocking_sender.h, and their
-- implementations in k/context.cc, k/interrupt.cc and k/reply_sender.cc.
-- A receiver that takes a blocked sender's message completes that sender's send, which may itself
-- receive, from another gate. So `deliver_to` may call itself, once for each sender taken from a
-- block list; it runs on fuel. The functions below it take the call as an argument.
use brittle_kernel.Prelude.{ℕ, zero, suc, ◌/◌, ◌%◌, ◌^◌, ◌-◌, Bool, not, ◌||◌, ◌==◌, if◌then◌else◌}
use brittle_kernel.Run.{exhausted, pure, ref, maybe, ◌>>=◌, ◌>>◌, panic_unless, non_current_block}
use brittle_kernel.Abi.Descriptor.{
  get_receive_enabled, get_source, get_block, is_call, with_selector, zero_descriptor,
}
use brittle_kernel.Abi.Exceptions.{Exception, bad_operation, would_block}
use brittle_kernel.Abi.Message.{Message, zero_message, failure, sanitized_message, ReceivedMessage}
use brittle_kernel.Abi.Sizes.{n_message_keys}
use brittle_kernel.Links
use brittle_kernel.Kernel.{
  Key, Object, context, gate, interrupt, sending, receiving, Do, gets, dispatch, modify, on_lists,
  body, object_at, as_interrupt, put_body, put_interrupt, ctx_item, sender_item, senders, receivers,
  owner, sys_message, put_message, put_brand, put_received,
}
use brittle_kernel.Kernel.Keys.{
  make_key, null_key, resolve, pointee, get_key, Bank, empty_bank, KeysRef, read_key, copy_keys,
  set_key, receive_keys, sent_map,
}
use brittle_kernel.Kernel.Scheduler.{pend_switch, set_state, make_runnable, unlink_item}

-- ReplySender: a message and its keys.
pub record ReplySender : Type 0 where
  pub message : Message
  pub keys : Bank

-- Who sends: a Context, an Interrupt (by their index), or a reply from the kernel. A Context sends by a key
-- register of its own, given second: the brand is passed by reference to the key in that register.
pub data Sender : Type 0 where
  task : ℕ → ℕ → Sender
  irq : ℕ → Sender
  reply : ReplySender → Sender

-- The type of Object::deliver_to: the object, the brand of the key, the receiver.
abbrev pub DeliverTo : Type 0
DeliverTo = ℕ → ℕ → ℕ → Do (Unit {0})

-- What a `Brand const &` reads after `on_delivery`, whose receive phase may have stored another key in the
-- register. The brands of interrupts' targets and of replies stay as they were.
unfoldable pub brand_now : Sender → ℕ → Do ℕ
brand_now (task c t) brand = gets (λ k. ((body k c).keys t).brand)
brand_now _ brand = pure brand

abbrev pub put_save : ℕ → ((ℕ → ℕ) → ℕ → ℕ) → Do (Unit {0})
put_save c f = modify (put_body c (λ b. record b { save = f b.save }))

-- Context::complete_receive(Exception, uint32_t).
unfoldable pub complete_receive_exception : ℕ → Exception → ℕ → Do (Unit {0})
unfolding failure put_message put_brand
complete_receive_exception c e param =
    put_save c (put_received (record { m = failure e param; brand = 0 }))

-- Context::block_in_receive and Context::block_in_reply.
unfoldable pub block_in_receive : ℕ → ℕ → Do (Unit {0})
unfolding unlink_item Links.insert set_state pend_switch
block_in_receive c l = do
  unlink_item (ctx_item c)
  p ← gets (λ k. (body k c).priority)
  on_lists (Links.insert p l (ctx_item c))
  set_state c receiving
  pend_switch

unfoldable pub block_in_reply : ℕ → Do (Unit {0})
unfolding unlink_item set_state pend_switch
block_in_reply c = do unlink_item (ctx_item c); set_state c receiving; pend_switch

-- Context::make_reply_key.
unfoldable pub make_reply_key : ℕ → Do Key
unfolding make_key
make_reply_key c = do
  maybe_key ← gets (λ k. make_key k c (body k c).expected_reply_brand)
  ref maybe_key

module _ (deliver_to : DeliverTo) where
  -- The receive phase at the end of Context::on_delivery, from the reply key just minted or from
  -- the key register that the descriptor names.
  unfoldable pub receive_phase : ℕ → ℕ → Key → Do (Unit {0})
  unfolding get_key resolve is_call get_source
  receive_phase c d k0 =
      if is_call d
      then (do source ← gets (λ k. resolve k k0); deliver_to (pointee source) source.brand c)
      else (do source ← get_key c (get_source d); deliver_to (pointee source) source.brand c)

  -- Context::on_delivery.
  unfoldable pub context_on_delivery : ℕ → KeysRef → Bank → Do (Message × Bank)
  unfolding receive_phase make_reply_key sent_map read_key set_key copy_keys sanitized_message
      is_call get_receive_enabled
  context_on_delivery c dest b = do
    m0 ← gets (λ k. sys_message (body k c).save)
    let d = m0.desc
    let m = sanitized_message m0
    map ← gets (λ k. sent_map k c)
    k0 ← (if is_call d then make_reply_key c else read_key c map 0)
    b1 ← set_key dest 0 k0 b
    b2 ← copy_keys (n_message_keys - 1) 1 (read_key c map) dest b1
    (if get_receive_enabled d then receive_phase c d k0 else pure tt)
    pure (m, b2)

  -- Interrupt::on_delivery.
  unfoldable pub interrupt_on_delivery : ℕ → KeysRef → Bank → Do (Message × Bank)
  unfolding make_key null_key set_key copy_keys with_selector
  interrupt_on_delivery i dest b = do
    maybe_key ← gets (λ k. make_key k i 0)
    self ← ref maybe_key
    b1 ← set_key dest 0 self b
    b2 ← copy_keys (n_message_keys - 1) 1 (λ _. gets null_key) dest b1
    id ← gets (λ k. (as_interrupt (object_at k i)).identifier)
    pure (record zero_message { desc = with_selector 1 zero_descriptor; d0 = id }, b2)

  -- ReplySender::on_delivery.
  unfoldable pub reply_on_delivery : ReplySender → KeysRef → Bank → Do (Message × Bank)
  unfolding copy_keys
  reply_on_delivery r dest b = do
    b' ← copy_keys n_message_keys 0 (λ i. pure (r.keys i)) dest b
    pure (r.message, b')

  -- Sender::on_delivery, virtual.
  unfoldable pub on_delivery : Sender → KeysRef → Bank → Do (Message × Bank)
  unfolding context_on_delivery interrupt_on_delivery reply_on_delivery
  on_delivery (task c t) dest b = context_on_delivery c dest b
  on_delivery (irq i) dest b = interrupt_on_delivery i dest b
  on_delivery (reply r) dest b = reply_on_delivery r dest b

  -- BlockingSender::on_blocked_delivery, of a Context.
  unfoldable pub context_on_blocked_delivery : ℕ → KeysRef → Do ReceivedMessage
  unfolding make_runnable context_on_delivery
  context_on_blocked_delivery c dest = do
    make_runnable c
    (m, _) ← context_on_delivery c dest empty_bank
    brand ← gets (λ k. (body k c).saved_brand)
    pure (record { m = m; brand = brand })

  -- BlockingSender::on_blocked_delivery, of an Interrupt.
  unfoldable pub interrupt_on_blocked_delivery : ℕ → KeysRef → Do ReceivedMessage
  unfolding interrupt_on_delivery
  interrupt_on_blocked_delivery i dest = do
    (m, _) ← interrupt_on_delivery i dest empty_bank
    brand ← gets (λ k. (as_interrupt (object_at k i)).saved_brand)
    pure (record { m = m; brand = brand })

  unfoldable pub blocked_delivery_of : Object → ℕ → KeysRef → Do ReceivedMessage
  unfolding context_on_blocked_delivery interrupt_on_blocked_delivery
  blocked_delivery_of (interrupt _) s dest = interrupt_on_blocked_delivery s dest
  blocked_delivery_of _ s dest = context_on_blocked_delivery s dest

  -- BlockingSender::on_blocked_delivery, virtual.
  unfoldable pub on_blocked_delivery : ℕ → KeysRef → Do ReceivedMessage
  unfolding blocked_delivery_of
  on_blocked_delivery s dest = dispatch s (λ o. blocked_delivery_of o s dest)

  -- Context::complete_receive(BlockingSender *).
  unfoldable pub complete_receive : ℕ → ℕ → Do (Unit {0})
  unfolding on_blocked_delivery receive_keys put_message put_brand
  complete_receive c partner = do
    dest ← gets (λ k. receive_keys k c)
    r ← on_blocked_delivery partner dest
    put_save c (put_received r)

  -- Context::complete_blocked_receive(Brand const &, Sender *).
  unfoldable pub complete_blocked_receive : ℕ → ℕ → Sender → Do (Unit {0})
  unfolding make_runnable on_delivery brand_now receive_keys put_message put_brand
  complete_blocked_receive c brand sender = do
    make_runnable c
    dest ← gets (λ k. receive_keys k c)
    (m, _) ← on_delivery sender dest empty_bank
    put_save c (put_message m)
    now ← brand_now sender brand
    put_save c (put_brand now)

-- Context::complete_blocked_receive(Exception, uint32_t).
unfoldable pub complete_blocked_receive_exception : ℕ → Exception → ℕ → Do (Unit {0})
unfolding make_runnable complete_receive_exception
complete_blocked_receive_exception c e param = do
  make_runnable c
  complete_receive_exception c e param

-- The top bit of a 64-bit brand: Gate's transparent_mask and Context's reply_brand_mask.
unfoldable pub has_top_bit : ℕ → Bool
has_top_bit brand = brand / 2 ^ 63 % 2 == 1

-- Gate::deliver_to.
unfoldable pub gate_deliver_to : DeliverTo → DeliverTo
unfolding has_top_bit complete_receive_exception complete_receive block_in_receive Links.take owner
gate_deliver_to deliver_to g brand receiver =
    if has_top_bit brand then complete_receive_exception receiver bad_operation 0 else do
      partner ← on_lists (Links.take (senders g))
      maybe partner (block_in_receive receiver (receivers g))
          (λ it. complete_receive deliver_to receiver (owner it))

-- Context::deliver_to.
unfoldable pub context_deliver_to : DeliverTo
unfolding complete_receive_exception block_in_reply
context_deliver_to this brand ctx = do
  expected ← gets (λ k. (body k this).expected_reply_brand)
  if not (brand == expected) || not (ctx == this)
      then complete_receive_exception ctx bad_operation 0
      else block_in_reply ctx

unfoldable pub deliver_to_object : DeliverTo → Object → DeliverTo
unfolding gate_deliver_to context_deliver_to complete_receive_exception
deliver_to_object call gate o brand ctx = gate_deliver_to call o brand ctx
deliver_to_object call (context _) o brand ctx = context_deliver_to o brand ctx
deliver_to_object call _ o brand ctx = complete_receive_exception ctx bad_operation 0

-- Object::deliver_to, virtual.
unfoldable pub deliver_to : ℕ → DeliverTo
unfolding deliver_to_object
deliver_to zero o brand ctx = exhausted
deliver_to (suc fuel) o brand ctx =
    dispatch o (λ object. deliver_to_object (deliver_to fuel) object o brand ctx)

-- The branch of Context::block_in_send that blocks.
unfoldable pub agree_to_block : ℕ → ℕ → ℕ → Do (Unit {0})
unfolding Links.insert unlink_item set_state pend_switch
agree_to_block c brand l = do
  modify (put_body c (λ b. record b { saved_brand = brand }))
  p ← gets (λ k. (body k c).priority)
  on_lists (Links.insert p l (sender_item c))
  unlink_item (ctx_item c)
  set_state c sending
  pend_switch

-- Context::block_in_send.
unfoldable pub context_block_in_send : ℕ → ℕ → ℕ → Do (Unit {0})
unfolding get_block agree_to_block failure put_message put_brand
context_block_in_send c brand l = do
  current ← gets (λ k. k.current)
  panic_unless (c == current) non_current_block
  d ← gets (λ k. (sys_message (body k c).save).desc)
  if get_block d
      then agree_to_block c brand l
      else put_save c (put_received (record { m = failure would_block 0; brand = 0 }))

-- Interrupt::block_in_send.
unfoldable pub interrupt_block_in_send : ℕ → ℕ → ℕ → Do (Unit {0})
unfolding Links.insert
interrupt_block_in_send i brand l = do
  modify (put_interrupt i (λ b. record b { saved_brand = brand }))
  p ← gets (λ k. (as_interrupt (object_at k i)).priority)
  on_lists (Links.insert p l (sender_item i))

-- Sender::block_in_send, virtual.
unfoldable pub block_in_send : Sender → ℕ → ℕ → Do (Unit {0})
unfolding context_block_in_send interrupt_block_in_send
block_in_send (task c t) brand l = context_block_in_send c brand l
block_in_send (irq i) brand l = interrupt_block_in_send i brand l
block_in_send (reply r) brand l = pure tt

-- Context::on_blocked_delivery_aborted.
unfoldable pub on_blocked_delivery_aborted : ℕ → Do (Unit {0})
unfolding make_runnable failure put_message put_brand
on_blocked_delivery_aborted c = do
  make_runnable c
  put_save c (put_received (record { m = failure would_block 0; brand = 0 }))
