-- ===== src/Kernel/Protocol.antt =====
-- What the protocols of the kernel's objects share: k/object.cc, k/reply_sender.cc. A handler returns
-- the reply that ScopedReplySender delivers when the handler's scope ends.
pub mod Context
pub mod Memory
pub mod ObjectTable
use brittle_kernel.Prelude.{ℕ, ltb, update}
use brittle_kernel.Run.{pure, ok, ref, ◌>>=◌, ◌>>◌, panic_unless, bad_reply_key_index}
use brittle_kernel.Abi.Exceptions.{Exception, bad_operation}
use brittle_kernel.Abi.Descriptor.{get_selector}
use brittle_kernel.Abi.Message.{Message, zero_message, failure}
use brittle_kernel.Abi.Sizes.{n_message_keys}
use brittle_kernel.Kernel.{Key, Do, gets}
use brittle_kernel.Kernel.Keys.{Bank, empty_bank, make_key}
use brittle_kernel.Kernel.Delivery.{ReplySender}

-- A virtual function of an object that is sent a message: the object, the brand, the message, its
-- keys.
abbrev pub Handler : Type 0
Handler = ℕ → ℕ → Message → Bank → Do ReplySender

abbrev pub reply_message : Message → ReplySender
reply_message m = record { message = m; keys = empty_bank }

-- ReplySender{}.
abbrev pub empty_reply : ReplySender
empty_reply = reply_message zero_message

unfoldable pub refuse : Exception → ReplySender
unfolding failure
refuse e = reply_message (failure e 0)

-- ReplySender::set_key.
unfoldable pub with_key : ℕ → Key → ReplySender → Do ReplySender
with_key index key r = do
  panic_unless (ltb index n_message_keys) bad_reply_key_index
  pure (record r { keys = update r.keys index key })

-- `reply_sender.set_key(index, object.make_key(brand).ref())`.
unfoldable pub with_new_key : ℕ → ℕ → ℕ → ReplySender → Do ReplySender
unfolding with_key make_key
with_new_key index object brand r = do
  maybe_key ← gets (λ k. make_key k object brand)
  key ← ref maybe_key
  with_key index key r

-- Object::do_badop.
unfoldable pub do_badop : Message → ReplySender
unfolding failure get_selector
do_badop m = reply_message (failure bad_operation (get_selector m.desc))
