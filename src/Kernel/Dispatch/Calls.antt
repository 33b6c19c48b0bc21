-- ===== src/Kernel/Dispatch/Calls.antt =====
-- A call: a context sends to an object with a protocol and waits for the reply, on its own reply key.
pub mod Accepted
pub mod Answers
pub mod Conversed
use brittle_kernel.Prelude.{
  ℕ, zero, suc, ◌+◌, ◌<◌, ◌≡◌, refl, sym, Bool, arith, true, false, none, some, ◌==◌, update, ◌&&◌,
  not, ◌||◌, ◌∙◌, if◌then◌else◌,
}
use brittle_kernel.Run.{Cmd, ok, maybe, panic_unless, ◌>>=◌, ◌>>◌, pure, ref}
use brittle_kernel.Abi.Descriptor.{is_call, get_receive_enabled}
use brittle_kernel.Abi.Message.{Message, sanitized_message}
use brittle_kernel.Links
use brittle_kernel.Kernel.{
  Kernel, Key, ContextBody, Object, context, gate, receiving, body, gets, modify, on_lists,
  receivers, put_body, put_received, dispatch, object_at, ctx_item, sys_message, Do,
}
use brittle_kernel.Kernel.Delivery.{
  task, has_top_bit, on_delivery, context_on_delivery, receive_phase, make_reply_key, deliver_to,
  deliver_to_object, context_deliver_to, block_in_reply,
}
use brittle_kernel.Kernel.Keys.{
  Bank, empty_bank, bank, filled, make_key, resolve, pointee, map_index, set_key, copy_keys,
  read_key, sent_map,
}
use brittle_kernel.Kernel.Scheduler.{unlink_item, set_state, pend_switch}

-- The context waits for the reply to its call.
abbrev pub waiting : ℕ → Kernel → Kernel
waiting c k =
    let k' =
      put_body c (λ b. record b { state = receiving })
        (record k { links = Links.unlink (ctx_item c) k.links }) in
    record k' { switch_pending = true }

-- The keys of a call: a key to the caller, for the reply, and three of its keys.
abbrev pub call_keys : ℕ → ContextBody → Kernel → Bank
call_keys c b k =
    let map = sent_map k c in
    update
      (update
        (update (update empty_bank 0 (filled k c b.expected_reply_brand)) 1
          (b.keys (map_index map 1)))
        2 (b.keys (map_index map 2)))
      3 (b.keys (map_index map 3))

resolve-filled : (k : Kernel) (c brand : ℕ) → resolve k (filled k c brand) ≡ filled k c brand
unfolding resolve filled
resolve-filled k c brand = ground arith

-- The first command of a block returns.
pub then-ok :
    {S A B : Type 0} (m : Cmd S A) (f : A → Cmd S B) (s t : S) (a : A)
    → m s ≡ ok a t
    → (m >>= f) s ≡ f a t
unfolding ◌>>=◌
then-ok m f s t a e = rw e refl

module _ (fuel c : ℕ) (k : Kernel) (at : object_at k c ≡ context (body k c))
    (calls : is_call ((body k c).save 0) ≡ true) where
  abbrev d : ℕ
  d = (body k c).save 0

  abbrev reply_key : Key
  reply_key = filled k c (body k c).expected_reply_brand

  enabled : get_receive_enabled d ≡ true
  unfolding is_call
  enabled = ground (arith, calls)

  -- The receive phase of a call, at the key just minted.
  receive_phase-call : receive_phase (deliver_to (suc fuel)) c d reply_key k ≡ ok tt (waiting c k)
  unfolding receive_phase gets ◌>>=◌ ◌>>◌ deliver_to dispatch deliver_to_object context_deliver_to
      block_in_reply unlink_item set_state pend_switch modify on_lists filled
  receive_phase-call =
      rw (calls, resolve-filled k c (body k c).expected_reply_brand, at) (ground (arith, at))

  phase-call :
      (if get_receive_enabled d
          then receive_phase (deliver_to (suc fuel)) c d reply_key
          else pure tt)
        k
      ≡ ok tt (waiting c k)
  phase-call = rw enabled receive_phase-call

  first_key-call :
      (if is_call d then make_reply_key c else read_key c (sent_map k c) 0) k ≡ ok reply_key k
  unfolding make_reply_key make_key gets ◌>>=◌ ref
  first_key-call = rw calls refl

  keys-call :
      (b : Bank)
      → copy_keys 3 1 (read_key c (sent_map k c)) bank b k
        ≡ ok
            (update
              (update
                (update b 1 ((body k c).keys (map_index (sent_map k c) 1)))
                2
                ((body k c).keys (map_index (sent_map k c) 2)))
              3
              ((body k c).keys (map_index (sent_map k c) 3)))
            k
  unfolding copy_keys read_key set_key map_index gets ◌>>=◌ pure
  keys-call b = refl

  -- What the object gets, and the state that the caller is left in.
  on_delivery-call :
      (reg : ℕ)
      → on_delivery (deliver_to (suc fuel)) (task c reg) bank empty_bank k
        ≡ ok
            (sanitized_message (sys_message (body k c).save), call_keys c (body k c) k)
            (waiting c k)
  unfolding on_delivery context_on_delivery ◌>>=◌ ◌>>◌ gets set_key map_index pure
  on_delivery-call reg =
      let m = sanitized_message (sys_message (body k c).save) in
      let phase : Do (Unit {0}) =
        if get_receive_enabled d
        then receive_phase (deliver_to (suc fuel)) c d reply_key
        else pure tt in
      then-ok (if is_call d then make_reply_key c else read_key c (sent_map k c) 0) _ k k reply_key
        first_key-call
      ∙ (then-ok (copy_keys 3 1 (read_key c (sent_map k c)) bank (update empty_bank 0 reply_key))
            (λ b2. phase >> pure (m, b2)) k k _ (keys-call (update empty_bank 0 reply_key))
          ∙ then-ok phase (λ _. pure (m, call_keys c (body k c) k)) k (waiting c k) tt phase-call)
