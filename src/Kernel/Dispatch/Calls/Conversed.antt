-- ===== src/Kernel/Dispatch/Calls/Conversed.antt =====
-- A call from its start to its end: the message to the object, the object's handler, and the reply to
-- the caller.
use mathlib.Mathlib.Data.Bool.Basic.{eq-false_of_not-eq-true'}
use brittle_kernel.Prelude.{ℕ, suc, ◌<◌, ◌≡◌, ◌∙◌, refl, arith, Bool, true, not}
use brittle_kernel.Run.{ok, ◌>>=◌}
use brittle_kernel.Run.Returns.{Returns}
use brittle_kernel.Abi.Descriptor.{is_call}
use brittle_kernel.Abi.Message.{sanitized_message}
use brittle_kernel.Abi.Sizes.{n_priorities}
use brittle_kernel.Links
use brittle_kernel.Kernel.{
  Kernel, Object, context, gate, ContextBody, receiving, body, gets, dispatch, object_at,
  sys_message,
}
use brittle_kernel.Kernel.Delivery.{
  ReplySender, Sender, task, reply, deliver_to, on_delivery, brand_now, has_top_bit,
}
use brittle_kernel.Kernel.Dispatch.{
  deliver_from, deliver_from_object, DeliverFrom, converse, handler, send_reply, reply_depth,
}
use brittle_kernel.Kernel.Dispatch.Calls.{waiting, call_keys, on_delivery-call, then-ok}
use brittle_kernel.Kernel.Dispatch.Calls.Accepted.{delivered, renewed, Runs-deliver_from}
use brittle_kernel.Kernel.Dispatch.Calls.Answers.{Waits}
use brittle_kernel.Kernel.Keys.{bank, empty_bank, filled, resolve}

-- The key leads to the object's own protocol.
abbrev pub converses : Object → ℕ → Bool
converses gate brand = not (has_top_bit brand)
converses (context _) brand = not (has_top_bit brand)
converses _ brand = true

deliver_from_object-converse :
    (call : DeliverFrom) (fuel : ℕ) (o : Object) (i brand : ℕ) (s : Sender) (k : Kernel)
    → converses o brand ≡ true
    → deliver_from_object call fuel o i brand s k ≡ converse call fuel (handler o) i brand s k
unfolding deliver_from_object converse handler
deliver_from_object-converse call fuel gate i brand s k own = rw (eq-false_of_not-eq-true' own) refl
deliver_from_object-converse call fuel (context b) i brand s k own =
    rw (eq-false_of_not-eq-true' own) refl
deliver_from_object-converse call fuel _ i brand s k own = refl

-- The reply to a context under a key that still names it.
send_reply-filled :
    (call : DeliverFrom) (c brand : ℕ) (r : ReplySender) (k t : Kernel) (b : ContextBody)
    → object_at t c ≡ context b
    → (t.objects c).generation ≡ (k.objects c).generation
    → send_reply call (filled k c brand) r t ≡ call c brand (reply r) t
unfolding send_reply resolve filled gets ◌>>=◌
send_reply-filled call c brand r k t b at same = ground (arith, at, same)

module _ (fuel i brand c reg : ℕ) (k t : Kernel) (r : ReplySender) (b : ContextBody)
    (at : object_at k c ≡ context (body k c)) (calls : is_call ((body k c).save 0) ≡ true)
    (held : ((body k c).keys reg).brand ≡ brand) (own : converses (object_at k i) brand ≡ true)
    (handles : handler
        (object_at k i)
        i
        brand
        (sanitized_message (sys_message (body k c).save))
        (call_keys c (body k c) k)
        (waiting c k)
      ≡ ok r t)
    (waits : Waits c b t) (state : b.state ≡ receiving) (bound : b.priority < n_priorities)
    (expected : b.expected_reply_brand ≡ (body k c).expected_reply_brand)
    (top : has_top_bit b.expected_reply_brand ≡ true)
    (same : (t.objects c).generation ≡ (k.objects c).generation) where
  -- Waiting does not change the key by which the context sent.
  still : brand_now (task c reg) brand (waiting c k) ≡ ok brand (waiting c k)
  unfolding brand_now gets
  still = ground (arith, at, held)

  conversed :
      deliver_from reply_depth (suc fuel) i brand (task c reg) k
      ≡ deliver_from 1 (suc fuel) c b.expected_reply_brand (reply r) t
  unfolding deliver_from dispatch converse
  conversed =
      deliver_from_object-converse (deliver_from 1 (suc fuel)) (suc fuel) (object_at k i) i brand
        (task c reg) k own
      ∙ (then-ok (on_delivery (deliver_to (suc fuel)) (task c reg) bank empty_bank) _ k
            (waiting c k) _ (on_delivery-call fuel c k at calls reg)
          ∙ (then-ok (brand_now (task c reg) brand) _ (waiting c k) (waiting c k) brand still
              ∙ (then-ok
                    (handler (object_at k i) i brand
                      (sanitized_message (sys_message (body k c).save)) (call_keys c (body k c) k))
                    (λ r'.
                      send_reply (deliver_from 1 (suc fuel))
                        (filled k c (body k c).expected_reply_brand) r')
                    (waiting c k) t r handles
                  ∙ (send_reply-filled (deliver_from 1 (suc fuel)) c (body k c).expected_reply_brand
                        r k t b waits.here same
                      ∙ rw expected refl))))

  -- A context calls an object through a key register that holds a key to the object's own protocol, and the handler returns a
  -- reply in a state in which the context still waits, under the same generation and expected brand, of
  -- which the top bit is set. Then the delivery returns, on fuel for one level, and leaves the context
  -- runnable, with the reply's keys in the registers that its map names but for register 0, the reply's
  -- message and the brand in its saved registers, and a new brand to expect.
  pub deliver_from-delivered :
      Returns
        (λ _ s. object_at s c ≡ context (delivered r b.expected_reply_brand (renewed b)))
        (deliver_from reply_depth (suc fuel) i brand (task c reg) k)
  deliver_from-delivered =
      rw conversed ((Runs-deliver_from c r b state bound 0 (suc fuel) top).at t waits)

-- Until the reply comes, the context that calls is in no list.
waiting-Waits :
    (c : ℕ) (b : ContextBody) (k : Kernel)
    → object_at k c ≡ context b
    → Waits c (record b { state = receiving }) (waiting c k)
unfolding Links.unlink
waiting-Waits c b k at = record {
  here = ground (arith, at);
  unlinked = ground (arith, at);
  next = ground (arith, at);
  prev = ground (arith, at);
}

-- The caller's body after a call whose handler leaves the kernel as it was.
abbrev pub called : ReplySender → ContextBody → ContextBody
called r b = delivered r b.expected_reply_brand (renewed (record b { state = receiving }))

pub deliver_from-called :
    (fuel i brand c reg : ℕ) (k : Kernel) (r : ReplySender) (b : ContextBody)
    → object_at k c ≡ context b
    → is_call (b.save 0) ≡ true
    → (b.keys reg).brand ≡ brand
    → converses (object_at k i) brand ≡ true
    → handler
        (object_at k i)
        i
        brand
        (sanitized_message (sys_message b.save))
        (call_keys c b k)
        (waiting c k)
      ≡ ok r (waiting c k)
    → b.priority < n_priorities
    → has_top_bit b.expected_reply_brand ≡ true
    → Returns
        (λ _ s. object_at s c ≡ context (called r b))
        (deliver_from reply_depth (suc fuel) i brand (task c reg) k)
deliver_from-called fuel i brand c reg k r b at calls held own handles bound top =
    let here : object_at k c ≡ context (body k c) = rw at refl in
    let same : body k c ≡ b = rw at refl in
    deliver_from-delivered fuel i brand c reg k (waiting c k) r (record b { state = receiving })
      here (rw same calls) (rw same held) own (rw same handles) (waiting-Waits c b k at) refl bound
      (rw same refl) top (ground (arith, at))
