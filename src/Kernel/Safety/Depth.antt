-- ===== src/Kernel/Safety/Depth.antt =====
-- How deep Object::deliver_from recurs: a reply that a kernel object sends is answered by no reply.
use brittle_kernel.Prelude.{ℕ, suc, ◌≡◌, refl, sym, ◌∙◌, ◌==◌, Bool-cases, inl, inr}
use brittle_kernel.Run.{ok, ◌>>=◌, pure}
use brittle_kernel.Run.Keeps.{Ensures}
use brittle_kernel.Run.Yields.{Yields, and_then-cong, Ensures-both}
use brittle_kernel.Abi.Message.{Message}
use brittle_kernel.Kernel.{
  Kernel, Key, empty_key, Object, null, context, gate, gets, dispatch, object_at, kind,
}
use brittle_kernel.Kernel.Delivery.{
  ReplySender, Sender, reply, deliver_to, on_delivery, reply_on_delivery, has_top_bit, brand_now,
}
use brittle_kernel.Kernel.Dispatch.{
  DeliverFrom, handler, gate_handler, send_reply, converse, deliver_from_object, deliver_from,
  reply_depth,
}
use brittle_kernel.Kernel.Dispatch.Replies.{IsFinal, Answers-handler}
use brittle_kernel.Kernel.Keys.{
  Bank, bank, empty_bank, resolve, null_key, pointee, copy_keys, set_key, map_index,
}
use brittle_kernel.Kernel.Protocol.{Handler}
use brittle_kernel.Kernel.Protocol.Context.{context_handler}
use brittle_kernel.Kernel.Safety.{Safe}
use brittle_kernel.Kernel.Safety.Delivery.{Keeps-deliver_to, Keeps-on_delivery, Keeps-brand_now}
use brittle_kernel.Kernel.Safety.Dispatch.{Handles-handler}
use brittle_kernel.Kernel.Safety.Protocols.{Handles}

pub send_reply-null :
    (call : DeliverFrom) (key : Key) (r : ReplySender) (k : Kernel)
    → key ≡ empty_key
    → Safe k
    → send_reply call key r k ≡ ok tt k
unfolding send_reply ◌>>=◌ gets resolve null_key
send_reply-null call key r k e h = rw (e, h.null_object)

reply-keys :
    (fuel : ℕ) (r : ReplySender) (k : Kernel)
    → IsFinal r
    → Safe k
    → Ensures
        (λ a t. (a.1 0 ≡ empty_key) × Safe t)
        (on_delivery (deliver_to fuel) (reply r) bank empty_bank k)
unfolding on_delivery reply_on_delivery copy_keys set_key map_index ◌>>=◌ pure
reply-keys fuel r k final h = (final, h)

module _ (call call' : DeliverFrom) (fuel : ℕ) (r : ReplySender) (final : IsFinal r) where
  -- A reply that asks for none is answered without recursion.
  converse-reply :
      (handle : Handler) (this brand : ℕ) (k : Kernel)
      → Handles this handle
      → Safe k
      → converse call fuel handle this brand (reply r) k
        ≡ converse call' fuel handle this brand (reply r) k
  unfolding converse brand_now pure ◌>>=◌
  converse-reply handle this brand k handles h =
      and_then-cong (λ (a : Message × Bank) t. (a.1 0 ≡ empty_key) × Safe t)
        (on_delivery (deliver_to fuel) (reply r) bank empty_bank k) _ _
        (reply-keys fuel r k final h)
        λ a s q.
          and_then-cong (λ _ t. Safe t) _ _ _ ((handles brand a.0 a.1).at s q.1)
            λ r' t g.
              send_reply-null call (a.1 0) r' t q.0 g
              ∙ sym (send_reply-null call' (a.1 0) r' t q.0 g)

  object-reply :
      (o : Object) (this brand : ℕ) (k : Kernel)
      → (this ≡ 0 → o ≡ null)
      → Safe k
      → deliver_from_object call fuel o this brand (reply r) k
        ≡ deliver_from_object call' fuel o this brand (reply r) k
  unfolding deliver_from_object
  object-reply gate this brand k z h = elim (Bool-cases (has_top_bit brand)) [
    | inl e ↦ rw e
    | inr e ↦ rw e (converse-reply gate_handler this brand k (Handles-handler this gate z) h)
  ]
  object-reply (context b) this brand k z h = elim (Bool-cases (has_top_bit brand)) [
    | inl e ↦ elim (Bool-cases (brand == b.expected_reply_brand)) [
      | inl f ↦ rw (e, f)
      | inr f ↦
          rw (e, f)
            (converse-reply (handler null) this brand k (Handles-handler this null (λ _. refl)) h)
    ]
    | inr e ↦
        rw e (converse-reply context_handler this brand k (Handles-handler this (context b) z) h)
  ]
  object-reply o this brand k z h =
      converse-reply (handler o) this brand k (Handles-handler this o z) h

deliver_from-reply :
    (d d' fuel this brand : ℕ) (r : ReplySender) (k : Kernel)
    → IsFinal r
    → Safe k
    → deliver_from (suc d) fuel this brand (reply r) k
      ≡ deliver_from (suc d') fuel this brand (reply r) k
unfolding deliver_from dispatch
deliver_from-reply d d' fuel this brand r k final h =
    object-reply (deliver_from d fuel) (deliver_from d' fuel) fuel r final (object_at k this) this
      brand k (λ e. rw (e, h.null_object)) h

module _ (d d' fuel : ℕ) where
  send_reply-depth :
      (key : Key) (r : ReplySender) (k : Kernel)
      → IsFinal r
      → Safe k
      → send_reply (deliver_from (suc d) fuel) key r k
        ≡ send_reply (deliver_from (suc d') fuel) key r k
  unfolding send_reply ◌>>=◌ gets
  send_reply-depth key r k final h =
      elim (Bool-cases (kind (object_at k (pointee (resolve k key))) == 0)) [
        | inl e ↦ rw e
        | inr e ↦ rw e (
            deliver_from-reply d d' fuel (pointee (resolve k key)) (resolve k key).brand r k final
              h)
      ]

  converse-depth :
      (handle : Handler) (this brand : ℕ) (s : Sender) (k : Kernel)
      → Handles this handle
      → ((brand : ℕ) (m : Message) (keys : Bank) → Yields IsFinal (handle this brand m keys))
      → Safe k
      → converse (deliver_from (suc d) fuel) fuel handle this brand s k
        ≡ converse (deliver_from (suc d') fuel) fuel handle this brand s k
  unfolding converse ◌>>=◌
  converse-depth handle this brand s k handles answers h =
      and_then-cong (λ _ t. Safe t) _ _ _
        ((Keeps-on_delivery (deliver_to fuel) (Keeps-deliver_to fuel) s bank empty_bank).at k h)
        λ a t g.
          and_then-cong (λ _ t. Safe t) _ _ _ ((Keeps-brand_now s brand).at t g)
            λ now t g.
              and_then-cong (λ r u. IsFinal r × Safe u) _ _ _
                (Ensures-both (λ r _. IsFinal r) (λ _ u. Safe u) (handle this now a.0 a.1 t)
                  ((answers now a.0 a.1).at t) ((handles now a.0 a.1).at t g))
                λ r u q. send_reply-depth (a.1 0) r u q.0 q.1

  object-depth :
      (o : Object) (this brand : ℕ) (s : Sender) (k : Kernel)
      → (this ≡ 0 → o ≡ null)
      → Safe k
      → deliver_from_object (deliver_from (suc d) fuel) fuel o this brand s k
        ≡ deliver_from_object (deliver_from (suc d') fuel) fuel o this brand s k
  unfolding deliver_from_object
  object-depth gate this brand s k z h = elim (Bool-cases (has_top_bit brand)) [
    | inl e ↦ rw e
    | inr e ↦ rw e (
        converse-depth gate_handler this brand s k (Handles-handler this gate z)
          (Answers-handler gate this) h)
  ]
  object-depth (context b) this brand s k z h = elim (Bool-cases (has_top_bit brand)) [
    | inl e ↦ elim (Bool-cases (brand == b.expected_reply_brand)) [
      | inl f ↦ rw (e, f)
      | inr f ↦
          rw (e, f)
            (converse-depth (handler null) this brand s k (Handles-handler this null (λ _. refl))
              (Answers-handler null this) h)
    ]
    | inr e ↦ rw e (
        converse-depth context_handler this brand s k (Handles-handler this (context b) z)
          (Answers-handler (context b) this) h)
  ]
  object-depth o this brand s k z h =
      converse-depth (handler o) this brand s k (Handles-handler this o z) (Answers-handler o this)
        h

-- In a state with the invariant, the depth 2 that the kernel's entries pass to `deliver_from` is enough
-- for every message: any greater depth gives the same run.
pub deliver_from-reply_depth :
    (d fuel this brand : ℕ) (s : Sender) (k : Kernel)
    → Safe k
    → deliver_from (suc (suc d)) fuel this brand s k ≡ deliver_from reply_depth fuel this brand s k
unfolding deliver_from dispatch
deliver_from-reply_depth d fuel this brand s k h =
    object-depth d 0 fuel (object_at k this) this brand s k (λ e. rw (e, h.null_object)) h
