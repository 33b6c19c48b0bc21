-- ===== src/Kernel/Fuel/Ipc.antt =====
-- Sending on enough fuel, through Kernel/Dispatch: a message to any object, and the IPC operation.
use brittle_kernel.Prelude.{ℕ, suc, ◌<◌, ◌≡◌, refl, Option, none, some, ◌==◌, Bool-cases, inl, inr}
use brittle_kernel.Abi.Message.{Message}
use brittle_kernel.Run.{Run, Cmd, ◌>>=◌, pure, maybe}
use brittle_kernel.Run.Ends.{Ends, Finishes, Finishes-map, Finishes-both, Finishes-and_then}
use brittle_kernel.Run.Keeps.{Ensures}
use brittle_kernel.Run.Yields.{Ensures-both}
use brittle_kernel.Links.{Links, take}
use brittle_kernel.Links.Waiting.{take-unlink, Waiting}
use brittle_kernel.Kernel.{
  Kernel, Key, Object, null, context, gate, object_at, kind, gets, dispatch, on_lists, receivers,
  senders, owner,
}
use brittle_kernel.Kernel.Delivery.{
  ReplySender, Sender, task, irq, reply, deliver_to, on_delivery, reply_on_delivery, has_top_bit,
  complete_blocked_receive, block_in_send, context_block_in_send, interrupt_block_in_send,
  agree_to_block, brand_now,
}
use brittle_kernel.Kernel.Dispatch.{
  DeliverFrom, handler, send_reply, converse, pass_through, accept_reply, deliver_from_object,
  deliver_from,
}
use brittle_kernel.Kernel.Dispatch.Replies.{IsFinal, Answers-handler}
use brittle_kernel.Kernel.Fuel.{On, Closed, ends, with_lists-Finishes}
use brittle_kernel.Kernel.Fuel.Delivery.{
  Waiting-Closed, Ends-on_delivery, Ends-complete_blocked_receive, Ends-deliver_to,
}
use brittle_kernel.Kernel.Fuel.Total.{Any, Any-Closed, Total, Total-handler, totals}
use brittle_kernel.Kernel.Keys.{
  Bank, bank, empty_bank, resolve, pointee, copy_keys, set_key, map_index,
}
use brittle_kernel.Kernel.Objects.{advance_reply_brand}
use brittle_kernel.Kernel.Safety.{Safe}
use brittle_kernel.Kernel.Safety.Delivery.{Keeps-deliver_to, Keeps-on_delivery}
use brittle_kernel.Kernel.Safety.Depth.{send_reply-null}
use brittle_kernel.Kernel.Safety.Dispatch.{Handles-handler}

-- The run returns, or it panics.
abbrev pub Returns : {A : Type 0} → Run Kernel A → Type 0
Returns r = Finishes (λ _ _. Unit {0}) r

pub Finishes-any :
    {A : Type 0} (P : A → Kernel → Type 0) (r : Run Kernel A) → Finishes P r → Returns r
Finishes-any P r h = Finishes-map P _ r h (λ a s p. tt)

Finishes-Ensures :
    {A : Type 0} (P Q : A → Kernel → Type 0) (r : Run Kernel A)
    → Finishes P r
    → Ensures Q r
    → Finishes Q r
Finishes-Ensures P Q r f e = Finishes-map _ Q r (Finishes-both P Q r f e) (λ a s p. p.1)

Total-Returns : {A : Type 0} (m : Cmd Kernel A) (k : Kernel) → Total m → Returns (m k)
unfolding On Any
Total-Returns m k t = Finishes-any _ (m k) (t.at k tt)

Total-block_in_send : (s : Sender) (brand l : ℕ) → Total (block_in_send s brand l)
unfolding block_in_send context_block_in_send interrupt_block_in_send agree_to_block
Total-block_in_send (task c t) brand l = search (ends, totals) depth 20
Total-block_in_send (irq i) brand l = search (ends, totals) depth 12
Total-block_in_send (reply r) brand l = search ends depth 3

take-Closed :
    (L : Links → Type 0) (l : ℕ) (s : Links) → Closed L → L s → Finishes (λ _ t. L t) (take l s)
take-Closed L l s closed h = take-unlink L l s h (λ it. closed.unlinked it s h)

-- What the reply to the message must do, for the sender to be answered.
abbrev Answerable : DeliverFrom → Message × Bank → Kernel → Type 0
Answerable call a t =
    Safe t
    × ((r : ReplySender) (u : Kernel) → IsFinal r → Safe u → Returns (send_reply call (a.1 0) r u))

Finishes-brand_now :
    (s : Sender) (brand : ℕ) (P : Kernel → Type 0) (k : Kernel)
    → P k
    → Finishes (λ _. P) (brand_now s brand k)
unfolding brand_now gets pure
Finishes-brand_now (task c t) brand P k h = h
Finishes-brand_now _ brand P k h = h

module _ (call : DeliverFrom) (fuel this brand : ℕ) (s : Sender) (k : Kernel)
    (taken : Finishes (Answerable call) (on_delivery (deliver_to fuel) s bank empty_bank k)) where
  converse-Returns :
      (o : Object) → (this ≡ 0 → o ≡ null) → Returns (converse call fuel (handler o) this brand s k)
  unfolding converse ◌>>=◌
  converse-Returns o z =
      Finishes-and_then (Answerable call) _ (on_delivery (deliver_to fuel) s bank empty_bank k) _
        taken
        λ a t q.
          Finishes-and_then (λ _. Answerable call a) _ (brand_now s brand t) _
            (Finishes-brand_now s brand (Answerable call a) t q)
            λ now t q.
              Finishes-and_then (λ r u. IsFinal r × Safe u) _ (handler o this now a.0 a.1 t) _
                (Finishes-Ensures _ (λ r u. IsFinal r × Safe u) (handler o this now a.0 a.1 t)
                  (Total-Returns _ t (Total-handler o this now a.0 a.1))
                  (Ensures-both (λ r _. IsFinal r) (λ _ u. Safe u) (handler o this now a.0 a.1 t)
                    ((Answers-handler o this now a.0 a.1).at t)
                    ((Handles-handler this o z now a.0 a.1).at t q.0)))
                λ r u p. q.1 r u p.0 p.1

  object-Returns :
      (o : Object)
      → (this ≡ 0 → o ≡ null)
      → Returns (pass_through fuel this brand s k)
      → Returns (accept_reply fuel this brand s k)
      → Returns (deliver_from_object call fuel o this brand s k)
  unfolding deliver_from_object handler
  object-Returns gate z passes accepts = elim (Bool-cases (has_top_bit brand)) [
    | inl e ↦ rw e passes
    | inr e ↦ rw e (converse-Returns gate z)
  ]
  object-Returns (context b) z passes accepts = elim (Bool-cases (has_top_bit brand)) [
    | inl e ↦ elim (Bool-cases (brand == b.expected_reply_brand)) [
      | inl f ↦ rw (e, f) accepts
      | inr f ↦ rw (e, f) (converse-Returns null (λ _. refl))
    ]
    | inr e ↦ rw e (converse-Returns (context b) z)
  ]
  object-Returns o z passes accepts = converse-Returns o z

-- The two ways past a protocol, for a sender whose delivery leaves the links in `L`.
module _ (L : Links → Type 0) (closed : Closed L) (fuel brand : ℕ) (s : Sender)
    (received : (c : ℕ)
      → Ends (On L) (On L) (complete_blocked_receive (deliver_to fuel) c brand s)) where
  Finishes-partner :
      (g : ℕ) (partner : Option ℕ) (k : Kernel)
      → On L k
      → Returns (
          maybe partner
            (block_in_send s brand (senders g))
            (λ it. complete_blocked_receive (deliver_to fuel) (owner it) brand s)
            k)
  unfolding maybe
  Finishes-partner g none k h = Total-Returns _ k (Total-block_in_send s brand (senders g))
  Finishes-partner g (some it) k h = Finishes-any _ _ ((received (owner it)).at k h)

  pass_through-Returns : (g : ℕ) (k : Kernel) → On L k → Returns (pass_through fuel g brand s k)
  unfolding pass_through ◌>>=◌ On on_lists
  pass_through-Returns g k h =
      Finishes-and_then (λ _. On L) _ (on_lists (take (receivers g)) k) _
        (with_lists-Finishes (λ _ t. L t) k _ (take-Closed L (receivers g) k.links closed h))
        (Finishes-partner g)

  accept_reply-Returns :
      (this : ℕ) (k : Kernel) → On L k → Returns (accept_reply fuel this brand s k)
  unfolding accept_reply advance_reply_brand
  accept_reply-Returns this k h =
      let ended : Ends (On L) (On L) (accept_reply fuel this brand s) =
        search (ends, received) depth 12 in
      Finishes-any _ _ (ended.at k h)

Total-complete_reply :
    (fuel c brand : ℕ) (r : ReplySender)
    → Total (complete_blocked_receive (deliver_to fuel) c brand (reply r))
unfolding complete_blocked_receive on_delivery reply_on_delivery brand_now
Total-complete_reply fuel c brand r = search (ends, totals) depth 12

-- A reply that asks for none is delivered, or panics, whatever calls would answer it.
module _ (call : DeliverFrom) (fuel : ℕ) (r : ReplySender) (final : IsFinal r) where
  reply-Answerable :
      (k : Kernel)
      → Safe k
      → Finishes (Answerable call) (on_delivery (deliver_to fuel) (reply r) bank empty_bank k)
  unfolding on_delivery reply_on_delivery copy_keys set_key map_index ◌>>=◌ pure
  reply-Answerable k h = (h, λ r' u _ safe. rw (send_reply-null call _ r' u final safe) tt)

  reply-Returns :
      (this brand : ℕ) (k : Kernel)
      → Safe k
      → Returns (deliver_from_object call fuel (object_at k this) this brand (reply r) k)
  unfolding On Any
  reply-Returns this brand k h =
      object-Returns call fuel this brand (reply r) k (reply-Answerable k h) (object_at k this)
        (λ e. rw (e, h.null_object))
        (pass_through-Returns Any Any-Closed fuel brand (reply r)
          (λ c. Total-complete_reply fuel c brand r) this k tt)
        (accept_reply-Returns Any Any-Closed fuel brand (reply r)
          (λ c. Total-complete_reply fuel c brand r) this k tt)

send_reply-Returns :
    (depth fuel : ℕ) (key : Key) (r : ReplySender) (k : Kernel)
    → IsFinal r
    → Safe k
    → Returns (send_reply (deliver_from (suc depth) fuel) key r k)
unfolding send_reply deliver_from dispatch ◌>>=◌ gets
send_reply-Returns depth fuel key r k final h =
    elim (Bool-cases (kind (object_at k (pointee (resolve k key))) == 0)) [
      | inl e ↦ rw e tt
      | inr e ↦ rw e (
          reply-Returns (deliver_from depth fuel) fuel r final (pointee (resolve k key))
            (resolve k key).brand k h)
    ]

module _ (n m fuel : ℕ) (lt : m < fuel) where
  pub delivered :
      (o brand c : ℕ) → Ends (On (Waiting n m)) (On (Waiting n m)) (deliver_to fuel o brand c)
  delivered o brand c = Ends-deliver_to n m fuel o brand c lt

  on_delivery-Answerable :
      (depth : ℕ) (s : Sender) (k : Kernel)
      → Safe k
      → On (Waiting n m) k
      → Finishes
          (Answerable (deliver_from (suc depth) fuel))
          (on_delivery (deliver_to fuel) s bank empty_bank k)
  on_delivery-Answerable depth s k h w =
      Finishes-map (λ _. Safe) _ _
        (Finishes-Ensures _ (λ _. Safe) _
          ((Ends-on_delivery (Waiting n m) (Waiting-Closed n m) (deliver_to fuel) delivered s bank
              empty_bank).at
            k w)
          ((Keeps-on_delivery (deliver_to fuel) (Keeps-deliver_to fuel) s bank empty_bank).at k h))
        λ a t safe. (safe, λ r u. send_reply-Returns depth fuel (a.1 0) r u)

  pub deliver_from-Returns :
      (depth this brand : ℕ) (s : Sender) (k : Kernel)
      → Safe k
      → On (Waiting n m) k
      → Returns (deliver_from (suc (suc depth)) fuel this brand s k)
  unfolding deliver_from dispatch
  deliver_from-Returns depth this brand s k h w =
      let received : (c : ℕ)
          → Ends (On (Waiting n m)) (On (Waiting n m))
              (complete_blocked_receive (deliver_to fuel) c brand s) =
        λ c.
          Ends-complete_blocked_receive (Waiting n m) (Waiting-Closed n m) (deliver_to fuel)
            delivered c brand s in
      object-Returns (deliver_from (suc depth) fuel) fuel this brand s k
        (on_delivery-Answerable depth s k h w) (object_at k this) (λ e. rw (e, h.null_object))
        (pass_through-Returns (Waiting n m) (Waiting-Closed n m) fuel brand s received this k w)
        (accept_reply-Returns (Waiting n m) (Waiting-Closed n m) fuel brand s received this k w)
