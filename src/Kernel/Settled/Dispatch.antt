-- ===== src/Kernel/Settled/Dispatch.antt =====
-- The invariant of Kernel/Settled through the sending of messages and the entries of the kernel.
use brittle_kernel.Kernel.Keys.{Bank}
use brittle_kernel.Abi.Message.{Message}
use brittle_kernel.Prelude.{
  ℕ, zero, suc, ◌≤◌, ◌<◌, ◌≡◌, ◌≢◌, sym, Bool, true, ◌==◌, ltb, Bool-cases, inl, inr, arith,
}
use brittle_kernel.Run.{exhausted}
use brittle_kernel.Run.Keeps.{
  Keeps, Leads, Keeps-pure, Leads-Keeps, Leads-bind, Leads-from, Leads-if,
}
use brittle_kernel.Kernel.{
  Key, Object, null, object_table, memory, context, gate, interrupt, Do, dispatch, object_at,
  receivers, owner, MemoryHead,
}
use brittle_kernel.Kernel.Delivery.{Sender, reply, ReplySender, deliver_to, has_top_bit}
use brittle_kernel.Kernel.Dispatch.{
  gate_handler, interrupt_handler, handler, DeliverFrom, send_reply, converse, pass_through,
  accept_reply, deliver_from_object, deliver_from,
}
use brittle_kernel.Kernel.Protocol.{Handler}
use brittle_kernel.Kernel.Protocol.Context.{context_handler}
use brittle_kernel.Kernel.Settled.{J, settled, Keeps-gets, Keeps-put_interrupt, receivers-used}
use brittle_kernel.Kernel.Settled.Creation.{Sound, Settled-Sound, live_at}
use brittle_kernel.Kernel.Settled.Delivery.{
  Sends, Keeps-taken, Keeps-deliver_to, Keeps-on_delivery, Keeps-complete_blocked_receive,
  Keeps-block_in_send, Keeps-brand_now,
}
use brittle_kernel.Kernel.Settled.MemoryProtocol.{Leads-memory}
use brittle_kernel.Kernel.Settled.Objects.{Keeps-clear_pending, Keeps-enable_interrupt}
use brittle_kernel.Kernel.Settled.Protocols.{
  Handles, Handles-context, Handles-object_table, Keeps-with_new_key,
}
use brittle_kernel.Kernel.Settled.Scheduler.{keeps}

module _ (live : ℕ → Bool) (n this : ℕ) where
  Handles-gate : Handles live live n this gate_handler
  unfolding gate_handler
  Handles-gate brand m keys = search (keeps, Keeps-with_new_key) depth 9

  Handles-interrupt : Handles live live n this interrupt_handler
  unfolding interrupt_handler
  Handles-interrupt brand m keys =
      search (keeps, Keeps-put_interrupt, Keeps-clear_pending, Keeps-enable_interrupt) depth 12

  kept : {A : Type 0} (m : Do A) → Keeps (J live live n) m → Leads (J live live n) (Sound n) m
  kept m km = Leads-Keeps _ _ m (Settled-Sound live n) km

  -- What the kind of an object says of its index: it is in use or not, and within the table.
  abbrev Fits : Object → Type 0
  Fits o = (settled o ≡ live this) × (n ≤ this → o ≡ null)

  memory-within : (m : MemoryHead) → (n ≤ this → memory m ≡ null) → this < n
  memory-within m f = elim (Bool-cases (ltb this n)) [
    | inl t ↦ ground (arith, t)
    | inr t ↦ absurd (memory-ne m (f (ground (arith, t))))
  ]
    where
      memory-ne : (m : MemoryHead) → memory m ≢ null
      memory-ne m e = cc

  Handles-null : Handles live live n this (handler null)
  unfolding handler
  Handles-null brand m keys = Keeps-pure _ _

  Leads-handler :
      (o : Object) (brand : ℕ) (m : Message) (keys : Bank)
      → Fits o
      → Leads (J live live n) (Sound n) (handler o this brand m keys)
  unfolding handler settled
  Leads-handler object_table brand m keys f =
      kept _ (Handles-object_table live live n this brand m keys)
  Leads-handler (memory h) brand m keys f =
      Leads-memory live n this (sym f.0) (memory-within h f.1) brand m keys
  Leads-handler (context b) brand m keys f =
      kept _ (Handles-context live live n this (sym f.0) brand m keys)
  Leads-handler gate brand m keys f = kept _ (Handles-gate brand m keys)
  Leads-handler (interrupt b) brand m keys f = kept _ (Handles-interrupt brand m keys)
  Leads-handler _ brand m keys f = kept _ (Keeps-pure _ _)

-- A message from a sender that is in use.
abbrev Delivers : ℕ → DeliverFrom → Type 0
Delivers n call =
    (live : ℕ → Bool) (this brand : ℕ) (s : Sender)
    → Sends live live n s
    → Leads (J live live n) (Sound n) (call this brand s)

module _ (n : ℕ) (call : DeliverFrom) (delivers : Delivers n call) where
  -- The kernel replies when the handler is done, whatever it put in use.
  Keeps-send_reply : (key : Key) (r : ReplySender) → Keeps (Sound n) (send_reply call key r)
  unfolding send_reply
  Keeps-send_reply key r = record {
    at = λ k h.
        (Leads-bind _ _ _ _ (Keeps-gets (live_at k) (live_at k) n _) λ key'.
            Leads-bind _ _ _ _ (Keeps-gets (live_at k) (live_at k) n _) λ kind'.
              Leads-if _ _ _ _ _ (kept (live_at k) n 0 _ (Keeps-pure _ tt))
                (delivers (live_at k) _ _ (reply r) tt)).at
          k h;
  }

  module _ (live : ℕ → Bool) (this : ℕ) where
    Leads-converse :
        (fuel brand : ℕ) (handle : Handler) (s : Sender)
        → Sends live live n s
        → ((now : ℕ) (m : Message) (keys : Bank)
            → Leads (J live live n) (Sound n) (handle this now m keys))
        → Leads (J live live n) (Sound n) (converse call fuel handle this brand s)
    unfolding converse
    Leads-converse fuel brand handle s us handles =
        Leads-bind _ _ _ _
          (Keeps-on_delivery live live n (deliver_to fuel) (Keeps-deliver_to live live n fuel) s _ _
            us)
          λ (m, keys).
            Leads-bind _ _ _ _
              (Keeps-brand_now live live n (deliver_to fuel) (Keeps-deliver_to live live n fuel) s
                brand)
              λ now.
                Leads-from _ _ (Sound n) _ _ (handles now m keys)
                  λ r. Leads-Keeps _ _ _ (λ k h. h) (Keeps-send_reply (keys 0) r)

    Keeps-pass_through :
        (fuel brand : ℕ) (s : Sender)
        → live this ≡ true
        → Sends live live n s
        → Keeps (J live live n) (pass_through fuel this brand s)
    unfolding pass_through
    Keeps-pass_through fuel brand s u us =
        Keeps-taken live live n (receivers this) _ _ (λ q lt. receivers-used live this q lt u)
          (Keeps-block_in_send live live n s brand this us u)
          (λ it ui.
            Keeps-complete_blocked_receive live live n (deliver_to fuel)
              (Keeps-deliver_to live live n fuel) (owner it) brand s ui us)

    Keeps-accept_reply :
        (fuel brand : ℕ) (s : Sender)
        → live this ≡ true
        → Sends live live n s
        → Keeps (J live live n) (accept_reply fuel this brand s)
    unfolding accept_reply
    Keeps-accept_reply fuel brand s u us =
        search (keeps, Keeps-complete_blocked_receive, Keeps-deliver_to) depth 12

    Leads-deliver_from_object :
        (fuel brand : ℕ) (o : Object) (s : Sender)
        → Fits live n this o
        → Sends live live n s
        → Leads (J live live n) (Sound n) (deliver_from_object call fuel o this brand s)
    unfolding deliver_from_object settled
    Leads-deliver_from_object fuel brand gate s f us =
        Leads-if _ _ (has_top_bit brand) _ _
          (kept live n this _ (Keeps-pass_through fuel brand s (sym f.0) us))
          (Leads-converse fuel brand gate_handler s us
            (λ now m keys. kept live n this _ (Handles-gate live n this now m keys)))
    Leads-deliver_from_object fuel brand (context b) s f us =
        Leads-if _ _ (has_top_bit brand) _ _
          (Leads-if _ _ (brand == b.expected_reply_brand) _ _
            (kept live n this _ (Keeps-accept_reply fuel brand s (sym f.0) us))
            (Leads-converse fuel brand (handler null) s us
              (λ now m keys. kept live n this _ (Handles-null live n this now m keys))))
          (Leads-converse fuel brand context_handler s us (λ now m keys.
            kept live n this _ (Handles-context live live n this (sym f.0) now m keys)))
    Leads-deliver_from_object fuel brand o s f us =
        Leads-converse fuel brand (handler o) s us
          (λ now m keys. Leads-handler live n this o now m keys f)

pub Delivers-deliver_from : (depth fuel n : ℕ) → Delivers n (deliver_from depth fuel)
unfolding deliver_from dispatch exhausted
Delivers-deliver_from zero fuel n live this brand s us = record { at = λ k h. tt }
Delivers-deliver_from (suc depth) fuel n live this brand s us = record {
  at = λ k h.
      (Leads-deliver_from_object n (deliver_from depth fuel) (Delivers-deliver_from depth fuel n)
          live this fuel brand (object_at k this) s (h.kinds this, h.beyond this) us).at
        k h;
}
