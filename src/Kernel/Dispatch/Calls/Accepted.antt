-- ===== src/Kernel/Dispatch/Calls/Accepted.antt =====
-- A reply that arrives at the context that waits for it: Context::deliver_from under the expected reply
-- brand.
use brittle_kernel.Prelude.{ℕ, suc, ◌<◌, ◌≡◌, refl, arith, true}
use brittle_kernel.Run.{panic_unless, ◌>>◌, pure, ◌>>=◌}
use brittle_kernel.Run.Returns.{Runs, Runs-bind, Runs-bind_value, Runs-then}
use brittle_kernel.Abi.Message.{Message}
use brittle_kernel.Abi.Sizes.{n_priorities, n_message_keys}
use brittle_kernel.Kernel.{
  ContextBody, receiving, runnable, gets, dispatch, r11, put_message, put_brand, modify,
}
use brittle_kernel.Kernel.Delivery.{
  ReplySender, reply, DeliverTo, deliver_to, has_top_bit, complete_blocked_receive, on_delivery,
  reply_on_delivery, put_save, brand_now,
}
use brittle_kernel.Kernel.Dispatch.{deliver_from, deliver_from_object, accept_reply}
use brittle_kernel.Kernel.Dispatch.Calls.Answers.{
  At, stored_from, Waits, Runs-put, Runs-copy_keys, Runs-gets, Runs-put_waiting, Runs-make_runnable,
  awaiting,
}
use brittle_kernel.Kernel.Keys.{empty_bank, registers, receive_keys}
use brittle_kernel.Kernel.Objects.{advance_reply_brand, next_reply_brand}

-- The body of a context whose receive a reply completes: the keys go to the registers that its map
-- names, the message and the brand to its saved registers.
abbrev pub delivered : ReplySender → ℕ → ContextBody → ContextBody
delivered r brand b =
    let b' = stored_from n_message_keys 0 (b.save r11) r.keys (record b { state = runnable }) in
    record b' { save = put_brand brand (put_message r.message b'.save) }

-- The next call is to be replied to under a new brand.
abbrev pub renewed : ContextBody → ContextBody
renewed b = record b { expected_reply_brand = next_reply_brand b.expected_reply_brand }

module _ (call : DeliverTo) (c : ℕ) (r : ReplySender) where
  Runs-on_delivery :
      (map : ℕ) (b : ContextBody)
      → Runs
          (At c b)
          (λ mb k. (mb.0 ≡ r.message) × At c (stored_from n_message_keys 0 map r.keys b) k)
          (on_delivery call (reply r) (registers c map) empty_bank)
  unfolding on_delivery reply_on_delivery pure
  Runs-on_delivery map b =
      Runs-bind _ _ (λ _. At c (stored_from n_message_keys 0 map r.keys b)) _ _
        (Runs-copy_keys c n_message_keys 0 map r.keys empty_bank b)
        (λ bank. record { at = λ k at. (refl, at) })

  Runs-put_reply :
      (brand : ℕ) (m : Message) (b : ContextBody)
      → Runs
          (At c b)
          (λ _. At c (record b { save = put_brand brand (put_message m b.save) }))
          (put_save c (put_message m) >> put_save c (put_brand brand))
  Runs-put_reply brand m b =
      Runs-then _ _ (At c (record b { save = put_message m b.save })) _ _
        (Runs-put c b (λ x. record x { save = put_message m x.save }))
        (Runs-put c (record b { save = put_message m b.save })
          (λ x. record x { save = put_brand brand x.save }))

  Runs-complete_blocked_receive :
      (brand : ℕ) (b : ContextBody)
      → b.priority < n_priorities
      → Runs
          (Waits c b)
          (λ _. At c (delivered r brand b))
          (complete_blocked_receive call c brand (reply r))
  unfolding complete_blocked_receive receive_keys brand_now pure modify ◌>>=◌
  Runs-complete_blocked_receive brand b lt =
      let made = record b { state = runnable } in
      let stored = stored_from n_message_keys 0 (b.save r11) r.keys made in
      Runs-then _ _ (At c made) _ _ (Runs-make_runnable c b lt) (
        Runs-bind_value _ _ (At c made) (registers c (b.save r11)) _ _
          (Runs-gets c made _ _ (λ k at. rw at refl))
          (Runs-bind _ _ _ _ _ (Runs-on_delivery (b.save r11) made) (λ mb. record {
            at = λ k (e, at). rw e ((Runs-put_reply brand r.message stored).at k at);
          })))

module _ (c : ℕ) (r : ReplySender) (b : ContextBody) (state : b.state ≡ receiving)
    (bound : b.priority < n_priorities) where
  Runs-accept_reply :
      (fuel brand : ℕ)
      → Runs
          (Waits c b)
          (λ _. At c (delivered r brand (renewed b)))
          (accept_reply fuel c brand (reply r))
  unfolding accept_reply advance_reply_brand panic_unless gets
  Runs-accept_reply fuel brand =
      Runs-then _ _ (Waits c (renewed b)) _ _ (Runs-put_waiting c b renewed) (
        Runs-bind_value _ _ (Waits c (renewed b)) true _ _
          (record { at = λ k w. (awaiting c (renewed b) k w state, w) })
          (Runs-then _ _ (Waits c (renewed b)) _ _ (record { at = λ k w. w })
            (Runs-complete_blocked_receive (deliver_to fuel) c r brand (renewed b) bound)))

  pub Runs-deliver_from :
      (depth fuel : ℕ)
      → has_top_bit b.expected_reply_brand ≡ true
      → Runs
          (Waits c b)
          (λ _. At c (delivered r b.expected_reply_brand (renewed b)))
          (deliver_from (suc depth) fuel c b.expected_reply_brand (reply r))
  unfolding deliver_from dispatch deliver_from_object
  Runs-deliver_from depth fuel top = record {
    at = λ k w.
        rw (w.here, top) (ground (arith, (Runs-accept_reply fuel b.expected_reply_brand).at k w));
  }
