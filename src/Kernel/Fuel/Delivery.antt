-- ===== src/Kernel/Fuel/Delivery.antt =====
-- Delivery on enough fuel, through Kernel/Delivery.
use brittle_kernel.Prelude.{ℕ, zero, suc, ◌-◌, ◌<◌, ◌≤◌, Option, none, some, arith}
use brittle_kernel.Abi.Exceptions.{Exception, bad_operation}
use brittle_kernel.Run.{maybe, ◌>>=◌}
use brittle_kernel.Run.Ends.{Ends, Finishes, Finishes-map, Finishes-and_then, Ends-if}
use brittle_kernel.Links.{Links, take}
use brittle_kernel.Links.Waiting.{Waiting, Taken, unlink-Waiting, insert-Waiting, take-Waiting}
use brittle_kernel.Links.Woven.{senders-is_sender}
use brittle_kernel.Kernel.{
  Kernel, Key, Object, gate, context, interrupt, on_lists, senders, receivers, owner,
}
use brittle_kernel.Kernel.Delivery.{
  DeliverTo, Sender, task, irq, reply, complete_receive_exception, block_in_receive, block_in_reply,
  make_reply_key, receive_phase, context_on_delivery, interrupt_on_delivery, reply_on_delivery,
  on_delivery, brand_now, context_on_blocked_delivery, interrupt_on_blocked_delivery,
  on_blocked_delivery, blocked_delivery_of, deliver_to_object, complete_receive,
  complete_blocked_receive, gate_deliver_to, context_deliver_to, deliver_to, put_save, has_top_bit,
}
use brittle_kernel.Kernel.Fuel.{
  On, Closed, ends, with_lists-Finishes, Ends-put_body, Ends-dispatch, Ends-unlink_item,
  Ends-insert_receiver, Ends-make_runnable, Ends-gets, Ends-pure,
}
use brittle_kernel.Kernel.Keys.{Bank, KeysRef}

module _ (L : Links → Type 0) where
  pub Ends-brand_now : (s : Sender) (brand : ℕ) → Ends (On L) (On L) (brand_now s brand)
  unfolding brand_now
  Ends-brand_now (task c t) brand = Ends-gets L _
  Ends-brand_now _ brand = Ends-pure _ brand

  pub Ends-put_save : (c : ℕ) (f : (ℕ → ℕ) → ℕ → ℕ) → Ends (On L) (On L) (put_save c f)
  Ends-put_save c f = Ends-put_body L c _

  pub Ends-complete_receive_exception :
      (c : ℕ) (e : Exception) (p : ℕ) → Ends (On L) (On L) (complete_receive_exception c e p)
  unfolding complete_receive_exception
  Ends-complete_receive_exception c e p = Ends-put_save c _

  Ends-make_reply_key : (c : ℕ) → Ends (On L) (On L) (make_reply_key c)
  unfolding make_reply_key
  Ends-make_reply_key c = search ends depth 9

module _ (L : Links → Type 0) (closed : Closed L) where
  Ends-block_in_receive : (c g : ℕ) → Ends (On L) (On L) (block_in_receive c (receivers g))
  unfolding block_in_receive
  Ends-block_in_receive c g = search (ends, Ends-unlink_item, Ends-insert_receiver) depth 12

  Ends-block_in_reply : (c : ℕ) → Ends (On L) (On L) (block_in_reply c)
  unfolding block_in_reply
  Ends-block_in_reply c = search (ends, Ends-unlink_item) depth 9

-- The rules for code that takes the call of `deliver_to` as an argument.
module _ (L : Links → Type 0) (closed : Closed L) (call : DeliverTo)
    (returns : (o brand c : ℕ) → Ends (On L) (On L) (call o brand c)) where
  Ends-receive_phase : (c d : ℕ) (k0 : Key) → Ends (On L) (On L) (receive_phase call c d k0)
  unfolding receive_phase
  Ends-receive_phase c d k0 = search (ends, returns) depth 9

  Ends-context_on_delivery :
      (c : ℕ) (dest : KeysRef) (b : Bank) → Ends (On L) (On L) (context_on_delivery call c dest b)
  unfolding context_on_delivery
  Ends-context_on_delivery c dest b =
      search (ends, Ends-receive_phase, Ends-make_reply_key) depth 20

  Ends-interrupt_on_delivery :
      (i : ℕ) (dest : KeysRef) (b : Bank) → Ends (On L) (On L) (interrupt_on_delivery call i dest b)
  unfolding interrupt_on_delivery
  Ends-interrupt_on_delivery i dest b = search ends depth 20

  pub Ends-on_delivery :
      (s : Sender) (dest : KeysRef) (b : Bank) → Ends (On L) (On L) (on_delivery call s dest b)
  unfolding on_delivery reply_on_delivery
  Ends-on_delivery (task c t) dest b = Ends-context_on_delivery c dest b
  Ends-on_delivery (irq i) dest b = Ends-interrupt_on_delivery i dest b
  Ends-on_delivery (reply r) dest b = search ends depth 9

  Ends-blocked_delivery_of :
      (o : Object) (s : ℕ) (dest : KeysRef) → Ends (On L) (On L) (blocked_delivery_of call o s dest)
  unfolding blocked_delivery_of context_on_blocked_delivery interrupt_on_blocked_delivery
  Ends-blocked_delivery_of (interrupt b) s dest = search (ends, Ends-interrupt_on_delivery) depth 9
  Ends-blocked_delivery_of _ s dest =
      search (ends, Ends-context_on_delivery, Ends-make_runnable) depth 9

  Ends-complete_receive : (c partner : ℕ) → Ends (On L) (On L) (complete_receive call c partner)
  unfolding complete_receive on_blocked_delivery
  Ends-complete_receive c partner = search (ends, Ends-dispatch, Ends-blocked_delivery_of) depth 9

  pub Ends-complete_blocked_receive :
      (c brand : ℕ) (s : Sender) → Ends (On L) (On L) (complete_blocked_receive call c brand s)
  unfolding complete_blocked_receive
  Ends-complete_blocked_receive c brand s =
      search (ends, Ends-make_runnable, Ends-on_delivery, Ends-brand_now) depth 9

pub Waiting-Closed : (n m : ℕ) → Closed (Waiting n m)
Waiting-Closed n m = record { unlinked = unlink-Waiting n m; inserted = insert-Waiting n m }

module _ (n m : ℕ) (call : DeliverTo)
    (returns : (l : ℕ)
      → suc l ≤ m
      → (o brand c : ℕ) → Ends (On (Waiting n l)) (On (Waiting n l)) (call o brand c)) where
  -- What follows `take`: a sender that was taken leaves one fewer.
  Finishes-Taken :
      (g receiver : ℕ) (partner : Option ℕ) (k : Kernel)
      → Taken n m partner k.links
      → Finishes
          (λ _ t. On (Waiting n m) t)
          (maybe partner
            (block_in_receive receiver (receivers g))
            (λ it. complete_receive call receiver (owner it))
            k)
  unfolding maybe On
  Finishes-Taken g receiver none k w =
      (Ends-block_in_receive (Waiting n m) (Waiting-Closed n m) receiver g).at k w
  Finishes-Taken g receiver (some it) k (lt, w) =
      Finishes-map (λ _. On (Waiting n (m - 1))) (λ _. On (Waiting n m)) _
        ((Ends-complete_receive (Waiting n (m - 1)) (Waiting-Closed n (m - 1)) call
            (returns (m - 1) (omega arith)) receiver (owner it)).at
          k w)
        λ a s w'. (w'.0, omega (arith, w'.1))

  Ends-gate_deliver_to :
      (g brand receiver : ℕ)
      → Ends (On (Waiting n m)) (On (Waiting n m)) (gate_deliver_to call g brand receiver)
  unfolding gate_deliver_to ◌>>=◌ On on_lists
  Ends-gate_deliver_to g brand receiver =
      Ends-if (On (Waiting n m)) _ (has_top_bit brand) _ _
        (Ends-complete_receive_exception (Waiting n m) receiver bad_operation 0)
        (record {
          at = λ k w.
              Finishes-and_then _ _ (on_lists (take (senders g)) k) _
                (with_lists-Finishes (Taken n m) k _
                  (take-Waiting n m (senders g) k.links w (senders-is_sender g)))
                (Finishes-Taken g receiver);
        })

  Ends-deliver_to_object :
      (object : Object) (o brand c : ℕ)
      → Ends (On (Waiting n m)) (On (Waiting n m)) (deliver_to_object call object o brand c)
  unfolding deliver_to_object context_deliver_to
  Ends-deliver_to_object gate o brand c = Ends-gate_deliver_to o brand c
  Ends-deliver_to_object (context b) o brand c =
      let closed = Waiting-Closed n m in search (ends, Ends-block_in_reply) depth 9
  Ends-deliver_to_object _ o brand c =
      Ends-complete_receive_exception (Waiting n m) c bad_operation 0

-- Fuel for one more than the senders that wait is enough for `deliver_to`.
pub Ends-deliver_to :
    (n m fuel o brand c : ℕ)
    → m < fuel
    → Ends (On (Waiting n m)) (On (Waiting n m)) (deliver_to fuel o brand c)
unfolding deliver_to
Ends-deliver_to n m zero o brand c lt = absurd (omega (arith, lt))
Ends-deliver_to n m (suc fuel) o brand c lt = Ends-dispatch (Waiting n m) o _ λ object.
    Ends-deliver_to_object n m (deliver_to fuel)
      (λ l le o' brand' c'. Ends-deliver_to n l fuel o' brand' c' (omega (arith, lt, le))) object o
      brand c
