-- ===== src/Kernel/Settled/Delivery.antt =====
-- The invariant of Kernel/Settled through the delivery protocol, Kernel/Delivery, between objects that
-- are in use.
use brittle_kernel.Prelude.{ℕ, zero, suc, ◌≡◌, sym, Bool, true, Option, none, some}
use brittle_kernel.Run.{maybe, ◌>>=◌}
use brittle_kernel.Run.Keeps.{
  Keeps, Ensures, Ensures-map, Keeps-pure, Keeps-if, Keeps-exhausted, Keeps-bind_value,
}
use brittle_kernel.Abi.Exceptions.{Exception, bad_operation}
use brittle_kernel.Links
use brittle_kernel.Links.Laid.Operations.{take-Laid, insert-Laid, Given, Given-Laid, Rooted}
use brittle_kernel.Kernel.{
  Kernel, Key, Object, gate, context, interrupt, on_lists, Do, owner, ctx_item, sender_item,
  senders, receivers,
}
use brittle_kernel.Kernel.Delivery.{
  DeliverTo, Sender, task, irq, reply, complete_receive_exception, block_in_receive, block_in_reply,
  make_reply_key, receive_phase, context_on_delivery, interrupt_on_delivery, reply_on_delivery,
  on_delivery, brand_now, context_on_blocked_delivery, interrupt_on_blocked_delivery,
  on_blocked_delivery, blocked_delivery_of, deliver_to_object, complete_receive,
  complete_blocked_receive, complete_blocked_receive_exception, gate_deliver_to, context_deliver_to,
  deliver_to, agree_to_block, context_block_in_send, interrupt_block_in_send, block_in_send,
  on_blocked_delivery_aborted, put_save, has_top_bit,
}
use brittle_kernel.Kernel.Keys.{Bank, KeysRef}
use brittle_kernel.Kernel.Settled.{
  J, settled, Keeps-put_body, Keeps-put_interrupt, Keeps-dispatch, Keeps-on_lists,
  with_lists-Ensures, ctx_item-is_root, ctx_item-in_use, sender_item-is_root, sender_item-in_use,
  receivers-IsPlace, senders-IsPlace, senders-used, Keeps-gets,
}
use brittle_kernel.Kernel.Settled.Scheduler.{keeps, Keeps-make_runnable}

-- What was taken from a list belongs to an object in use.
abbrev Partner : (ℕ → Bool) → Option ℕ → Type 0
Partner live none = Unit {0}
Partner live (some it) = live (owner it) ≡ true

module _ (live E : ℕ → Bool) (n : ℕ) where
  pub Keeps-put_save : (c : ℕ) (f : (ℕ → ℕ) → ℕ → ℕ) → Keeps (J live E n) (put_save c f)
  Keeps-put_save c f = Keeps-put_body live E n c _

  pub Keeps-complete_receive_exception :
      (c : ℕ) (e : Exception) (p : ℕ) → Keeps (J live E n) (complete_receive_exception c e p)
  unfolding complete_receive_exception
  Keeps-complete_receive_exception c e p = Keeps-put_save c _

  Keeps-insert_receiver :
      (p g c : ℕ)
      → live g ≡ true
      → live c ≡ true
      → Keeps (J live E n) (on_lists (Links.insert p (receivers g) (ctx_item c)))
  Keeps-insert_receiver p g c ug uc = Keeps-on_lists live E n _ λ s l.
      insert-Laid live s l (ctx_item c) (ctx_item-is_root c) (ctx_item-in_use live c uc) p _
        (receivers-IsPlace live g c ug)

  Keeps-insert_sender :
      (p g c : ℕ)
      → live g ≡ true
      → live c ≡ true
      → Keeps (J live E n) (on_lists (Links.insert p (senders g) (sender_item c)))
  Keeps-insert_sender p g c ug uc = Keeps-on_lists live E n _ λ s l.
      insert-Laid live s l (sender_item c) (sender_item-is_root c) (sender_item-in_use live c uc) p
        _ (senders-IsPlace live g c ug)

  Keeps-block_in_receive :
      (c g : ℕ)
      → live g ≡ true
      → live c ≡ true
      → Keeps (J live E n) (block_in_receive c (receivers g))
  unfolding block_in_receive
  Keeps-block_in_receive c g ug uc = search (keeps, Keeps-insert_receiver) depth 12

  Keeps-block_in_reply : (c : ℕ) → Keeps (J live E n) (block_in_reply c)
  unfolding block_in_reply
  Keeps-block_in_reply c = search keeps depth 9

  Keeps-make_reply_key : (c : ℕ) → Keeps (J live E n) (make_reply_key c)
  unfolding make_reply_key
  Keeps-make_reply_key c = search keeps depth 9

  taken-Partner : (o : Option ℕ) (s : Links.Links) → Given live o s → Partner live o
  unfolding owner
  taken-Partner none s h = tt
  taken-Partner (some it) s h = h.0

  Keeps-Partner :
      {B : Type 0} (o : Option ℕ) (m : Do B) (f : ℕ → Do B)
      → Partner live o
      → Keeps (J live E n) m
      → ((it : ℕ) → live (owner it) ≡ true → Keeps (J live E n) (f it))
      → Keeps (J live E n) (maybe o m f)
  unfolding maybe
  Keeps-Partner none m f p km kf = km
  Keeps-Partner (some it) m f p km kf = kf it p

  taken-Ensures :
      (l : ℕ) (k : Kernel)
      → Rooted live l
      → J live E n k
      → Ensures (λ o t. Partner live o × J live E n t) (on_lists (Links.take l) k)
  unfolding on_lists
  taken-Ensures l k rooted h =
      Ensures-map (λ o t. Given live o t.links × J live E n t)
        (λ o t. Partner live o × J live E n t) _
        (with_lists-Ensures live E n (Given live) k _ (take-Laid live k.links h.lists l rooted)
          (Given-Laid live) h)
        λ o t p. (taken-Partner o t.links p.0, p.1)

  -- A list of an object in use is taken from.
  pub Keeps-taken :
      {B : Type 0} (l : ℕ) (m : Do B) (f : ℕ → Do B)
      → Rooted live l
      → Keeps (J live E n) m
      → ((it : ℕ) → live (owner it) ≡ true → Keeps (J live E n) (f it))
      → Keeps (J live E n) (on_lists (Links.take l) >>= λ partner. maybe partner m f)
  Keeps-taken l m f rooted km kf =
      Keeps-bind_value (J live E n) (Partner live) _ _ (λ k h. taken-Ensures l k rooted h)
        (λ o p. Keeps-Partner o m f p km kf)

  -- Who sends is in use.
  abbrev pub Sends : Sender → Type 0
  Sends (task c t) = live c ≡ true
  Sends (irq i) = live i ≡ true
  Sends (reply r) = Unit {0}

  -- The rules for code that takes the call of `deliver_to` as an argument.
  module _ (call : DeliverTo)
      (kept : (o brand c : ℕ) → live c ≡ true → Keeps (J live E n) (call o brand c)) where
    Keeps-receive_phase :
        (c d : ℕ) (k0 : Key) → live c ≡ true → Keeps (J live E n) (receive_phase call c d k0)
    unfolding receive_phase
    Keeps-receive_phase c d k0 u = search (keeps, kept) depth 9

    Keeps-context_on_delivery :
        (c : ℕ) (dest : KeysRef) (b : Bank)
        → live c ≡ true
        → Keeps (J live E n) (context_on_delivery call c dest b)
    unfolding context_on_delivery
    Keeps-context_on_delivery c dest b u =
        search (keeps, Keeps-receive_phase, Keeps-make_reply_key) depth 20

    Keeps-interrupt_on_delivery :
        (i : ℕ) (dest : KeysRef) (b : Bank)
        → Keeps (J live E n) (interrupt_on_delivery call i dest b)
    unfolding interrupt_on_delivery
    Keeps-interrupt_on_delivery i dest b = search keeps depth 20

    pub Keeps-on_delivery :
        (s : Sender) (dest : KeysRef) (b : Bank)
        → Sends s
        → Keeps (J live E n) (on_delivery call s dest b)
    unfolding on_delivery reply_on_delivery
    Keeps-on_delivery (task c t) dest b u = Keeps-context_on_delivery c dest b u
    Keeps-on_delivery (irq i) dest b u = Keeps-interrupt_on_delivery i dest b
    Keeps-on_delivery (reply r) dest b u = search keeps depth 9

    Keeps-context_blocked :
        (s : ℕ) (dest : KeysRef)
        → live s ≡ true
        → Keeps (J live E n) (context_on_blocked_delivery call s dest)
    unfolding context_on_blocked_delivery
    Keeps-context_blocked s dest u =
        search (keeps, Keeps-context_on_delivery, Keeps-make_runnable) depth 9

    Keeps-blocked_delivery_of :
        (o : Object) (s : ℕ) (dest : KeysRef)
        → live s ≡ true
        → Keeps (J live E n) (blocked_delivery_of call o s dest)
    unfolding blocked_delivery_of interrupt_on_blocked_delivery
    Keeps-blocked_delivery_of (interrupt b) s dest u =
        search (keeps, Keeps-interrupt_on_delivery) depth 9
    Keeps-blocked_delivery_of _ s dest u = Keeps-context_blocked s dest u

    Keeps-on_blocked_delivery :
        (s : ℕ) (dest : KeysRef)
        → live s ≡ true
        → Keeps (J live E n) (on_blocked_delivery call s dest)
    unfolding on_blocked_delivery
    Keeps-on_blocked_delivery s dest u =
        Keeps-dispatch live E n s _ (λ o _. Keeps-blocked_delivery_of o s dest u)

    Keeps-complete_receive :
        (c partner : ℕ) → live partner ≡ true → Keeps (J live E n) (complete_receive call c partner)
    unfolding complete_receive
    Keeps-complete_receive c partner u = search (keeps, Keeps-on_blocked_delivery) depth 9

    pub Keeps-brand_now : (s : Sender) (brand : ℕ) → Keeps (J live E n) (brand_now s brand)
    unfolding brand_now
    Keeps-brand_now (task c t) brand = Keeps-gets live E n _
    Keeps-brand_now _ brand = Keeps-pure _ brand

    pub Keeps-complete_blocked_receive :
        (c brand : ℕ) (s : Sender)
        → live c ≡ true
        → Sends s
        → Keeps (J live E n) (complete_blocked_receive call c brand s)
    unfolding complete_blocked_receive
    Keeps-complete_blocked_receive c brand s u us =
        search (keeps, Keeps-make_runnable, Keeps-on_delivery, Keeps-brand_now) depth 12

    Keeps-gate_deliver_to :
        (g brand c : ℕ)
        → live g ≡ true
        → live c ≡ true
        → Keeps (J live E n) (gate_deliver_to call g brand c)
    unfolding gate_deliver_to
    Keeps-gate_deliver_to g brand c ug uc =
        Keeps-if _ (has_top_bit brand) _ _ (Keeps-complete_receive_exception c bad_operation 0) (
          Keeps-taken (senders g) _ _ (λ q lt. senders-used live g q lt ug)
            (Keeps-block_in_receive c g ug uc) (λ it u. Keeps-complete_receive c (owner it) u))

    Keeps-deliver_to_object :
        (object : Object) (o brand c : ℕ)
        → settled object ≡ live o
        → live c ≡ true
        → Keeps (J live E n) (deliver_to_object call object o brand c)
    unfolding deliver_to_object context_deliver_to settled
    Keeps-deliver_to_object gate o brand c e u = Keeps-gate_deliver_to o brand c (sym e) u
    Keeps-deliver_to_object (context b) o brand c e u = search (keeps, Keeps-block_in_reply) depth 9
    Keeps-deliver_to_object _ o brand c e u = Keeps-complete_receive_exception c bad_operation 0

  pub Keeps-deliver_to :
      (fuel o brand c : ℕ) → live c ≡ true → Keeps (J live E n) (deliver_to fuel o brand c)
  unfolding deliver_to
  Keeps-deliver_to zero o brand c u = Keeps-exhausted _
  Keeps-deliver_to (suc fuel) o brand c u = Keeps-dispatch live E n o _ (λ object e.
      Keeps-deliver_to_object (deliver_to fuel) (Keeps-deliver_to fuel) object o brand c e u)

  pub Keeps-block_in_send :
      (s : Sender) (brand g : ℕ)
      → Sends s
      → live g ≡ true
      → Keeps (J live E n) (block_in_send s brand (senders g))
  unfolding block_in_send context_block_in_send interrupt_block_in_send agree_to_block
  Keeps-block_in_send (task c t) brand g us ug = search (keeps, Keeps-insert_sender) depth 20
  Keeps-block_in_send (irq i) brand g us ug =
      search (keeps, Keeps-insert_sender, Keeps-put_interrupt) depth 9
  Keeps-block_in_send (reply r) brand g us ug = Keeps-pure _ tt

  pub Keeps-on_blocked_delivery_aborted :
      (c : ℕ) → live c ≡ true → Keeps (J live E n) (on_blocked_delivery_aborted c)
  unfolding on_blocked_delivery_aborted
  Keeps-on_blocked_delivery_aborted c u = search (keeps, Keeps-make_runnable) depth 9

  pub Keeps-complete_blocked_receive_exception :
      (c : ℕ) (e : Exception) (p : ℕ)
      → live c ≡ true
      → Keeps (J live E n) (complete_blocked_receive_exception c e p)
  unfolding complete_blocked_receive_exception
  Keeps-complete_blocked_receive_exception c e p u = search (keeps, Keeps-make_runnable) depth 9
