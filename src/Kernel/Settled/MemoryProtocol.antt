-- ===== src/Kernel/Settled/MemoryProtocol.antt =====
-- The invariant of Kernel/Settled through the Memory protocol: `split` and `make_child` put memory
-- over memory and slots, and `become` puts another object in use.
use brittle_kernel.Kernel.Scheduler.{apply_current}
use brittle_kernel.Kernel.Memory.{unshared, occupy, destroy_memory, contains}
use brittle_kernel.Prelude.{
  ℕ, ◌<◌, ◌≡◌, refl, sym, Bool, true, false, Option, none, some, ◌==◌, Bool-cases, inl, inr, arith,
  ltb, not, ◌||◌,
}
use brittle_kernel.Run.{pure, maybe, ◌>>=◌, ◌>>◌}
use brittle_kernel.Run.Keeps.{
  Keeps, Ensures, Leads, Keeps-bind, Keeps-pure, Keeps-if, Keeps-fail, Keeps-bind_value,
  Leads-Keeps, Leads-bind, Leads-then, Leads-if,
}
use brittle_kernel.Abi.Message.{Message}
use brittle_kernel.Kernel.{
  Kernel, Object, null, slot, memory, context, gate, interrupt, object_table, object_at, gets, kind,
  Do,
}
use brittle_kernel.Kernel.Delivery.{ReplySender}
use brittle_kernel.Kernel.Keys.{Bank, resolve, pointee}
use brittle_kernel.Kernel.Protocol.{empty_reply, with_new_key}
use brittle_kernel.Kernel.Protocol.Memory.{
  do_inspect, refuses_change, do_change, commit_split, do_split, size_for_type_code, do_become,
  checked_become, do_make_child, do_peek_poke, memory_handler, donated_slot, place_child,
  new_object,
}
use brittle_kernel.Kernel.Settled.{J, settled, Keeps-gets}
use brittle_kernel.Kernel.Settled.Creation.{Sound, Settled-Sound, more, Leads-new_object}
use brittle_kernel.Kernel.Settled.Objects.{
  Keeps-unshared, Keeps-occupy, Keeps-put_word, Keeps-ap_is_stronger, Keeps-new_memory,
  Keeps-destroy_memory,
}
use brittle_kernel.Kernel.Settled.Protocols.{Handles, Keeps-with_new_key}
use brittle_kernel.Kernel.Settled.Scheduler.{keeps, Keeps-apply_current}

-- An index in the table of an object without lists.
abbrev Vacant : (ℕ → Bool) → ℕ → Option ℕ → Type 0
Vacant live n none = Unit {0}
Vacant live n (some i) = (live i ≡ false) × (i < n)

slot-settled : (o : Object) → (kind o == 2) ≡ true → settled o ≡ false
unfolding settled
slot-settled slot e = refl
slot-settled null e = refl
slot-settled object_table e = refl
slot-settled (memory m) e = refl
slot-settled (context b) e = cc
slot-settled gate e = cc
slot-settled (interrupt b) e = cc

module _ (live E : ℕ → Bool) (n : ℕ) where
  slot-within : (k : Kernel) (i : ℕ) → J live E n k → (kind (object_at k i) == 2) ≡ true → i < n
  slot-within k i h e = elim (Bool-cases (ltb i n)) [
    | inl t ↦ ground (arith, t)
    | inr t ↦ cc (rw (h.beyond i (ground (arith, t))) at e)
  ]

  donated-Vacant :
      (keys : Bank) (k : Kernel)
      → J live E n k
      → Ensures (λ o t. Vacant live n o × J live E n t) (donated_slot keys k)
  unfolding donated_slot gets
  donated-Vacant keys k h =
      let i = pointee (resolve k (keys 1)) in
      elim (Bool-cases (kind (object_at k i) == 2)) [
        | inl e ↦
            rw e ((rw (sym (h.kinds i)) (slot-settled (object_at k i) e), slot-within k i h e), h)
        | inr e ↦ rw e (tt, h)
      ]

  Keeps-size : (tc : ℕ) → Keeps (J live E n) (size_for_type_code tc)
  unfolding size_for_type_code
  Keeps-size tc = search (keeps, Keeps-fail) depth 9

  module _ (this : ℕ) (u : live this ≡ false) (lt : this < n) where
    Handles-inspect : Handles live E n this do_inspect
    unfolding do_inspect
    Handles-inspect brand m keys = search keeps depth 9

    Keeps-refuses_change : (a b c : ℕ) → Keeps (J live E n) (refuses_change a b c)
    unfolding refuses_change
    Keeps-refuses_change a b c = search (keeps, Keeps-ap_is_stronger) depth 9

    Handles-change : Handles live E n this do_change
    unfolding do_change
    Handles-change brand m keys = search (keeps, Keeps-refuses_change, Keeps-with_new_key) depth 12

    Keeps-commit_split :
        (brand pos donated : ℕ)
        → live donated ≡ false
        → donated < n
        → Keeps (J live E n) (commit_split this brand pos donated)
    unfolding commit_split
    Keeps-commit_split brand pos donated u' lt' =
        search
          (keeps, Keeps-new_memory, Keeps-with_new_key, Keeps-destroy_memory, Keeps-apply_current)
          depth 20

    Keeps-split_with :
        (brand pos : ℕ) (o : Option ℕ) (refusal : ReplySender)
        → Vacant live n o
        → Keeps (J live E n) (maybe o (pure refusal) (λ slot. commit_split this brand pos slot))
    unfolding maybe
    Keeps-split_with brand pos none r v = Keeps-pure _ r
    Keeps-split_with brand pos (some i) r v = Keeps-commit_split brand pos i v.0 v.1

    Handles-split : Handles live E n this do_split
    unfolding do_split
    Handles-split brand m keys = Keeps-bind _ _ _ (Keeps-gets live E n _) λ self.
        Keeps-bind _ _ _ (Keeps-gets live E n _) λ srd.
          Keeps-bind_value _ (Vacant live n) _ _ (donated-Vacant keys) λ o v.
            Keeps-if _ (ltb self.size_bytes m.d0) _ _ (Keeps-pure _ _) (
              Keeps-if _ (not (srd == 0) || not (self.child_count == 0)) _ _ (Keeps-pure _ _)
                (Keeps-split_with brand m.d0 o _ v))

    Keeps-child_with :
        (brand : ℕ) (m : Message) (o : Option ℕ) (refusal : ReplySender)
        → Vacant live n o
        → Keeps (J live E n) (maybe o (pure refusal) (λ slot. place_child this brand m slot))
    unfolding maybe place_child
    Keeps-child_with brand m none r v = Keeps-pure _ r
    Keeps-child_with brand m (some i) r (ui, lti) =
        search (keeps, Keeps-new_memory, Keeps-with_new_key) depth 12

    Handles-make_child : Handles live E n this do_make_child
    unfolding do_make_child
    Handles-make_child brand m keys = Keeps-bind _ _ _ (Keeps-gets live E n _) λ self.
        Keeps-bind _ _ _ (Keeps-gets live E n _) λ srd.
          Keeps-bind_value _ (Vacant live n) _ _ (donated-Vacant keys) λ o v.
            Keeps-if _ (not (srd == 0)) _ _ (Keeps-pure _ _) (
              Keeps-if _ (not (contains self.base self.size_bytes m.d0 m.d1)) _ _ (Keeps-pure _ _)
                (Keeps-child_with brand m o _ v))

    Handles-peek_poke : Handles live E n this do_peek_poke
    unfolding do_peek_poke
    Handles-peek_poke brand m keys = search (keeps, Keeps-put_word, Keeps-unshared) depth 9

  Keeps-reply_key :
      (this : ℕ)
      → Keeps (J live E n) (do r ← with_new_key 1 this 0 empty_reply; apply_current; pure r)
  Keeps-reply_key this = search (keeps, Keeps-with_new_key, Keeps-apply_current) depth 9

-- `become`, and the protocol with it.
module _ (live : ℕ → Bool) (n this : ℕ) (u : live this ≡ false) (lt : this < n) where
  kept : {A : Type 0} (m : Do A) → Keeps (J live live n) m → Leads (J live live n) (Sound n) m
  kept m km = Leads-Keeps _ _ m (Settled-Sound live n) km

  keeping :
      (m : Do (Unit {0})) {A : Type 0} (f : Do A)
      → Keeps (J live live n) m
      → Leads (J live live n) (Sound n) f
      → Leads (J live live n) (Sound n) (m >> f)
  keeping m f km lf = Leads-then _ _ (J live live n) _ _ (Leads-Keeps _ _ _ (λ k h. h) km) lf

  -- The rest of `become` behind its checks.
  Leads-converted :
      (tc arg g base size : ℕ)
      → Leads (J live live n) (Sound n) (do
        unshared base size
        destroy_memory this
        occupy base size
        new_object tc this g arg
        r ← with_new_key 1 this 0 empty_reply
        apply_current
        pure r)
  Leads-converted tc arg g base size = keeping _ _ (Keeps-unshared live live n base size) (
      keeping _ _ (Keeps-destroy_memory live live n this) (
        keeping _ _ (Keeps-occupy live live n base size) (
          Leads-then _ _ (J (more live this) (more live this) n) _ _
            (Leads-new_object live live (more live this) n this (λ i e. ground (arith, e)) u lt _ _
              _)
            (Leads-Keeps _ _ _ (Settled-Sound (more live this) n)
              (Keeps-reply_key (more live this) (more live this) n this)))))

  Leads-become :
      (brand : ℕ) (m : Message) (keys : Bank)
      → Leads (J live live n) (Sound n) (do_become this brand m keys)
  unfolding do_become
  Leads-become brand m keys =
      search (Leads-if, Leads-bind, Leads-converted, Keeps-gets, Keeps-size, kept, Keeps-pure) depth
        20

  pub Leads-memory :
      (brand : ℕ) (m : Message) (keys : Bank)
      → Leads (J live live n) (Sound n) (memory_handler this brand m keys)
  unfolding memory_handler checked_become
  Leads-memory brand m keys =
      search
        (
          Leads-if, Leads-bind, Leads-become, Keeps-gets, kept, Keeps-pure, Handles-inspect,
          Handles-change, Handles-split, Handles-peek_poke, Handles-make_child,
        )
        depth 20
