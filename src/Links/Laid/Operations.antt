-- ===== src/Links/Laid/Operations.antt =====
-- The operations on lists keep every list in its shape, and give out items of objects in use.
use brittle_kernel.Abi.Sizes.{n_priorities}
use brittle_kernel.Prelude.{
  ℕ, ◌+◌, ◌*◌, ◌/◌, ◌-◌, ◌≤◌, ◌<◌, ◌≡◌, refl, sym, Bool, true, false, arith, ◌==◌, Bool-cases, inl,
  inr, Option, none, some, ltb→lt,
}
use native.Mathlib.Numerals.{unary_clauses}
use brittle_kernel.Run.{panic_unless}
use brittle_kernel.Run.Ends.{Finishes, Finishes-panic_if, Finishes-panic_unless}
use brittle_kernel.Links.{Links, unlink, insert, reinsert, take, peek, fresh, first_item}
use brittle_kernel.Links.Laid.{Laid, IsPlace, is_root, in_use, unlink-Laid, splice-Laid, next-owner}
use brittle_kernel.Links.Woven.{Woven, is_sender}

-- What `take` and `peek` find is the successor of a root.
first_item-cases :
    (l it : ℕ) (s : Links) (P : Type 0)
    → first_item n_priorities l s ≡ some it
    → ((q : ℕ) → q < n_priorities → (s.next (l + q) == l + q) ≡ false → s.next (l + q) ≡ it → P)
    → P
unfolding first_item
first_item-cases l it s P e f = elim (Bool-cases (s.next l == l)) [
  | inl a ↦ elim (Bool-cases (s.next (l + 1) == l + 1)) [
    | inl b ↦ cc (rw (a, b) at e)
    | inr b ↦ f 1 (omega arith) b (cc (rw (a, b) at e))
  ]
  | inr a ↦ f 0 (omega arith) (simp unary_clauses a) (simp unary_clauses (cc (rw a at e)))
]

-- The list at `l` belongs to an object in use.
abbrev pub Rooted : (ℕ → Bool) → ℕ → Type 0
Rooted live l = (q : ℕ) → q < n_priorities → (is_root (l + q) ≡ true) × (in_use live (l + q) ≡ true)

-- The item that is taken, if one is, belongs to an object in use.
abbrev pub Given : (ℕ → Bool) → Option ℕ → Links → Type 0
Given live none t = Laid live t
Given live (some it) t = (live (it / 8 - 1) ≡ true) × Laid live t

pub Given-Laid : (live : ℕ → Bool) (o : Option ℕ) (s : Links) → Given live o s → Laid live s
Given-Laid live none s h = h
Given-Laid live (some it) s h = h.1

module _ (live : ℕ → Bool) (s : Links) (h : Laid live s) where
  first-owner :
      (l it : ℕ) → Rooted live l → first_item n_priorities l s ≡ some it → live (it / 8 - 1) ≡ true
  first-owner l it rooted e =
      first_item-cases l it s _ e
        λ q lt ne n. rw (sym n) (next-owner live s h (l + q) (rooted q lt).0 ne)

  pub peek-owner : (l it : ℕ) → Rooted live l → peek l s ≡ some it → live (it / 8 - 1) ≡ true
  unfolding peek
  peek-owner = first-owner

  pub take-Laid : (l : ℕ) → Rooted live l → Finishes (Given live) (take l s)
  unfolding take
  take-Laid l rooted = go (first_item n_priorities l s) refl
    where
      go : (o : Option ℕ) → first_item n_priorities l s ≡ o → Finishes (Given live) (take l s)
      go none e = rw (take, e) h
      go (some it) e = rw (take, e) (first-owner l it rooted e, unlink-Laid live s h it)

  module _ (it : ℕ) (item : is_root it ≡ false) (used : in_use live it ≡ true) where
    pub insert-Laid :
        (p l : ℕ) → IsPlace live l it → Finishes (λ _ t. Laid live t) (insert p l it s)
    unfolding insert
    insert-Laid p l place = Finishes-panic_if _ _ _ _ s (λ _. Finishes-panic_if _ _ _ _ s (λ alone.
        Finishes-panic_unless _ _ _ _ s (λ lt.
          let p<2 = ltb→lt p _ lt in
          splice-Laid live s h (l + p) l it (place.root p p<2) (place.same p p<2) (place.used p p<2)
            item used (ground (arith, alone)) (ground (arith, alone)) place)))

module _ (live : ℕ → Bool) (s : Links) (h : Laid live s) (it : ℕ) (item : is_root it ≡ false)
    (used : in_use live it ≡ true) where
  pub reinsert-Laid : (p : ℕ) → Finishes (λ _ t. Laid live t) (reinsert p it s)
  unfolding reinsert panic_unless
  reinsert-Laid p = go (s.container it) refl
    where
      go : (o : Option ℕ) → s.container it ≡ o → Finishes (λ _ t. Laid live t) (reinsert p it s)
      go none e = rw (reinsert, e) tt
      go (some l) e =
          rw (reinsert, e)
            (insert-Laid live (unlink it s) (unlink-Laid live s h it) it item used p l
              (h.listed it l e))

-- A new object's nodes were in no list.
pub fresh-Laid :
    (live : ℕ → Bool) (a : ℕ) (s : Links)
    → Laid live s
    → in_use live a ≡ false
    → Laid live (fresh a s)
unfolding fresh
fresh-Laid live a s h u = record {
  next-prev = λ b. ground (arith, h.next-prev b, h.idle a u, h.prev-next a, h.prev-next b);
  prev-next = λ b. ground (arith, h.prev-next b, h.idle a u, h.prev-next a, h.next-prev b);
  apart = λ b. ground (arith, h.apart b);
  idle = λ b e. ground (arith, h.idle b e);
  ring = h.ring;
  ring-next = λ b. ground (arith, h.ring-next b);
  ring-root = h.ring-root;
  listed = λ b l e. h.listed b l (ground (arith, e));
}

-- One more object is in use.
pub Laid-more :
    (live more : ℕ → Bool) (s : Links)
    → ((i : ℕ) → live i ≡ true → more i ≡ true)
    → Laid live s
    → Laid more s
unfolding in_use
Laid-more live more s f h = record {
  next-prev = h.next-prev;
  prev-next = h.prev-next;
  apart = h.apart;
  idle = λ a e. h.idle a (ground (arith, e, f (a / 8 - 1)));
  ring = h.ring;
  ring-next = h.ring-next;
  ring-root = h.ring-root;
  listed = λ it l e.
      let p = h.listed it l e in
      record {
        root = p.root;
        same = p.same;
        used = λ q lt. ground (arith, p.used q lt, f ((l + q) / 8 - 1));
      };
}

-- If the objects in use are below `n`, so are the senders that wait.
pub Laid-Woven :
    (live : ℕ → Bool) (n : ℕ) (s : Links)
    → ((i : ℕ) → n ≤ i → live i ≡ false)
    → Laid live s
    → Woven (8 * n + 8) s
unfolding in_use is_sender
Laid-Woven live n s f h = record {
  next-prev = h.next-prev;
  prev-next = h.prev-next;
  apart = h.apart;
  bound = λ a e le. h.idle a (ground (arith, e, f (a / 8 - 1)));
}
