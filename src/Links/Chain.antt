-- ===== src/Links/Chain.antt =====
-- Chains of itemoids: the shape that the pointers of k/list.h keep, and what a write does to it.
use brittle_kernel.Prelude.{ℕ, ◌≡◌, sym, ◌≢◌, List, [], ◌∷◌, ◌++◌, arith, update}

-- `b` is not among the nodes.
abbrev pub Apart : ℕ → List ℕ → Type 0
Apart b [] = Unit {0}
Apart b (x ∷ xs) = (b ≢ x) × Apart b xs

abbrev pub Distinct : List ℕ → Type 0
Distinct [] = Unit {0}
Distinct (x ∷ xs) = Apart x xs × Distinct xs

abbrev pub Disjoint : List ℕ → List ℕ → Type 0
Disjoint [] ys = Unit {0}
Disjoint (x ∷ xs) ys = Apart x ys × Disjoint xs ys

-- From `a` the `next` pointers lead through `xs` to `z`, and the `prev` pointers back.
abbrev pub Seg : (ℕ → ℕ) → (ℕ → ℕ) → ℕ → List ℕ → ℕ → Type 0
Seg next prev a [] z = (next a ≡ z) × (prev z ≡ a)
Seg next prev a (x ∷ xs) z = (next a ≡ x) × (prev x ≡ a) × Seg next prev x xs z

pub Apart-append : (b : ℕ) (xs ys : List ℕ) → Apart b xs → Apart b ys → Apart b (xs ++ ys)
Apart-append b [] ys p q = q
Apart-append b (x ∷ xs) ys p q = (p.0, Apart-append b xs ys p.1 q)

pub Apart-of_append : (b : ℕ) (xs ys : List ℕ) → Apart b (xs ++ ys) → Apart b xs × Apart b ys
Apart-of_append b [] ys p = (tt, p)
Apart-of_append b (x ∷ xs) ys p = let h = Apart-of_append b xs ys p.1 in ((p.0, h.0), h.1)

module _ (next prev : ℕ → ℕ) where
  pub Seg-append :
      (a b z : ℕ) (xs ys : List ℕ)
      → Seg next prev a xs b
      → Seg next prev b ys z
      → Seg next prev a (xs ++ b ∷ ys) z
  Seg-append a b z [] ys s t = (s.0, s.1, t)
  Seg-append a b z (x ∷ xs) ys s t = (s.0, s.1, Seg-append x b z xs ys s.2 t)

  pub Seg-of_append :
      (a b z : ℕ) (xs ys : List ℕ)
      → Seg next prev a (xs ++ b ∷ ys) z
      → Seg next prev a xs b × Seg next prev b ys z
  Seg-of_append a b z [] ys s = ((s.0, s.1), s.2)
  Seg-of_append a b z (x ∷ xs) ys s =
      let h = Seg-of_append x b z xs ys s.2 in ((s.0, s.1, h.0), h.1)

  -- A write to a node outside the segment.
  pub Seg-set_next :
      (m v a z : ℕ) (xs : List ℕ)
      → m ≢ a
      → Apart m xs
      → Seg next prev a xs z
      → Seg (update next m v) prev a xs z
  Seg-set_next m v a z [] h o s = ground arith
  Seg-set_next m v a z (x ∷ xs) h o s = (ground arith, s.1, Seg-set_next m v x z xs o.0 o.1 s.2)

  pub Seg-set_prev :
      (m v a z : ℕ) (xs : List ℕ)
      → m ≢ z
      → Apart m xs
      → Seg next prev a xs z
      → Seg next (update prev m v) a xs z
  Seg-set_prev m v a z [] h o s = ground arith
  Seg-set_prev m v a z (x ∷ xs) h o s = (s.0, ground arith, Seg-set_prev m v x z xs h o.1 s.2)

  -- The node before the end is in the segment.
  pub ne-last : (b a z : ℕ) (xs : List ℕ) → b ≢ a → Apart b xs → Seg next prev a xs z → b ≢ prev z
  ne-last b a z [] h o s = ground arith
  ne-last b a z (x ∷ xs) h o s = ne-last b x z xs o.0 o.1 s.2

  -- The node after the start is in it, or is its end.
  pub ne-first : (b a z : ℕ) (xs : List ℕ) → b ≢ z → Apart b xs → Seg next prev a xs z → b ≢ next a
  ne-first b a z [] h o s = ground arith
  ne-first b a z (x ∷ xs) h o s = ground arith

  -- The last node's `next` led elsewhere.
  pub Seg-retarget :
      (a z v : ℕ) (xs : List ℕ)
      → Distinct (a ∷ xs)
      → Apart v xs
      → Seg next prev a xs z
      → Seg (update next (prev z) v) (update prev v (prev z)) a xs v
  Seg-retarget a z v [] d o s = ground arith
  Seg-retarget a z v (x ∷ xs) d o s = (
    ground (arith, ne-last a x z xs d.0.0 d.0.1 s.2),
    ground arith,
    Seg-retarget x z v xs d.1 o.1 s.2,
  )

pub Apart-symm-snoc : (b v : ℕ) (xs : List ℕ) → Apart b xs → b ≢ v → Apart b (xs ++ v ∷ [])
Apart-symm-snoc b v xs o h = Apart-append b xs (v ∷ []) o (h, tt)

pub Distinct-snoc : (v : ℕ) (xs : List ℕ) → Distinct xs → Apart v xs → Distinct (xs ++ v ∷ [])
Distinct-snoc v [] d o = (tt, tt)
Distinct-snoc v (x ∷ xs) d o =
    (Apart-symm-snoc x v xs d.0 (λ e. o.0 (sym e)), Distinct-snoc v xs d.1 o.1)

-- What is left of a list of distinct nodes when one is taken out.
pub Distinct-remove :
    (v : ℕ) (xs ys : List ℕ) → Distinct (xs ++ v ∷ ys) → Distinct (xs ++ ys) × Apart v (xs ++ ys)
Distinct-remove v [] ys d = (d.1, d.0)
Distinct-remove v (x ∷ xs) ys d =
    let rest = Distinct-remove v xs ys d.1 in
    let parts = Apart-of_append x xs (v ∷ ys) d.0 in
    ((Apart-append x xs ys parts.0 parts.1.1, rest.0), (λ e. parts.1.0 (sym e), rest.1))

pub Distinct-of_append :
    (xs ys : List ℕ) → Distinct (xs ++ ys) → Distinct xs × Disjoint xs ys × Distinct ys
Distinct-of_append [] ys d = (tt, tt, d)
Distinct-of_append (x ∷ xs) ys d =
    let rest = Distinct-of_append xs ys d.1 in
    let parts = Apart-of_append x xs ys d.0 in ((parts.0, rest.0), (parts.1, rest.1), rest.2)

-- `Disjoint` from the side of its second list.
pub Disjoint-cons : (y : ℕ) (xs ys : List ℕ) → Disjoint xs (y ∷ ys) → Apart y xs × Disjoint xs ys
Disjoint-cons y [] ys d = (tt, tt)
Disjoint-cons y (x ∷ xs) ys d =
    let rest = Disjoint-cons y xs ys d.1 in ((λ e. d.0.0 (sym e), rest.0), (d.0.1, rest.1))

pub Disjoint-of_append :
    (xs ys zs : List ℕ) → Disjoint (xs ++ ys) zs → Disjoint xs zs × Disjoint ys zs
Disjoint-of_append [] ys zs d = (tt, d)
Disjoint-of_append (x ∷ xs) ys zs d =
    let rest = Disjoint-of_append xs ys zs d.1 in ((d.0, rest.0), rest.1)

module _ (next prev : ℕ → ℕ) where
  -- The node before the end of a segment, and the node after its start, lie in it.
  pub last-Apart :
      (a z : ℕ) (xs ys : List ℕ) → Disjoint (a ∷ xs) ys → Seg next prev a xs z → Apart (prev z) ys
  last-Apart a z [] ys d s = rw s.1 d.0
  last-Apart a z (x ∷ xs) ys d s = last-Apart x z xs ys d.1 s.2

  pub first-Apart :
      (a z : ℕ) (xs ys : List ℕ) → Disjoint (z ∷ xs) ys → Seg next prev a xs z → Apart (next a) ys
  first-Apart a z [] ys d s = rw s.0 d.0
  first-Apart a z (x ∷ xs) ys d s = rw s.0 d.1.0

pub Disjoint-snoc :
    (v : ℕ) (xs ys : List ℕ) → Disjoint xs ys → Apart v ys → Disjoint (xs ++ v ∷ []) ys
Disjoint-snoc v [] ys d o = (o, tt)
Disjoint-snoc v (x ∷ xs) ys d o = (d.0, Disjoint-snoc v xs ys d.1 o)

pub Disjoint-symm : (xs ys : List ℕ) → Disjoint xs ys → Disjoint ys xs
Disjoint-symm xs [] d = tt
Disjoint-symm xs (y ∷ ys) d = let h = Disjoint-cons y xs ys d in (h.0, Disjoint-symm xs ys h.1)

pub Disjoint-append : (xs ys zs : List ℕ) → Disjoint xs zs → Disjoint ys zs → Disjoint (xs ++ ys) zs
Disjoint-append [] ys zs d e = e
Disjoint-append (x ∷ xs) ys zs d e = (d.0, Disjoint-append xs ys zs d.1 e)
