-- ===== src/Links/Rings.antt =====
-- The sublist of one priority as a ring of nodes through its root: what `insert` and `unlink` do to
-- the ring they touch, and that they leave every other ring alone.
use brittle_kernel.Prelude.{ℕ, sym, ◌≢◌, List, [], ◌∷◌, ◌++◌, arith, update}
use mathlib.Core.Path.{subst}
use brittle_kernel.Links.{Links, splice, unlink}
use brittle_kernel.Links.Bypass.{Seg-bypass, behind}
use brittle_kernel.Links.Chain.{
  Apart, Distinct, Seg, Seg-append, Seg-of_append, Seg-set_next, Seg-set_prev, Seg-retarget,
  ne-first, Distinct-of_append, Apart-of_append, last-Apart, first-Apart, Distinct-remove,
  Disjoint-of_append, ne-last, Disjoint, Distinct-snoc,
}

abbrev pub Ring : Links → ℕ → List ℕ → Type 0
Ring s r xs = Seg s.next s.prev r xs r × Distinct (r ∷ xs)

module _ (r l it : ℕ) (s : Links) (xs : List ℕ) (h : it ≢ r) (o : Apart it xs)
    (ring : Ring s r xs) where
  splice_before :
      Seg
        (update (update s.next it r) (update s.prev it (s.prev r) r) it)
        (update (update s.prev it (s.prev r)) r it)
        r
        xs
        it
  splice_before =
      subst
        (λ q.
          Seg (update (update s.next it r) q it) (update (update s.prev it (s.prev r)) r it) r xs
            it)
        (ground arith)
        (Seg-set_prev _ _ r it r it xs (ground arith) ring.1.0
          (Seg-retarget _ _ r r it xs ring.1 o (Seg-set_next _ _ it r r r xs h o ring.0)))

  -- `insert` puts the item at the end of its priority's ring.
  pub splice-Ring : Ring (splice r l it s) r (xs ++ it ∷ [])
  unfolding splice
  splice-Ring = (
    Seg-append _ _ r it r xs [] splice_before
        (ground (arith, ne-last s.next s.prev it r r xs h o ring.0)),
    Distinct-snoc it (r ∷ xs) ring.1 (h, o),
  )

  -- A ring that shares no node with it is as it was.
  pub splice-frame :
      (r' : ℕ) (ys : List ℕ)
      → Ring s r' ys
      → Apart it (r' ∷ ys)
      → Apart r (r' ∷ ys)
      → Apart (s.prev r) (r' ∷ ys)
      → Ring (splice r l it s) r' ys
  unfolding splice
  splice-frame r' ys other p q t = (
    subst
        (λ n.
          Seg (update (update s.next it r) n it) (update (update s.prev it (s.prev r)) r it) r' ys
            r')
        (ground arith)
        (Seg-set_prev _ _ r it r' r' ys q.0 q.1 (
          Seg-set_prev _ _ it (s.prev r) r' r' ys p.0 p.1 (
            Seg-set_next _ _ (s.prev r) it r' r' ys t.0 t.1
              (Seg-set_next _ _ it r r' r' ys p.0 p.1 other.0)))),
    other.1,
  )

-- The nodes before and behind a node of a ring are of the ring.
pub prev-Apart :
    (s : Links) (r : ℕ) (xs ys : List ℕ) → Ring s r xs → Disjoint (r ∷ xs) ys → Apart (s.prev r) ys
prev-Apart s r xs ys ring d = last-Apart s.next s.prev r r xs ys d ring.0

module _ (r it : ℕ) (s : Links) (xs ys : List ℕ) (ring : Ring s r (xs ++ it ∷ ys)) where
  -- `unlink` takes the item out of its ring and keeps the order of the others.
  pub unlink-Ring : Ring (unlink it s) r (xs ++ ys)
  unfolding unlink
  unlink-Ring =
      let parts = Seg-of_append s.next s.prev r it r xs ys ring.0 in
      let rest = Distinct-remove it (r ∷ xs) ys ring.1 in
      (Seg-bypass s.next s.prev it r r xs ys ring.1 ring.1 parts.0 parts.1, rest.0)

  -- A ring that shares no node with it is as it was.
  pub unlink-frame :
      (r' : ℕ) (zs : List ℕ)
      → Ring s r' zs
      → Disjoint (r ∷ xs ++ it ∷ ys) (r' ∷ zs)
      → Ring (unlink it s) r' zs
  unfolding unlink
  unlink-frame r' zs other d =
      let parts = Seg-of_append s.next s.prev r it r xs ys ring.0 in
      let apart = Distinct-of_append (r ∷ xs) (it ∷ ys) ring.1 in
      let root = Apart-of_append r xs (it ∷ ys) ring.1.0 in
      let others = Disjoint-of_append (r ∷ xs) (it ∷ ys) (r' ∷ zs) d in
      let following =
        first-Apart s.next s.prev it r ys (r' ∷ zs) (others.0.0, others.1.1) parts.1 in
      (
        behind s.next s.prev it r' r' zs others.1.0 others.1.0.0
            (last-Apart s.next s.prev r it xs (r' ∷ zs) others.0 parts.0) following.1 following.0
            (ne-first s.next s.prev it it r ys (λ e. root.1.0 (sym e)) apart.2.0 parts.1) other.0,
        other.1,
      )
