-- ===== src/Links/Bypass.antt =====
-- Taking a node out of a segment, by the four writes of `unlink`.
use mathlib.Core.Path.{subst}
use mathlib.Core.List.{append-nil}
use brittle_kernel.Prelude.{ℕ, ◌≢◌, List, [], ◌∷◌, ◌++◌, arith, update}
use brittle_kernel.Links.Chain.{
  Apart, Distinct, Seg, Seg-append, Seg-set_next, Seg-set_prev, Seg-retarget, last-Apart,
  Distinct-of_append, Disjoint-cons, Apart-of_append,
}

module _ (next prev : ℕ → ℕ) (it : ℕ) where
  abbrev pub bypassed_prev : ℕ → ℕ
  bypassed_prev = update (update prev (next it) (prev it)) it it

  abbrev pub bypassed_next : ℕ → ℕ
  bypassed_next = update (update next (update prev (next it) (prev it) it) (next it)) it it

  -- The part before the node now leads to the one behind it.
  before :
      (a : ℕ) (xs : List ℕ)
      → it ≢ a
      → Apart it xs
      → Distinct (a ∷ xs)
      → Apart (next it) xs
      → it ≢ next it
      → Seg next prev a xs it
      → Seg bypassed_next bypassed_prev a xs (next it)
  before a xs h o d o' h' s =
      subst (λ q. Seg (update (update next q (next it)) it it) bypassed_prev a xs (next it))
        (ground arith)
        (Seg-set_prev _ _ it it a (next it) xs h' o
          (Seg-set_next _ _ it it a (next it) xs h o (Seg-retarget _ _ a it (next it) xs d o' s)))

  -- The part behind it is as it was.
  pub behind :
      (y z : ℕ) (ys : List ℕ)
      → Apart it (y ∷ ys)
      → it ≢ z
      → Apart (prev it) (y ∷ ys)
      → Apart (next it) ys
      → next it ≢ z
      → it ≢ next it
      → Seg next prev y ys z
      → Seg bypassed_next bypassed_prev y ys z
  behind y z ys o h p q t h' s =
      subst (λ n. Seg (update (update next n (next it)) it it) bypassed_prev y ys z) (ground arith)
        (Seg-set_prev _ _ it it y z ys h o.1 (
          Seg-set_next _ _ it it y z ys o.0 o.1 (
            Seg-set_prev _ _ (next it) (prev it) y z ys t q
              (Seg-set_next _ _ (prev it) (next it) y z ys p.0 p.1 s))))

  pub Seg-bypass :
      (a z : ℕ) (xs ys : List ℕ)
      → Distinct (a ∷ xs ++ it ∷ ys)
      → Distinct (z ∷ xs ++ it ∷ ys)
      → Seg next prev a xs it
      → Seg next prev it ys z
      → Seg bypassed_next bypassed_prev a (xs ++ ys) z
  Seg-bypass a z xs [] d e s t =
      let parts = Distinct-of_append (a ∷ xs) (it ∷ []) d in
      let sides = Disjoint-cons it (a ∷ xs) [] parts.1 in
      let ends = Apart-of_append z xs (it ∷ []) e.0 in
      rw append-nil (
        subst (λ b. Seg bypassed_next bypassed_prev a xs b) t.0
          (before a xs sides.0.0 sides.0.1 parts.0 (rw t.0 ends.0) (ground arith) s))
  Seg-bypass a z xs (y ∷ ys) d e s t =
      let parts = Distinct-of_append (a ∷ xs) (it ∷ y ∷ ys) d in
      let sides = Disjoint-cons it (a ∷ xs) (y ∷ ys) parts.1 in
      let ends = Apart-of_append z xs (it ∷ y ∷ ys) e.0 in
      let own = parts.2.0 in
      Seg-append bypassed_next bypassed_prev a y z xs ys
        (subst (λ b. Seg bypassed_next bypassed_prev a xs b) t.0
          (before a xs sides.0.0 sides.0.1 parts.0
            (rw t.0 (Disjoint-cons y (a ∷ xs) ys sides.1).0.1) (ground arith) s))
        (behind y z ys own (ground arith) (last-Apart next prev a it xs (y ∷ ys) sides.1 s)
          (rw t.0 parts.2.1.0) (ground arith) (ground arith) t.2)
