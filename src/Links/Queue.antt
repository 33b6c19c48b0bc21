-- ===== src/Links/Queue.antt =====
-- What a list of k/list.h promises, as two queues: one for each priority, the urgent one first.

use native.Mathlib.Nat.{add-zero}
use native.Mathlib.Numerals.{add-one}
use brittle_kernel.Prelude.{
  ℕ, zero, suc, ◌+◌, ◌<◌, ◌≡◌, refl, ap, ◌≢◌, Option, none, some, List, [], ◌∷◌, ◌++◌, arith,
  update,
}
use brittle_kernel.Run.{ok, ◌>>◌}
use brittle_kernel.Links.{Links, insert, splice}
use brittle_kernel.Links.Chain.{Apart, Disjoint, Disjoint-snoc, Disjoint-symm}
use brittle_kernel.Links.Rings.{Ring, splice-Ring, splice-frame, prev-Apart}

pub record Queue : Type 0 where
  pub high : List ℕ
  pub low : List ℕ

abbrev pub push : ℕ → ℕ → Queue → Queue
push zero it q = record q { high = q.high ++ it ∷ [] }
push (suc p) it q = record q { low = q.low ++ it ∷ [] }

abbrev pub head {ℓ} : {A : Type ℓ} → List A → Option A
head [] = none
head (x ∷ xs) = some x

abbrev pub tail {ℓ} : {A : Type ℓ} → List A → List A
tail [] = []
tail (x ∷ xs) = xs

abbrev pub front : Queue → Option ℕ
front q = head (q.high ++ q.low)

abbrev pop_parts : List ℕ → List ℕ → Queue
pop_parts [] low = record { high = []; low = tail low }
pop_parts (x ∷ xs) low = record { high = xs; low = low }

abbrev pub pop : Queue → Queue
pop q = pop_parts q.high q.low

abbrev pub Contained : Links → ℕ → List ℕ → Type 0
Contained s l [] = Unit {0}
Contained s l (x ∷ xs) = (s.container x ≡ some l) × Contained s l xs

-- The list at `l` holds the items of `q`.
pub record Holds (s : Links) (l : ℕ) (q : Queue) : Type 0 where
  pub high : Ring s l q.high
  pub low : Ring s (suc l) q.low
  pub apart : Disjoint (l ∷ q.high) (suc l ∷ q.low)
  pub high_contained : Contained s l q.high
  pub low_contained : Contained s l q.low

-- An item that is in no list.
pub record IsUnlinked (s : Links) (it : ℕ) : Type 0 where
  pub next : s.next it ≡ it
  pub prev : s.prev it ≡ it
  pub container : s.container it ≡ none

Contained-Apart :
    (s : Links) (l it : ℕ) (xs : List ℕ) → s.container it ≡ none → Contained s l xs → Apart it xs
Contained-Apart s l it [] e c = tt
Contained-Apart s l it (x ∷ xs) e c = (λ h. cc (ap s.container h), Contained-Apart s l it xs e c.1)

pub Contained-update :
    (s t : Links) (l it : ℕ) (o : Option ℕ) (xs : List ℕ)
    → t.container ≡ update s.container it o
    → Apart it xs
    → Contained s l xs
    → Contained t l xs
Contained-update s t l it o [] e a c = tt
Contained-update s t l it o (x ∷ xs) e a c =
    (rw e (ground arith), Contained-update s t l it o xs e a.1 c.1)

Contained-snoc :
    (s : Links) (l it : ℕ) (xs : List ℕ)
    → Contained s l xs
    → s.container it ≡ some l
    → Contained s l (xs ++ it ∷ [])
Contained-snoc s l it [] c e = (e, tt)
Contained-snoc s l it (x ∷ xs) c e = (c.0, Contained-snoc s l it xs c.1 e)

insert-splice :
    (p l it : ℕ) (s : Links)
    → IsUnlinked s it
    → p < 2
    → insert p l it s ≡ ok tt (splice (l + p) l it s)
unfolding insert ◌>>◌
insert-splice p l it s u lt = ground arith

module _ (s : Links) (l it : ℕ) (q : Queue) (h : Holds s l q) (u : IsUnlinked s it) (ne : it ≢ l)
    (ne' : it ≢ suc l) where
  splice-high : Holds (splice l l it s) l (push 0 it q)
  unfolding splice
  splice-high =
      let t : Links = splice l l it s in
      let o = Contained-Apart s l it q.high u.container h.high_contained in
      let o' = Contained-Apart s l it q.low u.container h.low_contained in
      record {
        high = splice-Ring l l it s q.high ne o h.high;
        low =
            splice-frame l l it s q.high ne o h.high (suc l) q.low h.low (ne', o') h.apart.0
              (prev-Apart s l q.high (suc l ∷ q.low) h.high h.apart);
        apart = (h.apart.0, Disjoint-snoc it q.high (suc l ∷ q.low) h.apart.1 (ne', o'));
        high_contained =
            Contained-snoc t l it q.high
              (Contained-update s t l it (some l) q.high refl o h.high_contained) (ground arith);
        low_contained = Contained-update s t l it (some l) q.low refl o' h.low_contained;
      }

  splice-low : Holds (splice (suc l) l it s) l (push 1 it q)
  unfolding splice
  splice-low =
      let t : Links = splice (suc l) l it s in
      let o = Contained-Apart s l it q.high u.container h.high_contained in
      let o' = Contained-Apart s l it q.low u.container h.low_contained in
      let apart = Disjoint-symm (l ∷ q.high) (suc l ∷ q.low) h.apart in
      record {
        low = splice-Ring (suc l) l it s q.low ne' o' h.low;
        high =
            splice-frame (suc l) l it s q.low ne' o' h.low l q.high h.high (ne, o) apart.0
              (prev-Apart s (suc l) q.low (l ∷ q.high) h.low apart);
        apart =
            Disjoint-symm (suc l ∷ q.low ++ it ∷ []) (l ∷ q.high)
              (apart.0, Disjoint-snoc it q.low (l ∷ q.high) apart.1 (ne, o));
        low_contained =
            Contained-snoc t l it q.low
              (Contained-update s t l it (some l) q.low refl o' h.low_contained) (ground arith);
        high_contained = Contained-update s t l it (some l) q.high refl o h.high_contained;
      }

  -- On a list in good shape and an item that is in no list and is neither of its roots, `insert`
  -- succeeds for each of the two priorities, appends the item to that priority's queue, keeps the
  -- list in good shape, and leaves the list as the item's container.
  pub insert-Holds :
      (p : ℕ)
      → p < 2
      → (t : Links) × (insert p l it s ≡ ok tt t)
        × Holds t l (push p it q)
        × (t.container it ≡ some l)
  unfolding splice
  insert-Holds zero lt =
      (splice l l it s, rw (insert-splice 0 l it s u lt, add-zero), splice-high, ground arith)
  insert-Holds (suc zero) lt =
      (splice (suc l) l it s, rw (insert-splice 1 l it s u lt, add-one), splice-low, ground arith)
  insert-Holds (suc (suc p)) lt = absurd (omega arith)
