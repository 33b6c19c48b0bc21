-- ===== src/Links/Remove.antt =====
-- Taking items out of a list of k/list.h: `unlink`, `take` and `peek` on the queues of its contents.
use brittle_kernel.Prelude.{
  ℕ, suc, ◌≡◌, refl, ◌↔◌, true, Option, none, some, List, [], ◌∷◌, ◌++◌, arith, update,
}
use brittle_kernel.Run.{Run, ok}
use brittle_kernel.Links.{Links, unlink, take, peek, is_empty}
use brittle_kernel.Links.Chain.{Distinct-remove, Disjoint-of_append, Disjoint-symm, Disjoint-append}
use brittle_kernel.Links.Queue.{
  Queue, front, pop, head, Contained, Contained-update, Holds, IsUnlinked,
}
use brittle_kernel.Links.Rings.{unlink-Ring, unlink-frame}

abbrev pub queue : List ℕ → List ℕ → Queue
queue xs ys = record { high = xs; low = ys }

pub unlink-IsUnlinked : (s : Links) (it : ℕ) → IsUnlinked (unlink it s) it
unfolding unlink
unlink-IsUnlinked s it = ground arith

Contained-of_append :
    (s : Links) (l : ℕ) (xs : List ℕ) (it : ℕ) (ys : List ℕ)
    → Contained s l (xs ++ it ∷ ys)
    → Contained s l (xs ++ ys)
Contained-of_append s l [] it ys c = c.1
Contained-of_append s l (x ∷ xs) it ys c = (c.0, Contained-of_append s l xs it ys c.1)

unlink-container : (s : Links) (it : ℕ) → (unlink it s).container ≡ update s.container it none
unfolding unlink
unlink-container s it = refl

module _ (s : Links) (l it : ℕ) (xs ys zs : List ℕ) where
  -- `unlink` takes an item out of any place of the urgent queue of a list in good shape, and keeps
  -- the order of the rest.
  pub unlink_high :
      Holds s l (queue (xs ++ it ∷ ys) zs) → Holds (unlink it s) l (queue (xs ++ ys) zs)
  unlink_high h =
      let left = Distinct-remove it (l ∷ xs) ys h.high.1 in
      let sides = Disjoint-of_append (l ∷ xs) (it ∷ ys) (suc l ∷ zs) h.apart in
      record {
        high = unlink-Ring l it s xs ys h.high;
        low = unlink-frame l it s xs ys h.high (suc l) zs h.low h.apart;
        apart = Disjoint-append (l ∷ xs) ys (suc l ∷ zs) sides.0 sides.1.1;
        high_contained =
            Contained-update s (unlink it s) l it none (xs ++ ys) (unlink-container s it) left.1.1
              (Contained-of_append s l xs it ys h.high_contained);
        low_contained =
            Contained-update s (unlink it s) l it none zs (unlink-container s it) sides.1.0.1
              h.low_contained;
      }

  -- `unlink` takes an item out of any place of the less urgent queue of a list in good shape, and
  -- keeps the order of the rest.
  pub unlink_low :
      Holds s l (queue zs (xs ++ it ∷ ys)) → Holds (unlink it s) l (queue zs (xs ++ ys))
  unlink_low h =
      let left = Distinct-remove it (suc l ∷ xs) ys h.low.1 in
      let apart = Disjoint-symm (l ∷ zs) (suc l ∷ xs ++ it ∷ ys) h.apart in
      let sides = Disjoint-of_append (suc l ∷ xs) (it ∷ ys) (l ∷ zs) apart in
      record {
        low = unlink-Ring (suc l) it s xs ys h.low;
        high = unlink-frame (suc l) it s xs ys h.low l zs h.high apart;
        apart =
            Disjoint-symm (suc l ∷ xs ++ ys) (l ∷ zs)
              (Disjoint-append (suc l ∷ xs) ys (l ∷ zs) sides.0 sides.1.1);
        low_contained =
            Contained-update s (unlink it s) l it none (xs ++ ys) (unlink-container s it) left.1.1
              (Contained-of_append s l xs it ys h.low_contained);
        high_contained =
            Contained-update s (unlink it s) l it none zs (unlink-container s it) sides.1.0.1
              h.high_contained;
      }

module _ (s : Links) (l : ℕ) where
  peek_parts : (xs ys : List ℕ) → Holds s l (queue xs ys) → peek l s ≡ head (xs ++ ys)
  unfolding peek
  peek_parts [] [] h = ground (arith, h.high, h.low)
  peek_parts [] (y ∷ ys) h = ground (arith, h.high, h.low)
  peek_parts (x ∷ xs) ys h = ground (arith, h.high)

  -- On a list in good shape, `peek` shows the oldest item of the most urgent priority that has one.
  pub peek-front : (q : Queue) → Holds s l q → peek l s ≡ front q
  peek-front q h = peek_parts q.high q.low h

  abbrev taken : Option ℕ → Run Links (Option ℕ)
  taken none = ok none s
  taken (some it) = ok (some it) (unlink it s)

  take-peek : take l s ≡ taken (peek l s)
  unfolding take peek
  take-peek = ground arith

  take_parts :
      (xs ys : List ℕ)
      → Holds s l (queue xs ys)
      → (t : Links) × (take l s ≡ ok (head (xs ++ ys)) t) × Holds t l (pop (queue xs ys))
  take_parts [] [] h = (s, rw (take-peek, peek_parts [] [] h), h)
  take_parts [] (y ∷ ys) h =
      (unlink y s, rw (take-peek, peek_parts [] (y ∷ ys) h), unlink_low s l y [] ys [] h)
  take_parts (x ∷ xs) ys h =
      (unlink x s, rw (take-peek, peek_parts (x ∷ xs) ys h), unlink_high s l x [] xs ys h)

  is_empty_parts :
      (xs ys : List ℕ) → Holds s l (queue xs ys) → (is_empty l s ≡ true) ↔ (xs ++ ys ≡ [])
  unfolding is_empty
  is_empty_parts [] [] h = ground (arith, h.high, h.low)
  is_empty_parts [] (y ∷ ys) h = ground (arith, h.high, h.low)
  is_empty_parts (x ∷ xs) ys h = ground (arith, h.high)

  -- `take` on a list in good shape returns the oldest item of the most urgent priority that has one,
  -- and leaves a list in good shape that holds the others in their order; it finds nothing exactly
  -- where there is none.
  pub take-Holds :
      (q : Queue) → Holds s l q → (t : Links) × (take l s ≡ ok (front q) t) × Holds t l (pop q)
  take-Holds q h = take_parts q.high q.low h

  -- On a list in good shape, `is_empty` says whether both queues are empty.
  pub is_empty_iff : (q : Queue) → Holds s l q → (is_empty l s ≡ true) ↔ (q.high ++ q.low ≡ [])
  is_empty_iff q h = is_empty_parts q.high q.low h
