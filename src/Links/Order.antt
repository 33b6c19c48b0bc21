-- ===== src/Links/Order.antt =====
-- The order in which items leave a list of k/list.h, and how `reinsert` changes it.
use brittle_kernel.Prelude.{
  ℕ, zero, suc, ◌<◌, ◌≤◌, ◌≡◌, refl, sym, ap, none, some, List, [], ◌∷◌, ◌++◌, arith, length,
}
use brittle_kernel.Run.{ok, panic, out_of_fuel}
use brittle_kernel.Links.{Links, fresh, take, insert, unlink, reinsert}
use brittle_kernel.Links.Chain.{Apart-of_append, Disjoint-of_append}
use brittle_kernel.Links.Queue.{Queue, Holds, push, insert-Holds, Contained}
use brittle_kernel.Links.Remove.{queue, take-Holds, unlink_high, unlink-IsUnlinked}

-- The items that repeated calls of `take` return, for at most `n` calls.
pub drain : ℕ → ℕ → Links → List ℕ
drain zero l s = []
drain (suc n) l s = elim (take l s) [
  | ok none t ↦ []
  | ok (some it) t ↦ it ∷ drain n l t
  | panic e ↦ []
  | out_of_fuel ↦ []
]

drain_parts :
    (n l : ℕ) (s : Links) (xs ys : List ℕ)
    → Holds s l (queue xs ys)
    → length (xs ++ ys) ≤ n
    → drain n l s ≡ xs ++ ys
unfolding drain
drain_parts zero l s [] [] h lt = refl
drain_parts zero l s [] (y ∷ ys) h lt = absurd (omega arith)
drain_parts zero l s (x ∷ xs) ys h lt = absurd (omega arith)
drain_parts (suc n) l s [] [] h lt = let r = take-Holds s l (queue [] []) h in rw (r.1, drain)
drain_parts (suc n) l s [] (y ∷ ys) h lt =
    let r = take-Holds s l (queue [] (y ∷ ys)) h in
    rw (r.1, drain) (ap (◌∷◌ y) (drain_parts n l r.0 [] ys r.2 (omega arith)))
drain_parts (suc n) l s (x ∷ xs) ys h lt =
    let r = take-Holds s l (queue (x ∷ xs) ys) h in
    rw (r.1, drain) (ap (◌∷◌ x) (drain_parts n l r.0 xs ys r.2 (omega arith)))

-- On a list in good shape, as many calls of `take` as it has items, or more, return every item once:
-- the urgent queue in its order, and then the other in its order.
pub drain_order :
    (n l : ℕ) (s : Links) (q : Queue)
    → Holds s l q
    → length (q.high ++ q.low) ≤ n
    → drain n l s ≡ q.high ++ q.low
drain_order n l s q h lt = drain_parts n l s q.high q.low h lt

Contained-mem :
    (s : Links) (l : ℕ) (xs : List ℕ) (it : ℕ) (ys : List ℕ)
    → Contained s l (xs ++ it ∷ ys)
    → s.container it ≡ some l
Contained-mem s l [] it ys c = c.0
Contained-mem s l (x ∷ xs) it ys c = Contained-mem s l xs it ys c.1

module _ (s : Links) (l it p : ℕ) (xs ys zs : List ℕ) (lt : p < 2) where
  reinsert_lem : s.container it ≡ some l → reinsert p it s ≡ insert p l it (unlink it s)
  unfolding reinsert
  reinsert_lem e = rw (e, reinsert)

  -- On an item of the urgent queue of a list in good shape, `reinsert` succeeds and moves it behind
  -- all items of its new priority, one of the two.
  pub reinsert_high :
      Holds s l (queue (xs ++ it ∷ ys) zs)
      → (t : Links) × (reinsert p it s ≡ ok tt t) × Holds t l (push p it (queue (xs ++ ys) zs))
  reinsert_high h =
      let root = Apart-of_append l xs (it ∷ ys) h.high.1.0 in
      let sides = Disjoint-of_append (l ∷ xs) (it ∷ ys) (suc l ∷ zs) h.apart in
      let r =
        insert-Holds (unlink it s) l it (queue (xs ++ ys) zs) (unlink_high s l it xs ys zs h)
          (unlink-IsUnlinked s it) (λ e. root.1.0 (sym e)) sides.1.0.0 p lt in
      (r.0, rw (reinsert_lem (Contained-mem s l xs it ys h.high_contained)) r.1, r.2)

-- A list whose two roots were just built holds no item, whatever the state before.
pub fresh-Holds : (l : ℕ) (s : Links) → Holds (fresh (suc l) (fresh l s)) l (queue [] [])
unfolding fresh
fresh-Holds l s = ground arith
