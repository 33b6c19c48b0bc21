-- ===== src/Links/Waiting.antt =====
-- Lists of senders as delivery uses them: what `insert`, `unlink` and `take` leave of the links of all
-- nodes and of the number of senders that wait.
use brittle_kernel.Abi.Sizes.{n_priorities}
use brittle_kernel.Run.Ends.{Finishes, Finishes-panic_if, Finishes-panic_unless}
use brittle_kernel.Prelude.{
  ℕ, ◌+◌, ◌≤◌, ◌<◌, ◌≡◌, refl, sym, true, false, Option, none, some, arith, ◌==◌, Bool-cases, inl,
  inr, ◌-◌, ltb→lt,
}
use native.Mathlib.Numerals.{unary_clauses}
use brittle_kernel.Links.{Links, unlink, take, splice, insert, first_item}
use brittle_kernel.Links.Woven.{
  Woven, blocked, is_sender, is_blocked, blocked-le, blocked-lt, unlink-Woven, unlink-is_blocked,
  splice-Woven, splice-is_blocked,
}

-- What delivery needs of the links: `m` bounds the senders that wait.
abbrev pub Waiting : ℕ → ℕ → Links → Type 0
Waiting n m s = Woven n s × (blocked n s ≤ m)

pub unlink-Waiting : (n m it : ℕ) (s : Links) → Waiting n m s → Waiting n m (unlink it s)
unlink-Waiting n m it s (w, le) = (
  unlink-Woven n it s w,
  omega (arith, le, blocked-le n s (unlink it s) (unlink-is_blocked n it s w)),
)

splice-Waiting :
    (n m r l it : ℕ) (s : Links)
    → Waiting n m s
    → is_sender r ≡ false
    → is_sender it ≡ false
    → s.next it ≡ it
    → s.prev it ≡ it
    → Waiting n m (splice r l it s)
splice-Waiting n m r l it s (w, le) root item alone alone' = (
  splice-Woven n r l it s w root item alone alone',
  omega (
    arith,
    le,
    blocked-le n s (splice r l it s) (splice-is_blocked n r l it s w root item alone alone'),
  ),
)

pub insert-Waiting :
    (n m p l it : ℕ) (s : Links)
    → ((q : ℕ) → q < n_priorities → is_sender (l + q) ≡ false)
    → is_sender it ≡ false
    → Waiting n m s
    → Finishes (λ _ t. Waiting n m t) (insert p l it s)
unfolding insert
insert-Waiting n m p l it s root item (w, le) = Finishes-panic_if _ _ _ _ s (λ _.
    Finishes-panic_if _ _ _ _ s (λ alone. Finishes-panic_unless _ _ _ _ s (λ lt.
      splice-Waiting n m (l + p) l it s (w, le) (root p (ltb→lt p _ lt)) item
        (ground (arith, alone)) (ground (arith, alone)))))

unlink-next : (it : ℕ) (s : Links) → (unlink it s).next it ≡ it
unfolding unlink
unlink-next it s = ground arith

first-Waiting :
    (n m r : ℕ) (s : Links)
    → Waiting n m s
    → is_sender r ≡ true
    → (s.next r == r) ≡ false
    → (0 < m) × Waiting n (m - 1) (unlink (s.next r) s)
first-Waiting n m r s (w, le) sender ne =
    let it = s.next r in
    let linked : is_blocked s it ≡ true =
      ground (arith, w.apart r, w.prev-next r, w.prev-next it) in
    let lt =
      blocked-lt n it s (unlink it s) (unlink-is_blocked n it s w)
        (ground (arith, linked, w.bound it)) linked (ground (arith, unlink-next it s)) in
    (omega (arith, le, lt), (unlink-Woven n it s w, omega (arith, le, lt)))

abbrev pub Taken : ℕ → ℕ → Option ℕ → Links → Type 0
Taken n m none t = Waiting n m t
Taken n m (some it) t = (0 < m) × Waiting n (m - 1) t

Taken-Waiting :
    (n m l : ℕ) (s : Links)
    → Waiting n m s
    → ((it : ℕ) → first_item n_priorities l s ≡ some it → (0 < m) × Waiting n (m - 1) (unlink it s))
    → Finishes (Taken n m) (take l s)
unfolding take
Taken-Waiting n m l s w f = go (first_item n_priorities l s) refl
  where
    go : (o : Option ℕ) → first_item n_priorities l s ≡ o → Finishes (Taken n m) (take l s)
    go none e = rw (take, e) w
    go (some it) e = rw (take, e) (f it e)

-- `take` unlinks at most one node.
pub take-unlink :
    (P : Links → Type 0) (l : ℕ) (s : Links)
    → P s
    → ((it : ℕ) → P (unlink it s))
    → Finishes (λ _ t. P t) (take l s)
unfolding take
take-unlink P l s h f = go (first_item n_priorities l s) refl
  where
    go : (o : Option ℕ) → first_item n_priorities l s ≡ o → Finishes (λ _ t. P t) (take l s)
    go none e = rw (take, e) h
    go (some it) e = rw (take, e) (f it)

-- Whoever is taken from a list of senders was one of them, and waits no longer.
pub take-Waiting :
    (n m l : ℕ) (s : Links)
    → Waiting n m s
    → ((q : ℕ) → q < n_priorities → is_sender (l + q) ≡ true)
    → Finishes (Taken n m) (take l s)
unfolding first_item
take-Waiting n m l s w senders = Taken-Waiting n m l s w λ it e. elim (Bool-cases (s.next l == l)) [
  | inl a ↦ elim (Bool-cases (s.next (l + 1) == l + 1)) [
    | inl b ↦ cc (rw (a, b) at e)
    | inr b ↦
        (let q : s.next (l + 1) ≡ it = cc (rw (a, b) at e) in
          rw (sym q) (first-Waiting n m (l + 1) s w (senders 1 (omega arith)) b))
  ]
  | inr a ↦
      (let q : s.next l ≡ it = cc (rw a at e) in
        rw (sym q) (first-Waiting n m l s w (simp unary_clauses at (senders 0 (omega arith))) a))
]
