-- ===== src/Links/Woven.antt =====
-- The links of all nodes at once: `next` and `prev` undo each other, and the lists of senders have
-- nodes of their own. The number of senders that wait bounds how often one can be taken.
use brittle_kernel.Abi.Sizes.{n_priorities}
use brittle_kernel.Prelude.{
  ℕ, zero, suc, ◌+◌, ◌*◌, ◌%◌, ◌≤◌, ◌<◌, ◌≡◌, sym, Bool, true, false, not, ◌&&◌, arith, ◌==◌, leb,
  if◌then◌else◌, eq_of_==, Bool-cases, inl, inr,
}
use brittle_kernel.Links.{Links, unlink, splice}

-- A node of a list of senders: a sender item or a root of such a list, by the layout of addresses.
unfoldable pub is_sender : ℕ → Bool
is_sender a = leb 8 a && (leb 1 (a % 8) && leb (a % 8) 3)

pub item-is_sender : (i : ℕ) → is_sender (8 * i + 8) ≡ false
unfolding is_sender
item-is_sender i = ground arith

pub runnable-is_sender : (q : ℕ) → q < n_priorities → is_sender (0 + q) ≡ false
unfolding is_sender
runnable-is_sender q lt = ground arith

pub receivers-is_sender : (i q : ℕ) → q < n_priorities → is_sender (8 * i + 12 + q) ≡ false
unfolding is_sender
receivers-is_sender i q lt = ground arith

pub senders-is_sender : (i q : ℕ) → q < n_priorities → is_sender (8 * i + 10 + q) ≡ true
unfolding is_sender
senders-is_sender i q lt = ground arith

-- The nodes of lists of senders from `n` on are unlinked.
pub record Woven (n : ℕ) (s : Links) : Type 0 where
  pub next-prev : (a : ℕ) → s.next (s.prev a) ≡ a
  pub prev-next : (a : ℕ) → s.prev (s.next a) ≡ a
  pub apart : (a : ℕ) → is_sender (s.next a) ≡ is_sender a
  pub bound : (a : ℕ) → is_sender a ≡ true → n ≤ a → s.next a ≡ a

abbrev pub is_blocked : Links → ℕ → Bool
is_blocked s a = is_sender a && not (s.next a == a)

-- How many nodes of lists of senders below `n` are linked.
unfoldable pub blocked : ℕ → Links → ℕ
unfolding is_sender
blocked zero s = 0
blocked (suc n) s = (if is_blocked s n then 1 else 0) + blocked n s

pub blocked-le :
    (n : ℕ) (s t : Links)
    → ((a : ℕ) → is_blocked t a ≡ true → is_blocked s a ≡ true)
    → blocked n t ≤ blocked n s
unfolding blocked
blocked-le zero s t f = omega arith
blocked-le (suc n) s t f = elim (Bool-cases (is_blocked t n)) [
  | inl e ↦ rw (e, f n e) (omega (arith, blocked-le n s t f))
  | inr e ↦ rw e (omega (arith, blocked-le n s t f))
]

blocked-same :
    (n it : ℕ) (s t : Links)
    → ((a : ℕ) → is_blocked t a ≡ true → is_blocked s a ≡ true)
    → it ≡ n
    → is_blocked s it ≡ true
    → is_blocked t it ≡ false
    → blocked (suc n) t < blocked (suc n) s
unfolding blocked
blocked-same n it s t f e b u = rw (sym e, b, u) (omega (arith, blocked-le it s t f))

blocked-step :
    (n : ℕ) (s t : Links)
    → ((a : ℕ) → is_blocked t a ≡ true → is_blocked s a ≡ true)
    → blocked n t < blocked n s
    → blocked (suc n) t < blocked (suc n) s
unfolding blocked
blocked-step n s t f rest = elim (Bool-cases (is_blocked t n)) [
  | inl e ↦ rw (e, f n e) (omega (arith, rest))
  | inr e ↦ rw e (omega (arith, rest))
]

-- Unlinking one node of a list of senders that is linked leaves fewer.
pub blocked-lt :
    (n it : ℕ) (s t : Links)
    → ((a : ℕ) → is_blocked t a ≡ true → is_blocked s a ≡ true)
    → it < n
    → is_blocked s it ≡ true
    → is_blocked t it ≡ false
    → blocked n t < blocked n s
unfolding blocked
blocked-lt zero it s t f lt b u = absurd (omega arith)
blocked-lt (suc n) it s t f lt b u = elim (Bool-cases (it == n)) [
  | inl e ↦ blocked-same n it s t f (eq_of_== it n e) b u
  | inr e ↦ blocked-step n s t f (blocked-lt n it s t f (ground arith) b u)
]

module _ (n it : ℕ) (s : Links) (w : Woven n s) where
  pub unlink-Woven : Woven n (unlink it s)
  unfolding unlink
  unlink-Woven = record {
    next-prev = λ a. ground (arith, w.next-prev a, w.next-prev it, w.prev-next it, w.prev-next a);
    prev-next = λ a. ground (arith, w.next-prev a, w.next-prev it, w.prev-next it, w.prev-next a);
    apart = λ a. ground (arith, w.apart a, w.apart it, w.apart (s.prev it), w.next-prev it);
    bound = λ a e le. ground (arith, w.bound a e le, w.prev-next a, w.next-prev it, w.prev-next it);
  }

  pub unlink-is_blocked : (a : ℕ) → is_blocked (unlink it s) a ≡ true → is_blocked s a ≡ true
  unfolding unlink
  unlink-is_blocked a e = ground (arith, w.next-prev it, w.prev-next it)

module _ (n r l it : ℕ) (s : Links) (w : Woven n s) (root : is_sender r ≡ false)
    (item : is_sender it ≡ false) (alone : s.next it ≡ it) (alone' : s.prev it ≡ it) where
  pub splice-Woven : Woven n (splice r l it s)
  unfolding splice
  splice-Woven = record {
    next-prev = λ a. ground (arith, w.next-prev a, w.next-prev r, w.prev-next r, w.prev-next a);
    prev-next = λ a. ground (arith, w.next-prev a, w.next-prev r, w.prev-next r, w.prev-next a);
    apart = λ a. ground (arith, w.apart a, w.apart (s.prev r), w.next-prev r);
    bound = λ a e le. ground (arith, w.bound a e le, w.apart (s.prev r), w.next-prev r);
  }

  pub splice-is_blocked : (a : ℕ) → is_blocked (splice r l it s) a ≡ true → is_blocked s a ≡ true
  unfolding splice
  splice-is_blocked a e = ground (arith, w.apart (s.prev r), w.next-prev r)
