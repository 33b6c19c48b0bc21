-- ===== src/Links/Laid.antt =====
-- All lists at once: every node is in a ring with at most one root, and only the nodes of objects that
-- have lists or items are linked. `live` says which objects those are.
pub mod Operations
use brittle_kernel.Abi.Sizes.{n_priorities}
use brittle_kernel.Prelude.{
  ℕ, zero, suc, ◌+◌, ◌*◌, ◌/◌, ◌%◌, ◌-◌, ◌≤◌, ◌<◌, ◌≡◌, ◌≢◌, refl, sym, Bool, true, false, not,
  ◌&&◌, ◌||◌, arith, ◌==◌, leb, ltb, if◌then◌else◌, eq_of_==, Bool-cases, inl, inr, Option, none,
  some, update, ltb→lt,
}
use brittle_kernel.Run.Keeps.{Ensures}
use brittle_kernel.Links.{Links, unlink, splice, insert, reinsert, take, peek, fresh, first_item}
use brittle_kernel.Links.Woven.{Woven, is_sender}

-- The roots of the run queue, and of the lists of senders and receivers.
unfoldable pub is_root : ℕ → Bool
is_root a = ltb a 2 || (leb 8 a && (leb 2 (a % 8) && leb (a % 8) 5))

unfoldable pub in_use : (ℕ → Bool) → ℕ → Bool
in_use live a = ltb a 2 || (leb 8 a && live (a / 8 - 1))

-- An item may be in the list at `l`.
pub record IsPlace (live : ℕ → Bool) (l it : ℕ) : Type 0 where
  pub root : (q : ℕ) → q < n_priorities → is_root (l + q) ≡ true
  pub same : (q : ℕ) → q < n_priorities → is_sender (l + q) ≡ is_sender it
  pub used : (q : ℕ) → q < n_priorities → in_use live (l + q) ≡ true

-- `ring` names the root of a node's ring.
pub record Laid (live : ℕ → Bool) (s : Links) : Type 0 where
  pub next-prev : (a : ℕ) → s.next (s.prev a) ≡ a
  pub prev-next : (a : ℕ) → s.prev (s.next a) ≡ a
  pub apart : (a : ℕ) → is_sender (s.next a) ≡ is_sender a
  pub idle : (a : ℕ) → in_use live a ≡ false → s.next a ≡ a
  pub ring : ℕ → ℕ
  pub ring-next : (a : ℕ) → ring (s.next a) ≡ ring a
  pub ring-root : (a : ℕ) → is_root a ≡ true → ring a ≡ a
  pub listed : (it l : ℕ) → s.container it ≡ some l → IsPlace live l it

module _ (live : ℕ → Bool) (s : Links) (h : Laid live s) where
  pub unlink-Laid : (it : ℕ) → Laid live (unlink it s)
  unfolding unlink
  unlink-Laid it = record {
    next-prev = λ a. ground (arith, h.next-prev a, h.next-prev it, h.prev-next it, h.prev-next a);
    prev-next = λ a. ground (arith, h.next-prev a, h.next-prev it, h.prev-next it, h.prev-next a);
    apart = λ a. ground (arith, h.apart a, h.apart it, h.apart (s.prev it), h.next-prev it);
    idle = λ a e. ground (arith, h.idle a e, h.prev-next a, h.next-prev it, h.prev-next it);
    ring = h.ring;
    ring-next =
        λ a. ground (arith, h.ring-next a, h.ring-next it, h.ring-next (s.prev it), h.next-prev it);
    ring-root = h.ring-root;
    listed = λ a l e. h.listed a l (ground (arith, e));
  }

  module _ (r l it : ℕ) (root : is_root r ≡ true) (same : is_sender r ≡ is_sender it)
      (used : in_use live r ≡ true) (item : is_root it ≡ false) (used' : in_use live it ≡ true)
      (alone : s.next it ≡ it) (alone' : s.prev it ≡ it) (place : IsPlace live l it) where
    splice-Laid : Laid live (splice r l it s)
    unfolding splice
    splice-Laid = record {
      next-prev = λ a. ground (arith, h.next-prev a, h.next-prev r, h.prev-next r, h.prev-next a);
      prev-next = λ a. ground (arith, h.next-prev a, h.next-prev r, h.prev-next r, h.prev-next a);
      apart = λ a. ground (arith, h.apart a, h.apart (s.prev r), h.next-prev r);
      idle = λ a e. ground (arith, h.idle a e, h.next-prev r, h.prev-next r);
      ring = update h.ring it r;
      ring-next = λ a. ground (
        arith,
        h.ring-next a,
        h.ring-root r root,
        h.ring-next (s.prev r),
        h.next-prev r,
        h.prev-next a,
      );
      ring-root = λ a e. ground (arith, h.ring-root a e);
      listed = λ a b e. elim (Bool-cases (a == it)) [
        | inl t ↦ (let q : l ≡ b = ground (arith, e) in rw (eq_of_== a it t, sym q) place)
        | inr t ↦ h.listed a b (ground (arith, e))
      ];
    }

  -- The successor of a root in its ring is an item of an object in use.
  module _ (r : ℕ) (root : is_root r ≡ true) (ne : (s.next r == r) ≡ false) where
    next-in_use : in_use live (s.next r) ≡ true
    next-in_use = elim (Bool-cases (in_use live (s.next r))) [
      | inl e ↦ e
      | inr e ↦ absurd (ground (arith, h.idle (s.next r) e, h.prev-next (s.next r), h.prev-next r))
    ]

    next-is_root : is_root (s.next r) ≡ false
    next-is_root = elim (Bool-cases (is_root (s.next r))) [
      | inl e ↦ absurd (ground (arith, h.ring-root (s.next r) e, h.ring-root r root, h.ring-next r))
      | inr e ↦ e
    ]

    next-owner : live (s.next r / 8 - 1) ≡ true
    unfolding in_use is_root
    next-owner = ground (arith, next-in_use, next-is_root)
