-- ===== src/User/Alloc/Slots.antt =====
-- What a/sys/alloc.cc hands out and refuses.
use brittle_kernel.Prelude.{
  ℕ, zero, suc, ◌+◌, ◌-◌, ◌^◌, ◌≤◌, ◌<◌, ◌≡◌, refl, true, Option, none, some, arith, ◌==◌, leb, ltb,
  Bool-cases, inl, inr, lt→ltb, ◌⊎◌,
}
use brittle_kernel.Run.{ok, pure, ◌>>=◌}
use brittle_kernel.Run.Keeps.{Ensures, Ensures-ok}
use brittle_kernel.User.{System, Process, reads}
use brittle_kernel.User.Alloc.{
  alloc_slot_int, fixed_slot_count, find_nonempty, alloc_from, alloc_mem, n_roots,
}

-- The slots handed out do not exceed those there are, and no index wraps.
pub record InRange {W : Type 0} (sys : System W) (p : Process W) : Type 0 where
  pub used : p.slots_used ≤ sys.extra_slot_count
  pub fits : 4 + sys.memory_map_count + sys.device_map_count + sys.extra_slot_count < 2 ^ 32

-- The slot is the next one behind the objects counted as fixed, and it is used up.
pub record Slot {W : Type 0} (sys : System W) (oti : ℕ) (p q : Process W) : Type 0 where
  pub next_index : oti ≡ fixed_slot_count sys + p.slots_used
  pub used_up : q.slots_used ≡ p.slots_used + 1
  pub in_range : InRange sys q

abbrev Handed : {W : Type 0} → System W → Process W → Option ℕ → Process W → Type 0
Handed sys p none q = (q ≡ p) × (p.slots_used ≡ sys.extra_slot_count)
Handed sys p (some oti) q = Slot sys oti p q

alloc_slot_int-Handed :
    {W : Type 0} (sys : System W) (p : Process W)
    → InRange sys p
    → Ensures (Handed sys p) (alloc_slot_int sys p)
unfolding alloc_slot_int
alloc_slot_int-Handed sys p h = elim (Bool-cases (p.slots_used == sys.extra_slot_count)) [
  | inl e ↦ rw e (refl, ground arith)
  | inr e ↦
      let lt : p.slots_used < sys.extra_slot_count = ground (arith, h.used, e) in
      rw e (record {
        next_index = omega (arith, lt, h.fits);
        used_up = omega (arith, lt, h.fits);
        in_range = record { used = omega (arith, lt, h.fits); fits = h.fits };
      })
]

-- No slot is handed out twice, and each lies behind the objects that the allocator counts as fixed: where
-- the counts fit in a word, an allocation that comes after another one, with no slot given back,
-- has the greater index.
pub alloc_slot_int-distinct :
    {W : Type 0} (sys : System W) (p q p' q' : Process W) (a b : ℕ)
    → InRange sys p
    → alloc_slot_int sys p ≡ ok (some a) q
    → q.slots_used ≤ p'.slots_used
    → InRange sys p'
    → alloc_slot_int sys p' ≡ ok (some b) q'
    → (fixed_slot_count sys ≤ a) × (a < b)
alloc_slot_int-distinct sys p q p' q' a b h e le h' e' =
    let first = Ensures-ok _ _ (some a) q (alloc_slot_int-Handed sys p h) e in
    let second = Ensures-ok _ _ (some b) q' (alloc_slot_int-Handed sys p' h') e' in
    (
      omega (arith, first.next_index),
      omega (arith, first.next_index, first.used_up, second.next_index, le),
    )

find_nonempty-empty :
    (n i : ℕ) (roots : ℕ → ℕ)
    → ((j : ℕ) → i ≤ j → j < i + n → roots j ≡ 0)
    → find_nonempty n i roots ≡ i + n
unfolding find_nonempty
find_nonempty-empty zero i roots h = omega arith
find_nonempty-empty (suc n) i roots h = rw (h i (omega arith) (omega arith)) (
    omega (
      arith,
      find_nonempty-empty n (i + 1) roots (λ j le lt. h j (omega (arith, le)) (omega (arith, lt))),
    ))

-- A block of less than 32 bytes, or one for which no list of its size or a greater one has a block, is
-- refused, and nothing has changed.
pub alloc_mem-refused :
    {W : Type 0} (sys : System W) (target brand : ℕ) (p : Process W)
    → (target < 4) ⊎ ((j : ℕ) → target ≤ j → j < n_roots → p.mem_roots j ≡ 0)
    → alloc_mem sys target brand p ≡ ok none p
unfolding alloc_mem alloc_from ◌>>=◌ reads pure
alloc_mem-refused sys target brand p (inl lt) = rw (lt→ltb target 4 lt) refl
alloc_mem-refused sys target brand p (inr empty) = elim (Bool-cases (ltb target 4)) [
  | inl e ↦ rw e refl
  | inr e ↦ rw (e, no_block) refl
]
  where
    no_block : leb n_roots (find_nonempty (n_roots - target) target p.mem_roots) ≡ true
    no_block = ground (
      arith,
      find_nonempty-empty (n_roots - target) target p.mem_roots
          (λ j le lt. empty j le (omega (arith, le, lt))),
    )
