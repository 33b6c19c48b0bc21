-- ===== src/User/Alloc/Balance.antt =====
-- The key registers of a/sys/alloc.cc: however an allocation ends, no register is lost.
use brittle_kernel.Run.Keeps.{Ensures-ok}
use brittle_kernel.Prelude.{ℕ, zero, suc, ◌-◌, ◌≡◌, Bool, Option, none, some, arith, leb, ltb, refl}
use brittle_kernel.Run.{pure, ◌>>=◌, ok}
use brittle_kernel.User.{System, Process, User, writes}
use brittle_kernel.User.Alloc.{
  alloc_slot_int, alloc_slot, set_root, mem_take, add_to_list, free_mem, split_level, split_down,
  alloc_from, alloc_mem, n_roots,
}
use brittle_kernel.User.Keys.Held.{
  Free, Held, Spec, Spec-pure, Spec-bind, Spec-if, specs, Spec-bind-Held, Spec-reads,
}
use brittle_kernel.User.Stubs.Held.{KeepsKeys, stubs}

-- What an allocation leaves: a register for the new key and no other, or no register.
abbrev pub Allocated : {W : Type 0} → (ℕ → Bool) → Option ℕ → Process W → Type 0
Allocated free none p = Free free p
Allocated free (some k) p = Held free k p

module _ {W : Type 0} (sys : System W) (free : ℕ → Bool) where
  set_root-Free : (l o : ℕ) → KeepsKeys free (set_root {W = W} l o)
  unfolding set_root writes Free
  set_root-Free l o = record { at = λ p h. h }

  alloc_slot_int-Free : KeepsKeys free (alloc_slot_int sys)
  unfolding alloc_slot_int Free
  alloc_slot_int-Free = record { at = λ p h. ground (arith, h) }

module _ {W : Type 0} (free : ℕ → Bool) where
  pub none-Allocated : Spec {W = W} (Free free) (Allocated free) (pure none)
  none-Allocated = Spec-pure _ _ none (λ p h. h)

  pub some-Allocated :
      (m : User W ℕ)
      → Spec (Free free) (Held free) m
      → Spec (Free free) (Allocated free) (do k ← m; pure (some k))
  some-Allocated m h = Spec-bind-Held free _ m _ h λ k le lt e.
      Spec-pure _ _ (some k) (λ p r. record { positive = le; small = lt; was_free = e; rest = r })

module _ {W : Type 0} (sys : System W) (free : ℕ → Bool) where
  mem_take-Held : (l b : ℕ) → Spec (Free free) (Held free) (mem_take sys l b)
  unfolding mem_take
  mem_take-Held l b = search (specs, stubs, set_root-Free) depth 20

module _ {W : Type 0} (sys : System W) (free : ℕ → Bool) where
  pub alloc_slot-Held : Spec (Free free) (Held free) (alloc_slot sys)
  unfolding alloc_slot
  alloc_slot-Held = search (specs, stubs, alloc_slot_int-Free) depth 20

  add_to_list-Free : (oti : ℕ) → KeepsKeys free (add_to_list sys oti)
  unfolding add_to_list
  add_to_list-Free oti = search (specs, stubs, set_root-Free) depth 20

  pub free_mem-Free : (key : ℕ) → KeepsKeys free (free_mem sys key)
  unfolding free_mem
  free_mem-Free key = search (specs, stubs, add_to_list-Free) depth 20

  split_level-Free : (l2p : ℕ) → KeepsKeys free (split_level sys l2p)
  unfolding split_level
  split_level-Free l2p =
      search (specs, stubs, set_root-Free, mem_take-Held, alloc_slot_int-Free) depth 30

  split_down-Free : (n l2p : ℕ) → KeepsKeys free (split_down sys n l2p)
  unfolding split_down
  split_down-Free zero l2p = search stubs depth 3
  split_down-Free (suc n) l2p = search (specs, stubs, split_level-Free, split_down-Free n) depth 9

  alloc_from-Allocated :
      (l2p target brand : ℕ) → Spec (Free free) (Allocated free) (alloc_from sys l2p target brand)
  unfolding alloc_from
  alloc_from-Allocated l2p target brand = Spec-if _ _ (leb n_roots l2p) _ _ (none-Allocated free) (
      Spec-bind _ _ _ _ (split_down-Free (l2p - target) l2p) λ done.
        Spec-if _ _ done _ _ (some-Allocated free _ (mem_take-Held sys free target brand))
          (none-Allocated free))

  pub alloc_mem-Allocated :
      (target brand : ℕ) → Spec (Free free) (Allocated free) (alloc_mem sys target brand)
  unfolding alloc_mem
  alloc_mem-Allocated target brand =
      Spec-if _ _ (ltb target 4) _ _ (none-Allocated free)
        (Spec-bind _ _ _ _ (Spec-reads _ _) (λ l2p. alloc_from-Allocated l2p target brand))

-- An allocation of memory that returns takes one key register, from 1 to 15 and free before, for the
-- key of the block, or returns nothing and takes none: every other register is as free as it was.
pub alloc_mem-balance :
    {W : Type 0} (sys : System W) (target brand : ℕ) (p q : Process W) (o : Option ℕ)
    → alloc_mem sys target brand p ≡ ok o q
    → Allocated p.available o q
unfolding Free
alloc_mem-balance sys target brand p q o =
    Ensures-ok _ _ o q ((alloc_mem-Allocated sys p.available target brand).at p (λ i. refl))
