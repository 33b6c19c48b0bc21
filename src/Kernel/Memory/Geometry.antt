-- ===== src/Kernel/Memory/Geometry.antt =====
-- The checks of ranges in k/memory.cc.
use brittle_kernel.Prelude.{ℕ, ◌+◌, ◌≤◌, ◌<◌, ◌≡◌, true, arith, ◌↔◌}
use brittle_kernel.Kernel.Memory.{contains, word_mod}

-- Where neither range wraps around the address space, `contains` holds exactly for a child range
-- that starts and ends within the parent's.
pub contains_iff :
    (parent_base parent_size child_base child_size : ℕ)
    → parent_base + parent_size < word_mod
    → child_base + child_size < word_mod
    → (contains parent_base parent_size child_base child_size ≡ true)
      ↔ ((parent_base ≤ child_base) × (child_base + child_size ≤ parent_base + parent_size))
unfolding contains
contains_iff pb ps cb cs lp lc = ground arith
