-- ===== src/User/Alloc.antt =====
-- a/sys/alloc.cc: the allocators of object table slots and of memory. A list of free memory objects
-- has its first table index in `mem_roots`, by the logarithm of half the objects' size, and each
-- further index in the first word of the object before it; 0 ends a list.
pub mod Balance
pub mod Slots
use brittle_kernel.Prelude.{
  ℕ, zero, suc, ◌+◌, ◌-◌, ◌*◌, ◌%◌, ◌^◌, Bool, true, false, not, Option, none, some, ◌==◌, leb, ltb,
  if◌then◌else◌, update,
}
use brittle_kernel.Run.{ok, pure, ref, maybe, ◌>>=◌, ◌>>◌}
use brittle_kernel.User.{System, Process, User, reads, writes}
use brittle_kernel.User.Ipc.{copy_key}
use brittle_kernel.User.Keys.{drop_key}
use brittle_kernel.User.Stubs.Memory.{inspect, split, peek, poke, get_l2_half_size}
use brittle_kernel.User.Stubs.ObjectTable.{mint_key, read_key, get_kind, invalidate, kind_memory}

-- a/sys/keys.h.
abbrev pub ki_null : ℕ
ki_null = 0

abbrev pub ki_ot : ℕ
ki_ot = 1

abbrev pub ki_self : ℕ
ki_self = 2

abbrev pub ki_syscall_gate : ℕ
ki_syscall_gate = 3

-- `etl::array_count(mem_roots)`.
abbrev pub n_roots : ℕ
n_roots = 31

-- The loop of the first pass: from `l2p`, for the rounds left.
unfoldable pub find_nonempty : ℕ → ℕ → (ℕ → ℕ) → ℕ
find_nonempty zero l2p roots = l2p
find_nonempty (suc n) l2p roots =
    let rest = find_nonempty n (l2p + 1) roots in if roots l2p == 0 then rest else l2p

module _ {W : Type 0} where
  unfoldable pub set_root : ℕ → ℕ → User W (Unit {0})
  set_root l2 oti = writes (λ p. record p { mem_roots = update p.mem_roots l2 oti })

module _ {W : Type 0} (sys : System W) where
  abbrev pub fixed_slot_count : ℕ
  fixed_slot_count = (4 + sys.memory_map_count + sys.device_map_count) % 2 ^ 32

  unfoldable pub alloc_slot_int : User W (Option ℕ)
  alloc_slot_int p =
      if p.slots_used == sys.extra_slot_count
      then ok none p
      else ok (some ((p.slots_used + fixed_slot_count) % 2 ^ 32))
          (record p { slots_used = (p.slots_used + 1) % 2 ^ 32 })

  unfoldable pub alloc_slot : User W ℕ
  unfolding alloc_slot_int mint_key
  alloc_slot = do maybe_oti ← alloc_slot_int; oti ← ref maybe_oti; mint_key sys ki_ot oti 0

  unfoldable pub mem_take : ℕ → ℕ → User W ℕ
  unfolding mint_key peek poke set_root
  mem_take l2_half_size brand = do
    oti ← reads (λ p. p.mem_roots l2_half_size)
    k ← mint_key sys ki_ot oti brand
    rest ← peek sys k 0
    set_root l2_half_size rest
    poke sys k 0 0
    pure k

  -- The part of `free_mem` behind its checks.
  unfoldable pub add_to_list : ℕ → User W Bool
  unfolding mint_key inspect get_l2_half_size poke set_root copy_key drop_key
  add_to_list oti = do
    k_freed ← mint_key sys ki_ot oti 0
    region ← inspect sys k_freed
    let l2_half_size = get_l2_half_size region
    first ← reads (λ p. p.mem_roots l2_half_size)
    poke sys k_freed 0 first
    set_root l2_half_size oti
    copy_key sys k_freed ki_null
    drop_key k_freed
    pure true

  -- `free_mem`. The source writes beyond `mem_roots` for a region of 2^32 bytes, which no object has.
  unfoldable pub free_mem : ℕ → User W Bool
  unfolding read_key get_kind invalidate add_to_list
  free_mem key_in = do
    key_info ← read_key sys ki_ot key_in
    kind ← get_kind sys ki_ot key_info.index
    if not (kind == kind_memory) then pure false else do
      revoked ← invalidate sys ki_ot key_info.index
      if not revoked then pure false else add_to_list key_info.index

  -- One round of the second pass: whether a slot was left for it. The keys are released at the end
  -- of their scope, the last one first.
  unfoldable pub split_level : ℕ → User W Bool
  unfolding mem_take read_key alloc_slot_int mint_key split poke set_root drop_key
  split_level l2p = do
    k_bot ← mem_take l2p 0
    info ← read_key sys ki_ot k_bot
    maybe_top_oti ← alloc_slot_int
    maybe maybe_top_oti (drop_key k_bot >> pure false) λ top_oti. do
      k_slot ← mint_key sys ki_ot top_oti 0
      k_top ← split sys k_bot (2 ^ l2p) k_slot
      first ← reads (λ p. p.mem_roots (l2p - 1))
      poke sys k_top 0 first
      poke sys k_bot 0 top_oti
      set_root (l2p - 1) info.index
      drop_key k_top
      drop_key k_slot
      drop_key k_bot
      pure true

  -- The second pass, for the rounds left.
  unfoldable pub split_down : ℕ → ℕ → User W Bool
  unfolding split_level
  split_down zero l2p = pure true
  split_down (suc n) l2p = do
    done ← split_level l2p
    if done then split_down n (l2p - 1) else pure false

  -- What `alloc_mem` does from the list that the first pass found.
  unfoldable pub alloc_from : ℕ → ℕ → ℕ → User W (Option ℕ)
  unfolding split_down mem_take
  alloc_from l2p target brand = if leb n_roots l2p then pure none else do
    done ← split_down (l2p - target) l2p
    if done then (do k ← mem_take target brand; pure (some k)) else pure none

  unfoldable pub alloc_mem : ℕ → ℕ → User W (Option ℕ)
  unfolding find_nonempty alloc_from
  alloc_mem target brand = if ltb target 4 then pure none else do
    l2p ← reads (λ p. find_nonempty (n_roots - target) target p.mem_roots)
    alloc_from l2p target brand
