-- ===== src/Kernel/Memory.antt =====
-- k/memory.cc: construction and destruction of Memory objects and the rules for MPU permissions.
pub mod Geometry
use brittle_kernel.Prelude.{
  ℕ, zero, suc, ◌+◌, ◌*◌, ◌/◌, ◌%◌, ◌^◌, ◌-◌, Bool, true, false, not, ◌&&◌, ◌||◌, Option, none,
  some, ◌==◌, ltb, leb, if◌then◌else◌, bit_and, bit_or, update,
}
use brittle_kernel.Run.{
  ok, pure, fail, ◌>>=◌, ◌>>◌, panic_unless, panic_if, mem_overflow, bad_child_geometry,
  non_leaf_memory, unpredictable_ap, shared_storage,
}
use brittle_kernel.Kernel.{
  Kernel, memory, MemoryHead, Do, gets, modify, object_at, as_memory, put_object, put_memory,
}
use brittle_kernel.Kernel.Hardware.{Platform}

abbrev pub word_mod : ℕ
word_mod = 2 ^ 32

-- Whether one of `n` bytes from `a` holds data of the kernel.
unfoldable pub touches : ℕ → ℕ → (ℕ → Bool) → Bool
touches zero a own = false
touches (suc n) a own = let rest = touches n (a + 1) own in if own a then true else rest

-- `words` and the state of the kernel's objects are separate here, where the source has one memory. A run
-- that uses memory of the kernel's own through a Memory object ends.
unfoldable pub unshared : ℕ → ℕ → Do (Unit {0})
unfolding touches
unshared a n = do own ← gets (λ k. k.own); panic_if (touches n a own) shared_storage

-- The body of a new object takes `n` bytes from `a`; no body is ever given back.
unfoldable pub occupy : ℕ → ℕ → Do (Unit {0})
occupy a n = modify (λ k. record k { own = λ x. k.own x || (leb a x && ltb x (a + n)) })

unfoldable pub put_word : ℕ → ℕ → Do (Unit {0})
put_word address word = modify (λ k. record k { words = update k.words address word })

-- The attribute masks of Memory.
abbrev pub device_attribute_mask : ℕ
device_attribute_mask = 1

abbrev pub mappable_attribute_mask : ℕ
mappable_attribute_mask = 2

abbrev pub cached_l2hs_mask : ℕ
cached_l2hs_mask = 0x1f00

unfoldable pub is_device : MemoryHead → Bool
is_device m = not (bit_and m.attributes device_attribute_mask == 0)

-- `contains`, on 32-bit words: the sum of the child's base and size wraps.
unfoldable pub contains : ℕ → ℕ → ℕ → ℕ → Bool
contains parent_base parent_size child_base child_size =
    leb parent_base child_base
    && leb (child_base - parent_base) parent_size
    && leb ((child_base + child_size + word_mod - parent_base) % word_mod) parent_size

-- The loop that finds the cached exponent, for the rounds left.
unfoldable pub find_l2_half_size : ℕ → ℕ → ℕ → ℕ
find_l2_half_size zero l size = l
find_l2_half_size (suc n) l size =
    let rest = find_l2_half_size n (l + 1) size in if size == 2 * 2 ^ l then l else rest

unfoldable pub mappable_geometry : ℕ → ℕ → Bool
mappable_geometry base size =
    leb 32 size && (bit_and size (size - 1) == 0) && (bit_and base (size - 1) == 0)

-- The attributes that the constructor computes.
unfoldable pub cached_attributes : ℕ → ℕ → ℕ → ℕ
unfolding find_l2_half_size mappable_geometry
cached_attributes base size attributes =
    if mappable_geometry base size
    then bit_or
        (bit_or (bit_and attributes (word_mod - 1 - cached_l2hs_mask))
          (find_l2_half_size 27 4 size * 2 ^ 8))
        mappable_attribute_mask
    else bit_and attributes (word_mod - 1 - (cached_l2hs_mask + mappable_attribute_mask))

-- The parent's half of the constructor.
unfoldable pub adopt : ℕ → ℕ → Option ℕ → Do (Unit {0})
unfolding contains
adopt base size none = pure tt
adopt base size (some p) = do
  parent ← gets (λ k. as_memory (object_at k p))
  panic_unless (contains parent.base parent.size_bytes base size) bad_child_geometry
  modify (put_memory p (λ m. record m { child_count = m.child_count + 1 }))

-- `new(at) Memory{generation, base, size, attributes, parent}`.
unfoldable pub new_memory : ℕ → ℕ → ℕ → ℕ → ℕ → Option ℕ → Do (Unit {0})
unfolding cached_attributes adopt
new_memory at generation base size attributes parent = do
  panic_if (ltb ((base + size) % word_mod) base) mem_overflow
  modify (
      put_object at (record {
        generation = generation;
        object = memory (record {
          base = base;
          size_bytes = size;
          attributes = cached_attributes base size attributes;
          parent = parent;
          child_count = 0;
        });
      }))
  adopt base size parent

-- The parent's half of the destructor.
unfoldable pub leave_parent : Option ℕ → Do (Unit {0})
leave_parent none = pure tt
leave_parent (some p) =
    modify
      (put_memory p (λ m. record m { child_count = (m.child_count + word_mod - 1) % word_mod }))

-- Memory::~Memory.
unfoldable pub destroy_memory : ℕ → Do (Unit {0})
unfolding leave_parent
destroy_memory i = do
  m ← gets (λ k. as_memory (object_at k i))
  panic_if (not (m.child_count == 0)) non_leaf_memory
  leave_parent m.parent
  modify (put_memory i (λ m. record m { parent = none }))

unfoldable pub ap_is_unpredictable : ℕ → Bool
ap_is_unpredictable ap = ltb 7 ap || (ap == 4)

-- `Access`: none 0, read 1, write 2.
pub record SplitAccess : Type 0 where
  pub priv : ℕ
  pub unpriv : ℕ

abbrev access : ℕ → ℕ → SplitAccess
access p u = record { priv = p; unpriv = u }

unfoldable pub decode_ap : Platform → ℕ → Option SplitAccess
decode_ap p ap =
    if ap == p.p_none_u_none
    then some (access 0 0)
    else if ap == p.p_read_u_none
    then some (access 1 0)
    else if ap == p.p_read_u_read
    then some (access 1 1)
    else if ap == p.p_write_u_none
    then some (access 2 0)
    else if ap == p.p_write_u_read
    then some (access 2 1)
    else if ap == p.p_write_u_write
    then some (access 2 2)
    else none

-- `decode_ap` with its PANIC on the default case.
unfoldable pub decoded : Option SplitAccess → Do SplitAccess
decoded (some a) = pure a
decoded none = fail unpredictable_ap

unfoldable pub ap_is_stronger : ℕ → ℕ → Do Bool
unfolding decode_ap
ap_is_stronger a b = do
  p ← gets (λ k. k.platform)
  da ← decoded (decode_ap p a)
  db ← decoded (decode_ap p b)
  pure (ltb db.priv da.priv || ltb db.unpriv da.unpriv)

-- `scrub_rasr`, which begins from `Rasr()`.
unfoldable pub scrub_rasr : Platform → ℕ → ℕ
scrub_rasr p dirty = p.with_srd (p.get_srd dirty) (
    p.with_b (p.get_b dirty) (
      p.with_c (p.get_c dirty) (
        p.with_s (p.get_s dirty) (
          p.with_tex (p.get_tex dirty)
            (p.with_ap (p.get_ap dirty) (p.with_xn (p.get_xn dirty) 0))))))
