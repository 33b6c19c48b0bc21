-- ===== src/Kernel/Keys.antt =====
-- k/key.cc, k/keys.h and Object::make_key: keys, the registers that hold them, and the mapped
-- references through which a message's keys are stored.
pub mod Maps
use brittle_kernel.Prelude.{
  ℕ, zero, suc, ◌+◌, ◌*◌, ◌/◌, ◌%◌, ◌^◌, Bool, true, false, ◌&&◌, Option, none, some, ◌==◌,
  if◌then◌else◌, update,
}
use brittle_kernel.Run.{ok, pure, ◌>>=◌, ◌>>◌}
use brittle_kernel.Kernel.{
  Kernel, Key, empty_key, ContextBody, Do, gets, modify, body, put_body, r10, r11,
}

-- `Key::filled`; the pointer is an object's `this`, which is never null.
unfoldable pub filled : Kernel → ℕ → ℕ → Key
filled k ptr brand = record {
  brand = brand;
  generation = (k.objects ptr).generation;
  ptr = some ptr;
}

-- `Object::make_key`, which no subclass overrides, and so accepts every brand.
unfoldable pub make_key : Kernel → ℕ → ℕ → Option Key
unfolding filled
make_key k this brand = some (filled k this brand)

-- `Key::null`, a key to the first object of the table.
unfoldable pub null_key : Kernel → Key
unfolding filled
null_key k = filled k 0 0

-- `Key::get`, as the key that it leaves in place.
unfoldable pub resolve : Kernel → Key → Key
unfolding null_key
resolve k key = elim key.ptr [
  | none ↦ null_key k
  | some p ↦ if key.generation == (k.objects p).generation then key else null_key k
]

-- The object that a key left by `get` points to.
abbrev pub pointee : Key → ℕ
pointee key = elim key.ptr [ none ↦ 0 | some p ↦ p ]

abbrev pub put_key : ℕ → ℕ → Key → Kernel → Kernel
put_key c i key k = put_body c (λ b. record b { keys = update b.keys i key }) k

abbrev pub put_region : ℕ → ℕ → Key → Kernel → Kernel
put_region c i key k =
    put_body c (λ b. record b { memory_regions = update b.memory_regions i key }) k

-- `key(i).get()`: a revoked key is replaced in its register; the result is the key there now.
unfoldable pub get_key : ℕ → ℕ → Do Key
unfolding resolve
get_key c i k = let key = resolve k ((body k c).keys i) in ok key (put_key c i key k)

-- `memory_region(i).get()`.
unfoldable pub get_region : ℕ → ℕ → Do Key
unfolding resolve
get_region c i k =
    let key = resolve k ((body k c).memory_regions i) in ok key (put_region c i key k)

-- A message's worth of keys.
abbrev pub Bank : Type 0
Bank = ℕ → Key

abbrev pub empty_bank : Bank
empty_bank _ = empty_key

-- KeysRef: a fixed bank of four with the map 0x3210, or the keys of a context under a map that
-- defends key register 0.
pub data KeysRef : Type 0 where
  bank : KeysRef
  registers : ℕ → ℕ → KeysRef

-- `KeysRef::map`.
unfoldable pub map_index : ℕ → ℕ → ℕ
map_index map index = map / 2 ^ (4 * index) % 2 ^ 4

-- `KeysRef::set`. The bank is a local of the caller, and is passed through.
unfoldable pub set_key : KeysRef → ℕ → Key → Bank → Do Bank
unfolding map_index
set_key bank index key b k = ok (update b (map_index 0x3210 index) key) k
set_key (registers c map) index key b k =
    if map_index map index == 0 then ok b k else ok b (put_key c (map_index map index) key k)

-- `KeysRef::get` of a context's keys.
unfoldable pub read_key : ℕ → ℕ → ℕ → Do Key
unfolding map_index
read_key c map index = gets (λ k. (body k c).keys (map_index map index))

-- The loops `k.set(ki, source.get(ki))`, from `ki` for the rounds left.
unfoldable pub copy_keys : ℕ → ℕ → (ℕ → Do Key) → KeysRef → Bank → Do Bank
unfolding set_key
copy_keys zero ki source dest b = pure b
copy_keys (suc n) ki source dest b = do
  key ← source ki
  b' ← set_key dest ki key b
  copy_keys n (ki + 1) source dest b'

-- `get_receive_keys` and the map of `get_sent_keys`.
unfoldable pub receive_keys : Kernel → ℕ → KeysRef
receive_keys k c = registers c ((body k c).save r11)

unfoldable pub sent_map : Kernel → ℕ → ℕ
sent_map k c = (body k c).save r10
