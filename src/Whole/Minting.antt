-- ===== src/Whole/Minting.antt =====
-- `mint_key` of a/k/object_table.cc, answered by ObjectTable::do_mint_key.
use brittle_kernel.Kernel.Hardware.{Platform}
use brittle_kernel.Kernel.Scheduler.{is_mappable}
use brittle_kernel.Kernel.Memory.{ap_is_unpredictable}
use brittle_kernel.Prelude.{
  ℕ, suc, ◌/◌, ◌%◌, ◌^◌, ◌<◌, ◌≤◌, ◌≡◌, ◌∙◌, refl, arith, true, false, update, ◌||◌, ◌==◌,
  if◌then◌else◌, not, Bool, ◌*◌,
}
use brittle_kernel.Run.{ok, pure, ◌>>=◌, ◌>>◌}
use brittle_kernel.Run.Returns.{Returns, Returns-map, and_then-Returns}
use brittle_kernel.Abi.Descriptor.{call, sanitized, get_selector, get_error}
use brittle_kernel.Abi.Message.{Message, zero_message, sanitized_message}
use brittle_kernel.Abi.Selectors.ObjectTable as Sel
use brittle_kernel.Kernel.{
  Kernel, Key, ContextBody, context, object_table, body, gets, object_at, r11, put_message,
  put_brand, Object, memory, gate,
}
use brittle_kernel.Kernel.Delivery.{ReplySender, has_top_bit}
use brittle_kernel.Kernel.Dispatch.{handler}
use brittle_kernel.Kernel.Dispatch.Calls.{waiting}
use brittle_kernel.Kernel.Dispatch.Calls.Answers.{stored_from}
use brittle_kernel.Kernel.Dispatch.Calls.Conversed.{called}
use brittle_kernel.Kernel.Keys.{Bank, empty_bank, filled, make_key, map_index}
use brittle_kernel.Kernel.Protocol.{with_key, empty_reply}
use brittle_kernel.Kernel.Protocol.ObjectTable.{object_table_handler, do_mint_key}
use brittle_kernel.User.{System, Process}
use brittle_kernel.User.Ipc.{keymap, invoke}
use brittle_kernel.User.Keys.{auto_key}
use brittle_kernel.User.Keys.Held.{Held, Free}
use brittle_kernel.User.Keys.Registers.{auto_key-returns, auto_key-world}
use brittle_kernel.User.Stubs.ObjectTable.{mint_key}
use brittle_kernel.Whole.{call_registers, system_call, above_kernel, outcome}
use brittle_kernel.Whole.Invoking.{invoke-Returns, back}
use brittle_kernel.Whole.Calling.{CanCall, resolved, entered, ready, call-sends, system_call-called}

-- What the binding asks for.
abbrev request : ℕ → ℕ → ℕ → Message
request t index brand = record zero_message {
  desc = call Sel.mint_key t;
  d0 = index;
  d1 = brand % 2 ^ 32;
  d2 = brand / 2 ^ 32 % 2 ^ 32;
}

-- The reply of the object table.
abbrev minted : Kernel → ℕ → ℕ → ReplySender
minted k index brand = record empty_reply { keys = update empty_bank 1 (filled k index brand) }

handler-minted :
    (k : Kernel) (i brand' t index brand : ℕ) (keys : Bank)
    → index < k.count
    → brand < 2 ^ 64
    → handler object_table i brand' (sanitized_message (request t index brand)) keys k
      ≡ ok (minted k index brand) k
unfolding handler object_table_handler do_mint_key with_key make_key filled ◌>>=◌ ◌>>◌ gets
    sanitized_message sanitized get_selector call
handler-minted k i brand' t index brand keys lt small = ground arith

-- The reply's key goes to the register that the binding has taken, and to no other.
called-minted :
    (r : ReplySender) (b : ContextBody) (to : ℕ)
    → b.save r11 ≡ keymap 0 to 0 0
    → 1 ≤ to
    → to < 16
    → (called r b).keys ≡ update b.keys to (r.keys 1)
unfolding stored_from map_index keymap
called-minted r b to map le lt = ground (arith, map, le, lt)

-- The key that was asked for is in the register `to`, and the others have not changed, but that
-- key register 0 and the key to the table have been resolved.
abbrev pub minted_keys : Kernel → ContextBody → ℕ → ℕ → ℕ → ℕ → ℕ → Key
minted_keys k b t index brand to = update (resolved k t b) to (filled k index brand)

-- The brands that the manual allows a key to the object to have.
unfoldable pub is_valid_brand : Platform → Object → ℕ → Bool
is_valid_brand p (memory m) brand =
    if is_mappable m
    then not (ap_is_unpredictable (p.get_ap (brand % 2 ^ 32 * 2 ^ 8 % 2 ^ 32)))
    else brand == 0
is_valid_brand p (context b) brand = has_top_bit brand || (brand == 0)
is_valid_brand p gate brand = has_top_bit brand || (brand == 0)
is_valid_brand p o brand = brand == 0

auto_key-Returns :
    (p : Process Kernel) (j : ℕ) (k : Kernel)
    → p.world ≡ k
    → 1 ≤ j
    → j < 16
    → p.available j ≡ true
    → Returns (λ to q. Held p.available to q × (q.world ≡ k)) (auto_key p)
auto_key-Returns p j k world le lt free =
    let (to, (q, (e, held))) = auto_key-returns p j le lt free in
    rw e (held, auto_key-world p q to e ∙ world)

module _ (fuel c sp t index brand : ℕ) (k : Kernel) (b : ContextBody) (h : CanCall c t k b)
    (lt : index < k.count) (small : brand < 2 ^ 64) where
  minted-ready :
      (map : ℕ)
      → minted (waiting c (ready c sp (request t index brand) 0 map t k b)) index brand
        ≡ minted k index brand
  unfolding filled
  minted-ready map = ground (arith, h.here)

  system_call-minted :
      (to : ℕ)
      → 1 ≤ to
      → to < 16
      → Returns
          (λ _ s.
            (get_error ((body s c).save 0) ≡ false)
            × ((body s c).keys ≡ minted_keys k b t index brand to))
          (system_call (suc fuel) c sp (request t index brand) 0 (keymap 0 to 0 0) k)
  unfolding call_registers put_message get_error put_brand
  system_call-minted to le small_to =
      let map = keymap 0 to 0 0 in
      let e = entered c sp (request t index brand) 0 map t k b in
      let r = minted k index brand in
      let calls = call-sends Sel.mint_key t h.small in
      Returns-map (λ _ s. object_at s c ≡ context (called r e)) _ _
        (system_call-called c sp (request t index brand) 0 map t k b h calls.0 calls.1 fuel r
          calls.2 (handler-minted _ _ _ t index brand _ lt small ∙ rw (minted-ready map) refl))
        (λ _ s at. rw at (refl, called-minted r e to refl le small_to))

  -- The binding `mint_key`, with the kernel as its system call, returns: it has taken a free key register,
  -- which holds a key to the object at the index with the brand asked for, and the context's other key
  -- registers are as they were, but that register 0 and the key to the object table have been resolved. This
  -- is so for an index within the table, a brand of 64 bits that the manual allows for the object, a context that has null in register 0, has a
  -- priority in range and expects a brand with the top bit set, and while a register from 1 to 15 is free.
  pub mint_key-minted :
      (sys : System Kernel) (p : Process Kernel) (j : ℕ)
      → p.world ≡ k
      → 1 ≤ j
      → j < 16
      → p.available j ≡ true
      → is_valid_brand k.platform (object_at k index) brand ≡ true
      → Returns
          (λ to q.
            Held p.available to q × ((body q.world c).keys ≡ minted_keys k b t index brand to))
          (mint_key (above_kernel (suc fuel) c sp sys) t index brand p)
  unfolding mint_key ◌>>=◌ pure Free
  mint_key-minted sys p j world le small_j free valid =
      and_then-Returns (λ to q. Held p.available to q × (q.world ≡ k)) _ (auto_key p) _
        (auto_key-Returns p j k world le small_j free)
        (λ to q (held, w).
          and_then-Returns
            (λ a q'.
              (a ≡ (outcome c q'.world).message)
              × (q' ≡ back q q'.world)
              × ((body q'.world c).keys ≡ minted_keys k b t index brand to))
            _
            (invoke (above_kernel (suc fuel) c sp sys) (request t index brand) 0 (keymap 0 to 0 0)
              q)
            _
            (invoke-Returns sys (suc fuel) c sp (request t index brand) 0 (keymap 0 to 0 0) q
              (λ s. (body s c).keys ≡ minted_keys k b t index brand to)
              (rw w (system_call-minted to held.positive held.small)))
            (λ a q' (m, same, keys). (
              rw same (record {
                positive = held.positive;
                small = held.small;
                was_free = held.was_free;
                rest = held.rest;
              }),
              keys,
            )))
