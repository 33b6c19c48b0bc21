-- ===== src/Kernel/Protocol/Memory.antt =====
-- The Memory protocol, k/memory.cc and k/become.cc.
pub mod Words
use brittle_kernel.Prelude.{
  ℕ, ◌+◌, ◌*◌, ◌/◌, ◌%◌, ◌^◌, ◌-◌, Bool, true, not, ◌&&◌, ◌||◌, none, some, ◌==◌, ltb, leb,
  if◌then◌else◌, update, bit_and, Option,
}
use brittle_kernel.Run.{pure, ok, fail, ◌>>=◌, ◌>>◌, bad_type_code, maybe}
use brittle_kernel.Abi.Exceptions.{bad_argument, bad_kind, bad_operation}
use brittle_kernel.Abi.Descriptor.{get_selector}
use brittle_kernel.Abi.Message.{Message, zero_message}
use brittle_kernel.Abi.Sizes.{context_size, gate_size, interrupt_size}
use brittle_kernel.Abi.Selectors.Memory.{inspect, change, split, become, peek, poke, make_child}
use brittle_kernel.Links
use brittle_kernel.Kernel.{
  Kernel, context, gate, interrupt, Do, gets, modify, on_lists, kind, object_at, as_memory,
  put_object, blank_context, blank_interrupt, ctx_item, sender_item, senders, receivers,
}
use brittle_kernel.Kernel.Keys.{Bank, resolve, pointee}
use brittle_kernel.Kernel.Memory.{
  unshared, occupy, put_word, word_mod, is_device, contains, new_memory, destroy_memory,
  ap_is_unpredictable, ap_is_stronger, scrub_rasr,
}
use brittle_kernel.Kernel.Objects.{next_generation, set_irq_entry, irq_index}
use brittle_kernel.Kernel.Delivery.{ReplySender}
use brittle_kernel.Kernel.Scheduler.{memory_region_for_brand, is_mappable, apply_current}
use brittle_kernel.Kernel.Protocol.{
  Handler, empty_reply, reply_message, refuse, with_new_key, do_badop,
}

abbrev slot_kind : ℕ
slot_kind = 2

-- `get_region_for_brand(brand).rasr`.
unfoldable pub current_rasr : Kernel → ℕ → ℕ → ℕ
unfolding memory_region_for_brand
current_rasr k this brand =
    (memory_region_for_brand k.platform (as_memory (object_at k this)) brand).rasr

unfoldable pub do_inspect : Handler
unfolding current_rasr
do_inspect this brand m keys = do
  rasr ← gets (λ k. current_rasr k this brand)
  self ← gets (λ k. as_memory (object_at k this))
  pure (
      reply_message (record zero_message {
        d0 = self.base;
        d1 = rasr;
        d2 = self.size_bytes;
        d3 = bit_and self.attributes 3;
      }))

-- The checks of `change`, in the order of the source's `||`.
unfoldable pub refuses_change : ℕ → ℕ → ℕ → Do Bool
unfolding ap_is_unpredictable ap_is_stronger
refuses_change new_rasr rasr size = do
  p ← gets (λ k. k.platform)
  if ap_is_unpredictable (p.get_ap new_rasr) then pure true else do
    stronger ← ap_is_stronger (p.get_ap new_rasr) (p.get_ap rasr)
    pure (
        stronger
        || not (bit_and (p.get_srd rasr) (255 - p.get_srd new_rasr % 256) == 0)
        || (ltb size 256 && not (p.get_srd new_rasr == 0)))

unfoldable pub do_change : Handler
unfolding is_mappable refuse scrub_rasr current_rasr refuses_change with_new_key
do_change this brand m keys = do
  self ← gets (λ k. as_memory (object_at k this))
  if not (is_mappable self) then pure (refuse bad_operation) else do
    new_rasr ← gets (λ k. scrub_rasr k.platform m.d0)
    rasr ← gets (λ k. current_rasr k this brand)
    refused ← refuses_change new_rasr rasr self.size_bytes
    if refused
        then pure (refuse bad_argument)
        else with_new_key 1 this (new_rasr / 2 ^ 8) empty_reply

-- The two writes of `do_split` behind its commit point.
unfoldable pub commit_split : ℕ → ℕ → ℕ → ℕ → Do ReplySender
unfolding new_memory destroy_memory with_new_key apply_current
commit_split this brand split_pos donated = do
  generation ← gets (λ k. (k.objects donated).generation)
  self ← gets (λ k. as_memory (object_at k this))
  new_memory donated (next_generation generation) ((self.base + split_pos) % word_mod)
      (self.size_bytes - split_pos) self.attributes none
  r ← with_new_key 2 donated brand empty_reply
  own_generation ← gets (λ k. (k.objects this).generation)
  destroy_memory this
  new_memory this (next_generation own_generation) self.base split_pos self.attributes none
  r' ← with_new_key 1 this brand r
  apply_current
  pure r'

-- The object that the message's key 1 designates, if it is a slot.
unfoldable pub donated_slot : Bank → Do (Option ℕ)
unfolding resolve
donated_slot keys = gets (λ k.
    let slot = pointee (resolve k (keys 1)) in
    if kind (object_at k slot) == slot_kind then some slot else none)

unfoldable pub do_split : Handler
unfolding refuse current_rasr donated_slot commit_split
do_split this brand m keys = do
  self ← gets (λ k. as_memory (object_at k this))
  srd ← gets (λ k. k.platform.get_srd (current_rasr k this brand))
  donated ← donated_slot keys
  if ltb self.size_bytes m.d0
      then pure (refuse bad_argument)
      else if not (srd == 0) || not (self.child_count == 0)
      then pure (refuse bad_operation)
      else maybe donated (pure (refuse bad_kind)) (λ slot. commit_split this brand m.d0 slot)

-- become.cc. TypeCode is context 0, gate 1, interrupt 2.
unfoldable pub size_for_type_code : ℕ → Do ℕ
size_for_type_code tc =
    if tc == 0
    then pure context_size
    else if tc == 1
    then pure gate_size
    else if tc == 2
    then pure interrupt_size
    else fail bad_type_code

abbrev pub fresh_items : (Links.Links → Links.Links) → Do (Unit {0})
fresh_items f = on_lists (λ s. ok tt (f s))

-- `new Context::Body` and the Context constructor.
unfoldable pub new_context : ℕ → ℕ → Do (Unit {0})
unfolding Links.fresh
new_context at generation = do
  fresh_items (λ s. Links.fresh (sender_item at) (Links.fresh (ctx_item at) s))
  modify (
      put_object at (record {
        generation = generation;
        object = context (record blank_context { expected_reply_brand = 2 ^ 63 });
      }))

-- `new Gate::Body` and the Gate constructor: the roots of two lists.
unfoldable pub new_gate : ℕ → ℕ → Do (Unit {0})
unfolding Links.fresh
new_gate at generation = do
  fresh_items (λ s. Links.fresh (senders at + 1) (Links.fresh (senders at) s))
  fresh_items (λ s. Links.fresh (receivers at + 1) (Links.fresh (receivers at) s))
  modify (put_object at (record { generation = generation; object = gate }))

-- `new Interrupt::Body{id}` and the Interrupt constructor.
unfoldable pub new_interrupt : ℕ → ℕ → ℕ → Do (Unit {0})
unfolding Links.fresh set_irq_entry
new_interrupt at generation id = do
  fresh_items (Links.fresh (sender_item at))
  modify
      (put_object at (record { generation = generation; object = interrupt (blank_interrupt id) }))
  set_irq_entry (irq_index id) (some at)

unfoldable pub new_object : ℕ → ℕ → ℕ → ℕ → Do (Unit {0})
unfolding new_context new_gate new_interrupt
new_object tc at generation arg =
    if tc == 0
    then new_context at generation
    else if tc == 1
    then new_gate at generation
    else new_interrupt at generation arg

-- `become`.
unfoldable pub do_become : Handler
unfolding is_device is_mappable refuse size_for_type_code unshared destroy_memory occupy new_object
    with_new_key apply_current
do_become this brand m keys = do
  self ← gets (λ k. as_memory (object_at k this))
  if is_device self
        || not (self.child_count == 0)
        || Links.is_some self.parent
        || not (is_mappable self)
      then pure (refuse bad_operation)
      else if ltb 2 m.d0
      then pure (refuse bad_argument)
      else do
        size ← size_for_type_code m.d0
        if ltb self.size_bytes size then pure (refuse bad_operation) else do
          generation ← gets (λ k. (k.objects this).generation)
          unshared self.base size
          destroy_memory this
          occupy self.base size
          new_object m.d0 this (next_generation generation) m.d1
          r ← with_new_key 1 this 0 empty_reply
          apply_current
          pure r

-- The part of `make_child` behind its checks.
unfoldable pub place_child : ℕ → ℕ → Message → ℕ → Do ReplySender
unfolding new_memory with_new_key
place_child this brand m slot = do
  generation ← gets (λ k. (k.objects slot).generation)
  self ← gets (λ k. as_memory (object_at k this))
  new_memory slot (next_generation generation) m.d0 m.d1 self.attributes (some this)
  with_new_key 1 slot brand empty_reply

unfoldable pub do_make_child : Handler
unfolding refuse current_rasr contains donated_slot place_child
do_make_child this brand m keys = do
  self ← gets (λ k. as_memory (object_at k this))
  srd ← gets (λ k. k.platform.get_srd (current_rasr k this brand))
  donated ← donated_slot keys
  if not (srd == 0)
      then pure (refuse bad_operation)
      else if not (contains self.base self.size_bytes m.d0 m.d1)
      then pure (refuse bad_argument)
      else maybe donated (pure (refuse bad_kind)) (λ slot. place_child this brand m slot)

-- `peek` and `poke`, on words at byte addresses.
unfoldable pub do_peek_poke : Handler
unfolding refuse get_selector unshared put_word
do_peek_poke this brand m keys = do
  self ← gets (λ k. as_memory (object_at k this))
  let address = (self.base + 4 * m.d0) % word_mod
  if leb (self.size_bytes / 4) m.d0 then pure (refuse bad_argument) else do
    unshared address 4
    word ← gets (λ k. k.words address)
    if get_selector m.desc == peek
        then pure (reply_message (record zero_message { d0 = word }))
        else do put_word address m.d1; pure empty_reply

-- The case `become` of the switch.
unfoldable pub checked_become : Handler
unfolding current_rasr refuse do_become
checked_become this brand m keys = do
  srd ← gets (λ k. k.platform.get_srd (current_rasr k this brand))
  if srd == 0 then do_become this brand m keys else pure (refuse bad_operation)

-- The switch of Memory::deliver_from.
unfoldable pub memory_handler : Handler
unfolding do_inspect do_change do_split checked_become do_peek_poke do_make_child do_badop
    get_selector current_rasr refuse
memory_handler this brand m keys =
    let s = get_selector m.desc in
    if s == inspect
    then do_inspect this brand m keys
    else if s == change
    then do_change this brand m keys
    else if s == split
    then do_split this brand m keys
    else if s == become
    then checked_become this brand m keys
    else if s == peek || s == poke
    then do_peek_poke this brand m keys
    else if s == make_child
    then do_make_child this brand m keys
    else pure (do_badop m)
