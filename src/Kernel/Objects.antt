-- ===== src/Kernel/Objects.antt =====
-- k/object.cc: invalidation, with the hooks of k/context.cc, k/memory.cc and k/interrupt.cc, and the
-- table of interrupt handlers of k/irq_redirector.cc.
pub mod ReplyBrand
pub mod Revocation
use brittle_kernel.Prelude.{
  ℕ, zero, suc, ◌+◌, ◌*◌, ◌/◌, ◌%◌, ◌^◌, ◌-◌, Bool, true, false, Option, none, some, ◌==◌, ltb,
  if◌then◌else◌, update,
}
use brittle_kernel.Run.{
  ok, pure, ◌>>=◌, ◌>>◌, panic_unless, panic_if, index_out_of_range, irq_table_not_set,
}
use brittle_kernel.Kernel.{
  Kernel, Object, memory, context, interrupt, stopped, Do, gets, dispatch, modify, body, object_at,
  as_interrupt, put_body, put_object, ctx_item, sender_item, emit,
}
use brittle_kernel.Kernel.Hardware.{
  nvic_disable_irq, nvic_enable_irq, nvic_clear_pending_irq, sys_tick_tickint, scb_clear_sys_tick,
}
use brittle_kernel.Kernel.Delivery.{has_top_bit}
use brittle_kernel.Kernel.Scheduler.{apply_current, pend_switch, set_state, unlink_item}

-- `brand | (Brand(1) << 63)`.
unfoldable pub set_top_bit : ℕ → ℕ
unfolding has_top_bit
set_top_bit brand = if has_top_bit brand then brand else brand + 2 ^ 63

-- Context::advance_reply_brand.
unfoldable pub next_reply_brand : ℕ → ℕ
unfolding set_top_bit
next_reply_brand brand = set_top_bit ((brand + 1) % 2 ^ 64)

unfoldable pub advance_reply_brand : ℕ → Do (Unit {0})
unfolding next_reply_brand
advance_reply_brand c =
    modify (
      put_body c (λ b. record b { expected_reply_brand = next_reply_brand b.expected_reply_brand }))

-- Context::invalidation_hook.
unfoldable pub context_invalidation_hook : ℕ → Do (Unit {0})
unfolding unlink_item set_state advance_reply_brand pend_switch
context_invalidation_hook c = do
  unlink_item (ctx_item c)
  unlink_item (sender_item c)
  set_state c stopped
  advance_reply_brand c
  current ← gets (λ k. k.current)
  if c == current then pend_switch else pure tt

abbrev pub sys_tick_identifier : ℕ
sys_tick_identifier = 2 ^ 32 - 1

unfoldable pub get_identifier : Kernel → ℕ → ℕ
get_identifier k i = (as_interrupt (object_at k i)).identifier

unfoldable pub disable_interrupt : ℕ → Do (Unit {0})
unfolding get_identifier
disable_interrupt i = do
  id ← gets (λ k. get_identifier k i)
  if id == sys_tick_identifier then emit (sys_tick_tickint false) else emit (nvic_disable_irq id)

unfoldable pub enable_interrupt : ℕ → Do (Unit {0})
unfolding get_identifier
enable_interrupt i = do
  id ← gets (λ k. get_identifier k i)
  if id == sys_tick_identifier then emit (sys_tick_tickint true) else emit (nvic_enable_irq id)

unfoldable pub clear_pending_interrupt : ℕ → Do (Unit {0})
unfolding get_identifier
clear_pending_interrupt i = do
  id ← gets (λ k. get_identifier k i)
  if id == sys_tick_identifier then emit scb_clear_sys_tick else emit (nvic_clear_pending_irq id)

-- `get_irq_redirection_table()[index]`, read and written.
unfoldable pub get_irq_entry : ℕ → Do (Option ℕ)
get_irq_entry index = do
  count ← gets (λ k. k.irq_count)
  panic_if (count == 0) irq_table_not_set
  panic_unless (ltb index count) index_out_of_range
  gets (λ k. k.irq_table index)

unfoldable pub set_irq_entry : ℕ → Option ℕ → Do (Unit {0})
set_irq_entry index handler = do
  count ← gets (λ k. k.irq_count)
  panic_if (count == 0) irq_table_not_set
  panic_unless (ltb index count) index_out_of_range
  modify (λ k. record k { irq_table = update k.irq_table index handler })

-- `get_identifier() + 1`, on 32 bits: the system timer takes entry 0.
abbrev pub irq_index : ℕ → ℕ
irq_index id = (id + 1) % 2 ^ 32

-- Interrupt::invalidation_hook.
unfoldable pub interrupt_invalidation_hook : ℕ → Do (Unit {0})
unfolding disable_interrupt clear_pending_interrupt unlink_item get_identifier set_irq_entry
interrupt_invalidation_hook i = do
  disable_interrupt i
  clear_pending_interrupt i
  unlink_item (sender_item i)
  id ← gets (λ k. get_identifier k i)
  set_irq_entry (irq_index id) none

unfoldable pub hook_of : Object → ℕ → Do (Unit {0})
unfolding context_invalidation_hook interrupt_invalidation_hook apply_current
hook_of (context _) i = context_invalidation_hook i
hook_of (memory _) i = apply_current
hook_of (interrupt _) i = interrupt_invalidation_hook i
hook_of _ i = pure tt

-- Object::invalidation_hook, virtual.
unfoldable pub invalidation_hook : ℕ → Do (Unit {0})
unfolding hook_of
invalidation_hook i = dispatch i (λ o. hook_of o i)

-- `++_generation`.
abbrev pub next_generation : ℕ → ℕ
next_generation g = (g + 1) % 2 ^ 32

-- Object::invalidate.
unfoldable pub invalidate : ℕ → Do (Unit {0})
unfolding invalidation_hook
invalidate i = do
  invalidation_hook i
  modify (λ k.
      put_object i
        (record { generation = next_generation (k.objects i).generation; object = object_at k i })
        k)
