-- ===== src/Kernel/Scheduler.antt =====
-- k/scheduler.cc, and the parts of Context that touch the run queue and the MPU.
pub mod Switch
use brittle_kernel.Prelude.{
  ℕ, zero, suc, ◌+◌, ◌*◌, ◌/◌, ◌%◌, ◌^◌, Bool, true, false, not, ◌==◌, if◌then◌else◌, update,
  bit_and,
}
use brittle_kernel.Run.{ok, pure, require, ◌>>=◌, ◌>>◌, no_runnable_contexts}
use brittle_kernel.Abi.Sizes.{n_task_regions}
use brittle_kernel.Links
use brittle_kernel.Kernel.{
  Kernel, Object, memory, State, runnable, MemoryHead, Do, gets, modify, on_lists, body, object_at,
  put_body, emit, runnable_list, ctx_item, owner, stack_register,
}
use brittle_kernel.Kernel.Hardware.{Platform, mpu_enable, mpu_rbar, mpu_rasr, scb_set_pend_sv}
use brittle_kernel.Kernel.Keys.{get_region, pointee}

-- k/region.h.
pub record Region : Type 0 where
  pub rbar : ℕ
  pub rasr : ℕ

abbrev pub no_region : Region
no_region = record { rbar = 0; rasr = 0 }

-- Memory::is_mappable and Memory::get_cached_l2_half_size.
unfoldable pub is_mappable : MemoryHead → Bool
is_mappable m = not (bit_and m.attributes 2 == 0)

unfoldable pub get_cached_l2_half_size : MemoryHead → ℕ
get_cached_l2_half_size m = m.attributes / 2 ^ 8 % 2 ^ 5

-- Memory::get_region_for_brand.
unfoldable pub memory_region_for_brand : Platform → MemoryHead → ℕ → Region
unfolding is_mappable get_cached_l2_half_size
memory_region_for_brand p m brand =
    if is_mappable m
    then record {
      rbar = p.rbar_addr_27 (m.base / 2 ^ 5);
      rasr = p.rasr_enable (get_cached_l2_half_size m) (brand % 2 ^ 32 * 2 ^ 8 % 2 ^ 32);
    }
    else no_region

-- Object::get_region_for_brand, virtual.
unfoldable pub get_region_for_brand : Platform → Object → ℕ → Region
unfolding memory_region_for_brand
get_region_for_brand p (memory m) brand = memory_region_for_brand p m brand
get_region_for_brand p _ brand = no_region

-- One round of the loop in Context::apply_to_mpu.
unfoldable pub load_region : ℕ → ℕ → Do (Unit {0})
unfolding get_region get_region_for_brand
load_region c i = do
  key ← get_region c i
  region ← gets (λ k. get_region_for_brand k.platform (object_at k (pointee key)) key.brand)
  p ← gets (λ k. k.platform)
  emit (mpu_rbar (p.rbar_region i region.rbar))
  emit (mpu_rasr region.rasr)

unfoldable pub load_regions : ℕ → ℕ → ℕ → Do (Unit {0})
load_regions c zero i = pure tt
load_regions c (suc n) i = do load_region c i; load_regions c n (i + 1)

-- Context::apply_to_mpu.
unfoldable pub apply_to_mpu : ℕ → Do (Unit {0})
unfolding load_regions
apply_to_mpu c = do emit (mpu_enable false); load_regions c n_task_regions 0; emit (mpu_enable true)

-- `current->apply_to_mpu()`.
unfoldable pub apply_current : Do (Unit {0})
unfolding apply_to_mpu
apply_current k = apply_to_mpu k.current k

unfoldable pub pend_switch : Do (Unit {0})
pend_switch = modify (λ k. record k { switch_pending = true })

unfoldable pub switch_now : Do (Unit {0})
unfolding apply_current require
switch_now = do
  head ← gets (λ k. Links.peek runnable_list k.links)
  it ← require no_runnable_contexts head
  modify (λ k. record k { current = owner it })
  apply_current

unfoldable pub do_deferred_switch : Do (Unit {0})
unfolding switch_now
do_deferred_switch k =
    if k.switch_pending then switch_now (record k { switch_pending = false }) else ok tt k

unfoldable pub do_deferred_switch_from_irq : Do (Unit {0})
do_deferred_switch_from_irq k =
    if k.switch_pending then emit scb_set_pend_sv (record k { switch_pending = false }) else ok tt k

-- Context::set_stack and Context::stack.
unfoldable pub set_stack : ℕ → ℕ → Do (Unit {0})
set_stack c s = modify (put_body c (λ b. record b { save = update b.save stack_register s }))

unfoldable pub stack : Kernel → ℕ → ℕ
stack k c = (body k c).save stack_register

unfoldable pub switch_after_interrupt : ℕ → Do ℕ
unfolding set_stack switch_now stack
switch_after_interrupt s = do
  c ← gets (λ k. k.current)
  set_stack c s
  switch_now
  gets (λ k. stack k k.current)

unfoldable pub set_state : ℕ → State → Do (Unit {0})
set_state c state = modify (put_body c (λ b. record b { state = state }))

-- Context::make_runnable.
unfoldable pub make_runnable : ℕ → Do (Unit {0})
unfolding set_state pend_switch Links.insert
make_runnable c = do
  p ← gets (λ k. (body k c).priority)
  on_lists (Links.insert p runnable_list (ctx_item c))
  set_state c runnable
  pend_switch

-- `item.unlink()` of an object's item.
unfoldable pub unlink_item : ℕ → Do (Unit {0})
unfolding Links.unlink
unlink_item it = on_lists (λ s. ok tt (Links.unlink it s))
