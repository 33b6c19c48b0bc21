-- ===== src/Kernel/Safety/Objects.antt =====
-- The invariant of Kernel/Safety through invalidation and the construction of objects.
use brittle_kernel.Prelude.{ℕ, ◌≢◌, refl, Option, none, some, ◌==◌, update}
use brittle_kernel.Run.Keeps.{
  Keeps, Keeps-then, Keeps-pure, Keeps-if, Keeps-fail, Keeps-panic_if, Keeps-bind,
}
use brittle_kernel.Kernel.{Object, memory, context, interrupt, put_object, object_at, modify}
use brittle_kernel.Kernel.Memory.{
  adopt, new_memory, leave_parent, destroy_memory, ap_is_stronger, decoded, SplitAccess, unshared,
  occupy, put_word,
}
use brittle_kernel.Kernel.Objects.{
  advance_reply_brand, context_invalidation_hook, disable_interrupt, enable_interrupt,
  clear_pending_interrupt, get_irq_entry, set_irq_entry, interrupt_invalidation_hook, hook_of,
  invalidation_hook, invalidate, next_generation,
}
use brittle_kernel.Kernel.Protocol.Memory.{new_context, new_gate, new_interrupt, new_object}
use brittle_kernel.Kernel.Safety.{
  Safe, Inv-update, Keeps-on_lists, Keeps-modify, Keeps-put_body, Keeps-put_object,
  Keeps-put_memory, Keeps-dispatch, Keeps-gets,
}
use brittle_kernel.Kernel.Safety.Delivery.{keeps}
use brittle_kernel.Kernel.Safety.Scheduler.{Keeps-emit, Keeps-apply_current}

pub Keeps-advance_reply_brand : (c : ℕ) → Keeps Safe (advance_reply_brand c)
unfolding advance_reply_brand
Keeps-advance_reply_brand c = Keeps-put_body c _ (λ b z. z)

Keeps-context_hook : (c : ℕ) → Keeps Safe (context_invalidation_hook c)
unfolding context_invalidation_hook
Keeps-context_hook c = search (keeps, Keeps-advance_reply_brand) depth 20

pub Keeps-disable_interrupt : (i : ℕ) → Keeps Safe (disable_interrupt i)
unfolding disable_interrupt
Keeps-disable_interrupt i = search (keeps, Keeps-emit) depth 9

pub Keeps-enable_interrupt : (i : ℕ) → Keeps Safe (enable_interrupt i)
unfolding enable_interrupt
Keeps-enable_interrupt i = search (keeps, Keeps-emit) depth 9

pub Keeps-clear_pending : (i : ℕ) → Keeps Safe (clear_pending_interrupt i)
unfolding clear_pending_interrupt
Keeps-clear_pending i = search (keeps, Keeps-emit) depth 9

pub Keeps-get_irq_entry : (i : ℕ) → Keeps Safe (get_irq_entry i)
unfolding get_irq_entry
Keeps-get_irq_entry i = search (keeps, Keeps-panic_if) depth 9

Keeps-write_irq_entry :
    (i : ℕ) (h : Option ℕ)
    → Keeps Safe (modify (λ k. record k { irq_table = update k.irq_table i h }))
Keeps-write_irq_entry i h = Keeps-modify _ (λ k s. s)

pub Keeps-set_irq_entry : (i : ℕ) (h : Option ℕ) → Keeps Safe (set_irq_entry i h)
unfolding set_irq_entry
Keeps-set_irq_entry i h = search (keeps, Keeps-panic_if, Keeps-write_irq_entry) depth 9

Keeps-hook_of : (o : Object) (i : ℕ) → Keeps Safe (hook_of o i)
unfolding hook_of interrupt_invalidation_hook
Keeps-hook_of (context b) i = Keeps-context_hook i
Keeps-hook_of (memory m) i = Keeps-apply_current
Keeps-hook_of (interrupt b) i =
    search (keeps, Keeps-disable_interrupt, Keeps-clear_pending, Keeps-set_irq_entry) depth 12
Keeps-hook_of _ i = Keeps-pure Safe tt

-- `++_generation` leaves every object what it is.
Keeps-advance_generation :
    (i : ℕ)
    → Keeps Safe (
        modify (λ k.
          put_object i
            (record {
              generation = next_generation (k.objects i).generation;
              object = object_at k i;
            })
            k))
Keeps-advance_generation i =
    Keeps-modify _ (λ k h. Inv-update k.objects i _ (λ n e. rw (e, n)) (λ n. n) h)

pub Keeps-invalidate : (i : ℕ) → Keeps Safe (invalidate i)
unfolding invalidate invalidation_hook
Keeps-invalidate i =
    Keeps-then Safe _ _ (Keeps-dispatch i _ (λ o. Keeps-hook_of o i)) (Keeps-advance_generation i)

Keeps-adopt : (base size : ℕ) (parent : Option ℕ) → Keeps Safe (adopt base size parent)
unfolding adopt
Keeps-adopt base size none = Keeps-pure Safe tt
Keeps-adopt base size (some p) = search (keeps, Keeps-put_memory) depth 9

pub Keeps-new_memory :
    (at g base size atts : ℕ) (parent : Option ℕ)
    → at ≢ 0
    → Keeps Safe (new_memory at g base size atts parent)
unfolding new_memory
Keeps-new_memory at g base size atts parent ne =
    Keeps-then Safe _ _ (Keeps-panic_if Safe _ _)
      (Keeps-then Safe _ _ (Keeps-put_object at _ ne refl) (Keeps-adopt base size parent))

Keeps-leave_parent : (p : Option ℕ) → Keeps Safe (leave_parent p)
unfolding leave_parent
Keeps-leave_parent none = Keeps-pure Safe tt
Keeps-leave_parent (some p) = Keeps-put_memory p _

pub Keeps-destroy_memory : (i : ℕ) → Keeps Safe (destroy_memory i)
unfolding destroy_memory
Keeps-destroy_memory i =
    search (keeps, Keeps-panic_if, Keeps-leave_parent, Keeps-put_memory) depth 9

Keeps-decoded : (o : Option SplitAccess) → Keeps Safe (decoded o)
unfolding decoded
Keeps-decoded none = Keeps-fail Safe _
Keeps-decoded (some a) = Keeps-pure Safe a

pub Keeps-unshared : (a n : ℕ) → Keeps Safe (unshared a n)
unfolding unshared
Keeps-unshared a n = Keeps-bind Safe _ _ (Keeps-gets _) (λ own. Keeps-panic_if Safe _ _)

pub Keeps-occupy : (a n : ℕ) → Keeps Safe (occupy a n)
unfolding occupy
Keeps-occupy a n = Keeps-modify _ (λ k h. h)

pub Keeps-put_word : (address w : ℕ) → Keeps Safe (put_word address w)
unfolding put_word
Keeps-put_word address w = Keeps-modify _ (λ k h. h)

pub Keeps-ap_is_stronger : (a b : ℕ) → Keeps Safe (ap_is_stronger a b)
unfolding ap_is_stronger
Keeps-ap_is_stronger a b = search (keeps, Keeps-decoded) depth 9

module _ (at g : ℕ) (ne : at ≢ 0) where
  pub Keeps-new_context : Keeps Safe (new_context at g)
  unfolding new_context
  Keeps-new_context = Keeps-then Safe _ _ (Keeps-on_lists _) (Keeps-put_object at _ ne refl)

  Keeps-new_gate : Keeps Safe (new_gate at g)
  unfolding new_gate
  Keeps-new_gate =
      Keeps-then Safe _ _ (Keeps-on_lists _)
        (Keeps-then Safe _ _ (Keeps-on_lists _) (Keeps-put_object at _ ne refl))

  Keeps-new_interrupt : (id : ℕ) → Keeps Safe (new_interrupt at g id)
  unfolding new_interrupt
  Keeps-new_interrupt id =
      Keeps-then Safe _ _ (Keeps-on_lists _)
        (Keeps-then Safe _ _ (Keeps-put_object at _ ne refl) (Keeps-set_irq_entry _ _))

  pub Keeps-new_object : (tc arg : ℕ) → Keeps Safe (new_object tc at g arg)
  unfolding new_object
  Keeps-new_object tc arg =
      Keeps-if Safe (tc == 0) _ _ Keeps-new_context
        (Keeps-if Safe (tc == 1) _ _ Keeps-new_gate (Keeps-new_interrupt arg))
