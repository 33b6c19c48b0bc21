-- ===== src/Kernel/Settled/Objects.antt =====
-- The invariant of Kernel/Settled through invalidation, interrupts and Memory objects.
use brittle_kernel.Prelude.{
  ℕ, ◌<◌, ◌≡◌, refl, Bool, true, false, Option, none, some, ◌==◌, update, Bool-cases, inl, inr,
  arith,
}
use brittle_kernel.Run.Keeps.{Keeps, Keeps-then, Keeps-pure, Keeps-fail, Keeps-panic_if, Keeps-bind}
use brittle_kernel.Kernel.{
  Kernel, Object, memory, context, interrupt, put_object, object_at, modify,
}
use brittle_kernel.Kernel.Memory.{
  unshared, occupy, put_word, adopt, new_memory, leave_parent, destroy_memory, ap_is_stronger,
  decoded, SplitAccess,
}
use brittle_kernel.Kernel.Objects.{
  advance_reply_brand, context_invalidation_hook, disable_interrupt, enable_interrupt,
  clear_pending_interrupt, set_irq_entry, interrupt_invalidation_hook, hook_of, invalidation_hook,
  invalidate, next_generation,
}
use brittle_kernel.Kernel.Settled.{
  J, settled, Settled-put_object, Keeps-modify, Keeps-put_body, Keeps-put_memory, Keeps-dispatch,
  Keeps-gets,
}
use brittle_kernel.Kernel.Settled.Scheduler.{keeps, Keeps-apply_current}

module _ (live E : ℕ → Bool) (n : ℕ) where
  pub Keeps-advance_reply_brand : (c : ℕ) → Keeps (J live E n) (advance_reply_brand c)
  unfolding advance_reply_brand
  Keeps-advance_reply_brand c = Keeps-put_body live E n c _

  Keeps-context_hook : (c : ℕ) → Keeps (J live E n) (context_invalidation_hook c)
  unfolding context_invalidation_hook
  Keeps-context_hook c = search keeps depth 20

  pub Keeps-disable_interrupt : (i : ℕ) → Keeps (J live E n) (disable_interrupt i)
  unfolding disable_interrupt
  Keeps-disable_interrupt i = search keeps depth 9

  pub Keeps-enable_interrupt : (i : ℕ) → Keeps (J live E n) (enable_interrupt i)
  unfolding enable_interrupt
  Keeps-enable_interrupt i = search keeps depth 9

  pub Keeps-clear_pending : (i : ℕ) → Keeps (J live E n) (clear_pending_interrupt i)
  unfolding clear_pending_interrupt
  Keeps-clear_pending i = search keeps depth 9

  -- A handler is in use.
  abbrev pub Handling : Option ℕ → Type 0
  Handling o = (i : ℕ) → o ≡ some i → live i ≡ true

  Settled-handler :
      (k : Kernel) (x : ℕ) (o : Option ℕ)
      → Handling o
      → J live E n k
      → J live E n (record k { irq_table = update k.irq_table x o })
  Settled-handler k x o f h = record {
    count = h.count;
    kinds = h.kinds;
    beyond = h.beyond;
    lists = h.lists;
    current = h.current;
    handlers = λ y i e. elim (Bool-cases (y == x)) [
      | inl t ↦ f i (ground (arith, e))
      | inr t ↦ h.handlers y i (ground (arith, e))
    ];
  }

  Keeps-write_irq_entry :
      (x : ℕ) (o : Option ℕ)
      → Handling o
      → Keeps (J live E n) (modify (λ k. record k { irq_table = update k.irq_table x o }))
  Keeps-write_irq_entry x o f = Keeps-modify live E n _ (λ k h. Settled-handler k x o f h)

  pub Keeps-set_irq_entry :
      (x : ℕ) (o : Option ℕ) → Handling o → Keeps (J live E n) (set_irq_entry x o)
  unfolding set_irq_entry
  Keeps-set_irq_entry x o f = search (keeps, Keeps-write_irq_entry) depth 9

  pub Handling-none : Handling none
  Handling-none i e = cc

  Keeps-hook_of : (o : Object) (i : ℕ) → Keeps (J live E n) (hook_of o i)
  unfolding hook_of interrupt_invalidation_hook
  Keeps-hook_of (context b) i = Keeps-context_hook i
  Keeps-hook_of (memory m) i = Keeps-apply_current live E n
  Keeps-hook_of (interrupt b) i =
      search
        (keeps, Keeps-disable_interrupt, Keeps-clear_pending, Keeps-set_irq_entry, Handling-none)
        depth 12
  Keeps-hook_of _ i = Keeps-pure _ tt

  -- `++_generation` leaves every object what it is.
  Keeps-advance_generation :
      (i : ℕ)
      → Keeps (J live E n) (
          modify (λ k.
            put_object i
              (record {
                generation = next_generation (k.objects i).generation;
                object = object_at k i;
              })
              k))
  Keeps-advance_generation i =
      Keeps-modify live E n _ (λ k h. Settled-put_object live E n k i _ (h.kinds i) (h.beyond i) h)

  pub Keeps-invalidate : (i : ℕ) → Keeps (J live E n) (invalidate i)
  unfolding invalidate invalidation_hook
  Keeps-invalidate i =
      Keeps-then _ _ _ (Keeps-dispatch live E n i _ (λ o _. Keeps-hook_of o i))
        (Keeps-advance_generation i)

  Keeps-adopt : (base size : ℕ) (parent : Option ℕ) → Keeps (J live E n) (adopt base size parent)
  unfolding adopt
  Keeps-adopt base size none = Keeps-pure _ tt
  Keeps-adopt base size (some p) = search (keeps, Keeps-put_memory) depth 9

  -- An object without lists may be put at an index of the table that is not in use.
  pub Keeps-put_object :
      (i g : ℕ) (o : Object)
      → settled o ≡ false
      → live i ≡ false
      → i < n
      → Keeps (J live E n) (modify (put_object i (record { generation = g; object = o })))
  Keeps-put_object i g o s u lt = Keeps-modify live E n _ (λ k h.
      Settled-put_object live E n k i _ (rw (s, u) refl) (λ le. absurd (omega (arith, lt, le))) h)

  pub Keeps-new_memory :
      (at g base size atts : ℕ) (parent : Option ℕ)
      → live at ≡ false
      → at < n
      → Keeps (J live E n) (new_memory at g base size atts parent)
  unfolding new_memory settled
  Keeps-new_memory at g base size atts parent u lt =
      search (keeps, Keeps-put_object, Keeps-adopt) depth 12

  Keeps-leave_parent : (p : Option ℕ) → Keeps (J live E n) (leave_parent p)
  unfolding leave_parent
  Keeps-leave_parent none = Keeps-pure _ tt
  Keeps-leave_parent (some p) = Keeps-put_memory live E n p _

  pub Keeps-destroy_memory : (i : ℕ) → Keeps (J live E n) (destroy_memory i)
  unfolding destroy_memory
  Keeps-destroy_memory i = search (keeps, Keeps-leave_parent, Keeps-put_memory) depth 12

  Keeps-decoded : (o : Option SplitAccess) → Keeps (J live E n) (decoded o)
  unfolding decoded
  Keeps-decoded none = Keeps-fail _ _
  Keeps-decoded (some a) = Keeps-pure _ a

  pub Keeps-unshared : (a m : ℕ) → Keeps (J live E n) (unshared a m)
  unfolding unshared
  Keeps-unshared a m = Keeps-bind _ _ _ (Keeps-gets live E n _) (λ own. Keeps-panic_if _ _ _)

  pub Keeps-occupy : (a m : ℕ) → Keeps (J live E n) (occupy a m)
  unfolding occupy
  Keeps-occupy a m = Keeps-modify live E n _ λ k h. record {
    count = h.count;
    kinds = h.kinds;
    beyond = h.beyond;
    lists = h.lists;
    current = h.current;
    handlers = h.handlers;
  }

  pub Keeps-put_word : (address w : ℕ) → Keeps (J live E n) (put_word address w)
  unfolding put_word
  Keeps-put_word address w = Keeps-modify live E n _ λ k h. record {
    count = h.count;
    kinds = h.kinds;
    beyond = h.beyond;
    lists = h.lists;
    current = h.current;
    handlers = h.handlers;
  }

  pub Keeps-ap_is_stronger : (a b : ℕ) → Keeps (J live E n) (ap_is_stronger a b)
  unfolding ap_is_stronger
  Keeps-ap_is_stronger a b = search (keeps, Keeps-decoded) depth 9
