-- ===== src/Kernel/Settled/Creation.antt =====
-- A new context, gate or interrupt: one more object is in use, whose nodes were in no list.
use brittle_kernel.Prelude.{
  ℕ, ◌<◌, ◌≡◌, refl, sym, Bool, true, false, some, ◌==◌, update, Bool-cases, inl, inr, arith,
  fun_ext,
}
use mathlib.Core.Path.{subst}
use brittle_kernel.Run.Keeps.{Leads, Leads-Keeps, Leads-then, Leads-if}
use brittle_kernel.Links.Laid.{in_use}
use brittle_kernel.Links.Laid.Operations.{fresh-Laid, Laid-more}
use brittle_kernel.Links
use brittle_kernel.Kernel.{
  Kernel, Object, put_object, object_at, modify, ctx_item, sender_item, senders, receivers,
}
use brittle_kernel.Kernel.Protocol.Memory.{
  new_context, new_gate, new_interrupt, new_object, fresh_items,
}
use brittle_kernel.Kernel.Settled.{Settled, J, settled, Keeps-on_lists, node-idle}
use brittle_kernel.Kernel.Settled.Objects.{Keeps-set_irq_entry}

-- The invariant, for the objects that are settled.
abbrev pub live_at : Kernel → ℕ → Bool
live_at k i = settled (object_at k i)

abbrev pub Sound : ℕ → Kernel → Type 0
Sound n k = Settled (live_at k) (live_at k) n k

pub Settled-Sound : (live : ℕ → Bool) (n : ℕ) (k : Kernel) → J live live n k → Sound n k
Settled-Sound live n k h = subst (λ x. Settled x x n k) (sym (fun_ext h.kinds)) h

abbrev pub more : (ℕ → Bool) → ℕ → ℕ → Bool
more live i = update live i true

module _ (live E F : ℕ → Bool) (n at : ℕ) (within : (i : ℕ) → E i ≡ true → F i ≡ true)
    (u : live at ≡ false) (lt : at < n) where
  Settled-new :
      (k : Kernel) (g : ℕ) (o : Object)
      → settled o ≡ true
      → J live E n k
      → J (more live at) F n (put_object at (record { generation = g; object = o }) k)
  Settled-new k g o s h = record {
    count = h.count;
    kinds = λ j. elim (Bool-cases (j == at)) [
      | inl t ↦ rw (object_at, t) s
      | inr t ↦ rw (object_at, t) (h.kinds j)
    ];
    beyond = λ j le. elim (Bool-cases (j == at)) [
      | inl t ↦ absurd (ground (arith, lt, le))
      | inr t ↦ rw (object_at, t) (h.beyond j le)
    ];
    lists = Laid-more live (more live at) k.links (λ i e. ground (arith, e)) h.lists;
    current = within k.current h.current;
    handlers = λ x i e. ground (arith, h.handlers x i e);
  }

  Leads-put :
      (g : ℕ) (o : Object)
      → settled o ≡ true
      → Leads
          (J live E n)
          (J (more live at) F n)
          (modify (put_object at (record { generation = g; object = o })))
  unfolding modify
  Leads-put g o s = record { at = λ k h. Settled-new k g o s h }

  -- Two nodes of the object are built.
  Leads-fresh :
      (a b : ℕ)
      → in_use live a ≡ false
      → in_use live b ≡ false
      → Leads (J live E n) (J live E n) (fresh_items (λ s. Links.fresh b (Links.fresh a s)))
  Leads-fresh a b ia ib =
      Leads-Keeps _ _ _ (λ k h. h)
        (Keeps-on_lists live E n _ λ s l. fresh-Laid live b _ (fresh-Laid live a s l ia) ib)

  Leads-fresh_one :
      (a : ℕ)
      → in_use live a ≡ false
      → Leads (J live E n) (J live E n) (fresh_items (Links.fresh a))
  Leads-fresh_one a ia =
      Leads-Keeps _ _ _ (λ k h. h) (Keeps-on_lists live E n _ λ s l. fresh-Laid live a s l ia)

  pub Leads-new_context : (g : ℕ) → Leads (J live E n) (J (more live at) F n) (new_context at g)
  unfolding new_context settled
  Leads-new_context g =
      Leads-then _ _ (J live E n) _ _
        (Leads-fresh (ctx_item at) (sender_item at)
          (node-idle live at (ctx_item at) (omega arith) (omega arith) u)
          (node-idle live at (sender_item at) (omega arith) (omega arith) u))
        (Leads-put g _ refl)

  Leads-new_gate : (g : ℕ) → Leads (J live E n) (J (more live at) F n) (new_gate at g)
  unfolding new_gate settled
  Leads-new_gate g =
      Leads-then _ _ (J live E n) _ _
        (Leads-fresh (senders at) _ (node-idle live at _ (omega arith) (omega arith) u)
          (node-idle live at _ (omega arith) (omega arith) u))
        (Leads-then _ _ (J live E n) _ _
          (Leads-fresh (receivers at) _ (node-idle live at _ (omega arith) (omega arith) u)
            (node-idle live at _ (omega arith) (omega arith) u))
          (Leads-put g _ refl))

  Leads-new_interrupt :
      (g id : ℕ) → Leads (J live E n) (J (more live at) F n) (new_interrupt at g id)
  unfolding new_interrupt settled
  Leads-new_interrupt g id =
      Leads-then _ _ (J live E n) _ _
        (Leads-fresh_one (sender_item at) (node-idle live at _ (omega arith) (omega arith) u))
        (Leads-then _ _ (J (more live at) F n) _ _ (Leads-put g _ refl) (
          Leads-Keeps _ _ _ (λ k h. h)
            (Keeps-set_irq_entry (more live at) F n _ (some at) (λ i e. ground (arith, e)))))

  pub Leads-new_object :
      (tc g arg : ℕ) → Leads (J live E n) (J (more live at) F n) (new_object tc at g arg)
  unfolding new_object
  Leads-new_object tc g arg =
      Leads-if _ _ (tc == 0) _ _ (Leads-new_context g)
        (Leads-if _ _ (tc == 1) _ _ (Leads-new_gate g) (Leads-new_interrupt g arg))
