-- ===== src/Kernel/Objects/Revocation.antt =====
-- Object::invalidate and the keys made before it: k/object.cc and Key::get of k/key.cc.
use brittle_kernel.Prelude.{ℕ, zero, suc, ◌+◌, ◌^◌, ◌<◌, ◌≡◌, refl, Option, some, arith, update}
use brittle_kernel.Run.{Run, Cmd, ok, panic, out_of_fuel, ◌>>=◌, ◌>>◌}
use brittle_kernel.Run.Keeps.{
  Keeps, Ensures, Ensures-ok, and_then-Ensures_of, Keeps-bind, Keeps-then, Keeps-pure, Keeps-if,
  Keeps-panic_if, Keeps-panic_unless,
}
use brittle_kernel.Links.{Links}
use brittle_kernel.Kernel.{
  Kernel, Key, Object, ContextBody, context, memory, interrupt, gets, modify, on_lists, with_lists,
  put_body, emit, dispatch, object_at,
}
use brittle_kernel.Kernel.Hardware.{HwOp}
use brittle_kernel.Kernel.Keys.{resolve, null_key, get_region}
use brittle_kernel.Kernel.Objects.{
  advance_reply_brand, context_invalidation_hook, disable_interrupt, clear_pending_interrupt,
  set_irq_entry, interrupt_invalidation_hook, hook_of, invalidation_hook, next_generation,
  invalidate,
}
use brittle_kernel.Kernel.Scheduler.{
  apply_current, apply_to_mpu, load_region, load_regions, pend_switch, set_state, unlink_item,
}

module _ (i g : ℕ) where
  -- Object `i` is of generation `g`.
  abbrev HasGeneration : Kernel → Type 0
  HasGeneration k = (k.objects i).generation ≡ g

  Keeps-gets : {A : Type 0} (f : Kernel → A) → Keeps HasGeneration (gets f)
  unfolding gets
  Keeps-gets f = record { at = λ s h. h }

  Keeps-modify :
      (f : Kernel → Kernel)
      → ((k : Kernel) → ((f k).objects i).generation ≡ (k.objects i).generation)
      → Keeps HasGeneration (modify f)
  unfolding modify
  Keeps-modify f e = record { at = λ k h. rw (e k, h) }

  with_lists-HasGeneration :
      {A : Type 0} (k : Kernel) (r : Run Links A)
      → HasGeneration k
      → Ensures (λ _ t. HasGeneration t) (with_lists k r)
  with_lists-HasGeneration k (ok a s) h = h
  with_lists-HasGeneration k (panic e) h = tt
  with_lists-HasGeneration k out_of_fuel h = tt

  Keeps-on_lists : {A : Type 0} (m : Cmd Links A) → Keeps HasGeneration (on_lists m)
  unfolding on_lists
  Keeps-on_lists m = record { at = λ k h. with_lists-HasGeneration k (m k.links) h }

  Keeps-emit : (op : HwOp) → Keeps HasGeneration (emit op)
  unfolding emit
  Keeps-emit op = record { at = λ k h. h }

  put_body-generation :
      (c : ℕ) (f : ContextBody → ContextBody) (k : Kernel)
      → ((put_body c f k).objects i).generation ≡ (k.objects i).generation
  put_body-generation c f k = ground arith

  Keeps-put_body :
      (c : ℕ) (f : ContextBody → ContextBody) → Keeps HasGeneration (modify (put_body c f))
  Keeps-put_body c f = Keeps-modify _ (put_body-generation c f)

  Keeps-get_region : (c j : ℕ) → Keeps HasGeneration (get_region c j)
  unfolding get_region
  Keeps-get_region c j = record { at = λ k h. rw (put_body-generation c _ k, h) }

  Keeps-load_region : (c j : ℕ) → Keeps HasGeneration (load_region c j)
  unfolding load_region
  Keeps-load_region c j =
      search (Keeps-bind, Keeps-then, Keeps-gets, Keeps-emit, Keeps-get_region) depth 12

  Keeps-load_regions : (c n j : ℕ) → Keeps HasGeneration (load_regions c n j)
  unfolding load_regions
  Keeps-load_regions c zero j = Keeps-pure HasGeneration tt
  Keeps-load_regions c (suc n) j =
      Keeps-then HasGeneration _ _ (Keeps-load_region c j) (Keeps-load_regions c n (j + 1))

  Keeps-apply_to_mpu : (c : ℕ) → Keeps HasGeneration (apply_to_mpu c)
  unfolding apply_to_mpu
  Keeps-apply_to_mpu c = search (Keeps-then, Keeps-emit, Keeps-load_regions) depth 9

  Keeps-apply_current : Keeps HasGeneration apply_current
  unfolding apply_current
  Keeps-apply_current = record { at = λ k h. (Keeps-apply_to_mpu k.current).at k h }

  Keeps-pend_switch : Keeps HasGeneration pend_switch
  unfolding pend_switch
  Keeps-pend_switch = Keeps-modify _ (λ k. refl)

  Keeps-write_irq_entry :
      (j : ℕ) (handler : Option ℕ)
      → Keeps HasGeneration (modify (λ k. record k { irq_table = update k.irq_table j handler }))
  Keeps-write_irq_entry j handler = Keeps-modify _ (λ k. refl)

  ruleset steps = (
    Keeps-bind, Keeps-then, Keeps-pure, Keeps-if, Keeps-panic_if, Keeps-panic_unless, Keeps-gets,
    Keeps-on_lists, Keeps-emit, Keeps-put_body, Keeps-pend_switch, Keeps-write_irq_entry,
  )

  Keeps-context_hook : (c : ℕ) → Keeps HasGeneration (context_invalidation_hook c)
  unfolding context_invalidation_hook unlink_item set_state advance_reply_brand
  Keeps-context_hook c = search steps depth 14

  Keeps-interrupt_hook : (c : ℕ) → Keeps HasGeneration (interrupt_invalidation_hook c)
  unfolding interrupt_invalidation_hook disable_interrupt clear_pending_interrupt unlink_item
      set_irq_entry
  Keeps-interrupt_hook c = search steps depth 16

  Keeps-hook_of : (o : Object) (c : ℕ) → Keeps HasGeneration (hook_of o c)
  unfolding hook_of
  Keeps-hook_of (context b) c = Keeps-context_hook c
  Keeps-hook_of (memory m) c = Keeps-apply_current
  Keeps-hook_of (interrupt b) c = Keeps-interrupt_hook c
  Keeps-hook_of _ c = Keeps-pure HasGeneration tt

-- `invalidate` advances the generation of its object, modulo 2^32, on every return.
invalidate-generation :
    (i : ℕ) (k : Kernel)
    → Ensures
        (λ _ t. (t.objects i).generation ≡ next_generation (k.objects i).generation)
        (invalidate i k)
unfolding invalidate ◌>>◌ ◌>>=◌ modify invalidation_hook dispatch
invalidate-generation i k =
    and_then-Ensures_of (λ _ t. (t.objects i).generation ≡ (k.objects i).generation) _ _ _
      ((Keeps-hook_of i (k.objects i).generation (object_at k i) i).at k refl) λ _ s e. ground arith

-- After `invalidate` returns, a key to its object that was of the object's 32-bit generation before
-- is dead: reading it gives a key to the null object.
pub invalidate-revokes :
    (i : ℕ) (k l : Kernel) (key : Key)
    → (k.objects i).generation < 2 ^ 32
    → key.ptr ≡ some i
    → key.generation ≡ (k.objects i).generation
    → invalidate i k ≡ ok tt l
    → resolve l key ≡ null_key l
unfolding resolve
invalidate-revokes i k l key lt p g e =
    let n : (l.objects i).generation ≡ next_generation (k.objects i).generation =
      Ensures-ok _ _ tt l (invalidate-generation i k) e in
    ground arith
