-- ===== src/Kernel/Fuel/Total.antt =====
-- What the kernel's objects do with a message ends whatever the state: the loops are over fixed
-- ranges.
use brittle_kernel.Prelude.{ℕ, zero, suc, ◌+◌, Option, none, some, Bool-cases, inl, inr, false}
use brittle_kernel.Abi.Message.{Message}
use brittle_kernel.Run.{reinsert_without_insert, panic_unless, ok, panic, ◌>>◌}
use brittle_kernel.Run.Ends.{
  Ends, Finishes, Finishes-panic_if, Finishes-panic_unless, Ends-pure, Ends-then, Ends-fail,
}
use brittle_kernel.Links.{Links, insert, reinsert, unlink}
use brittle_kernel.Kernel.{
  Kernel, Object, object_table, memory, context, gate, interrupt, State, sending, receiving,
  stopped, runnable, Do, modify, on_lists,
}
use brittle_kernel.Kernel.Delivery.{
  on_blocked_delivery_aborted, complete_blocked_receive_exception, complete_receive_exception,
}
use brittle_kernel.Kernel.Dispatch.{handler, gate_handler, interrupt_handler}
use brittle_kernel.Kernel.Fuel.{
  On, Closed, ends, Ends-dispatch, Ends-on_lists, Ends-unlink_item, Ends-make_runnable,
}
use brittle_kernel.Kernel.Keys.{Bank}
use brittle_kernel.Kernel.Memory.{
  adopt, new_memory, leave_parent, destroy_memory, decoded, ap_is_stronger, SplitAccess, unshared,
  occupy, put_word,
}
use brittle_kernel.Kernel.Objects.{
  advance_reply_brand, disable_interrupt, enable_interrupt, clear_pending_interrupt, set_irq_entry,
  get_irq_entry, context_invalidation_hook, interrupt_invalidation_hook, invalidation_hook, hook_of,
  invalidate,
}
use brittle_kernel.Kernel.Protocol.{with_key, with_new_key}
use brittle_kernel.Kernel.Protocol.Context.{
  do_register, do_key_register, do_region_register, do_make_runnable, do_set_priority,
  do_read_registers, do_write_registers, context_handler, cancel_send, cancel_receive,
  runnable_from, requeue,
}
use brittle_kernel.Kernel.Protocol.Memory.{
  do_inspect, do_change, commit_split, do_split, do_become, place_child, do_make_child,
  do_peek_poke, checked_become, memory_handler, refuses_change, donated_slot, size_for_type_code,
  new_context, new_gate, new_interrupt, new_object,
}
use brittle_kernel.Kernel.Protocol.ObjectTable.{
  do_mint_key, do_read_key, do_get_kind, do_invalidate, object_table_handler,
}
use brittle_kernel.Kernel.Scheduler.{
  load_region, load_regions, apply_to_mpu, apply_current, switch_now, do_deferred_switch,
}

-- No condition on the links.
unfoldable pub Any : Links → Type 0
Any s = Unit {0}

-- A command that, from any state, returns or panics.
abbrev pub Total : {A : Type 0} → Do A → Type 0
Total m = Ends (On Any) (On Any) m

insert-Finishes : (p l it : ℕ) (s : Links) → Finishes (λ _ t. Any t) (insert p l it s)
unfolding insert Any
insert-Finishes p l it s =
    Finishes-panic_if _ _ _ _ s
      (λ _. Finishes-panic_if _ _ _ _ s (λ _. Finishes-panic_unless _ _ _ _ s (λ _. tt)))

reinsert-Finishes : (p it : ℕ) (s : Links) → Finishes (λ _ t. Any t) (reinsert p it s)
unfolding reinsert panic_unless
reinsert-Finishes p it s = go (s.container it)
  where
    go :
        (o : Option ℕ)
        → Finishes
            (λ _ t. Any t)
            (elim o [ none ↦ panic reinsert_without_insert | some l ↦ insert p l it (unlink it s) ])
    go none = tt
    go (some l) = insert-Finishes p l it _

pub Any-Closed : Closed Any
unfolding Any
Any-Closed = record {
  unlinked = λ it s h. tt;
  inserted = λ p l it s root item h. insert-Finishes p l it s;
}

pub Total-modify : (f : Kernel → Kernel) → Total (modify f)
unfolding modify On Any
Total-modify f = record { at = λ k h. tt }

pub Total-insert : (p l it : ℕ) → Total (on_lists (insert p l it))
Total-insert p l it = Ends-on_lists Any _ (λ s _. insert-Finishes p l it s)

pub Total-reinsert : (p it : ℕ) → Total (on_lists (reinsert p it))
Total-reinsert p it = Ends-on_lists Any _ (λ s _. reinsert-Finishes p it s)

pub Total-on_links : (f : Links → Links) → Total (on_lists (λ s. ok tt (f s)))
unfolding Any
Total-on_links f = Ends-on_lists Any _ (λ s _. tt)

pub ruleset totals = (
  Total-modify, Total-insert, Total-reinsert, Total-on_links, Any-Closed, Ends-unlink_item,
  Ends-make_runnable,
)

-- A store by unprivileged code.
pub Total-store : (address word : ℕ) → Total (unshared address 4 >> put_word address word)
unfolding unshared put_word
Total-store address word = search (ends, totals) depth 12

Total-load_regions : (c n i : ℕ) → Total (load_regions c n i)
unfolding load_regions load_region
Total-load_regions c zero i = Ends-pure _ tt
Total-load_regions c (suc n) i =
    Ends-then _ _ _ (search (ends, totals) depth 12) (Total-load_regions c n (i + 1))

Total-apply_to_mpu : (c : ℕ) → Total (apply_to_mpu c)
unfolding apply_to_mpu
Total-apply_to_mpu c = search (ends, Total-load_regions) depth 12

Total-apply_current : Total apply_current
unfolding apply_current
Total-apply_current = record { at = λ k h. (Total-apply_to_mpu k.current).at k h }

pub Total-switch_now : Total switch_now
unfolding switch_now
Total-switch_now = search (ends, totals, Total-apply_current) depth 12

pub Total-do_deferred_switch : Total do_deferred_switch
unfolding do_deferred_switch On Any
Total-do_deferred_switch = record {
  at = λ k h. elim (Bool-cases k.switch_pending) [
    | inl e ↦ simp e (Total-switch_now.at (record k { switch_pending = false }) tt)
    | inr e ↦ simp e tt
  ];
}

pub Total-disable_interrupt : (i : ℕ) → Total (disable_interrupt i)
unfolding disable_interrupt
Total-disable_interrupt i = search ends depth 9

Total-set_irq_entry : (i : ℕ) (h : Option ℕ) → Total (set_irq_entry i h)
unfolding set_irq_entry
Total-set_irq_entry i h = search (ends, totals) depth 12

pub Total-get_irq_entry : (i : ℕ) → Total (get_irq_entry i)
unfolding get_irq_entry
Total-get_irq_entry i = search ends depth 9

Total-hook_of : (o : Object) (i : ℕ) → Total (hook_of o i)
unfolding hook_of advance_reply_brand context_invalidation_hook interrupt_invalidation_hook
    clear_pending_interrupt
Total-hook_of (context b) i = search (ends, totals) depth 20
Total-hook_of (memory m) i = Total-apply_current
Total-hook_of (interrupt b) i =
    search (ends, totals, Total-disable_interrupt, Total-set_irq_entry) depth 20
Total-hook_of _ i = Ends-pure _ tt

Total-invalidate : (i : ℕ) → Total (invalidate i)
unfolding invalidate invalidation_hook
Total-invalidate i = search (ends, totals, Ends-dispatch, Total-hook_of) depth 12

Total-object_table :
    (this brand : ℕ) (m : Message) (keys : Bank) → Total (object_table_handler this brand m keys)
unfolding object_table_handler do_mint_key do_read_key do_get_kind do_invalidate with_key
Total-object_table this brand m keys = search (ends, totals, Total-invalidate) depth 30

Total-runnable_from : (s : State) (this : ℕ) → Total (runnable_from s this)
unfolding runnable_from advance_reply_brand cancel_send cancel_receive on_blocked_delivery_aborted
    complete_blocked_receive_exception complete_receive_exception
Total-runnable_from sending this = search (ends, totals) depth 12
Total-runnable_from receiving this = search (ends, totals) depth 12
Total-runnable_from stopped this = search totals depth 9
Total-runnable_from runnable this = Ends-pure _ tt

Total-context :
    (this brand : ℕ) (m : Message) (keys : Bank) → Total (context_handler this brand m keys)
unfolding context_handler do_register do_key_register do_region_register do_make_runnable
    do_set_priority requeue do_read_registers do_write_registers with_key
Total-context this brand m keys =
    search (ends, totals, Total-runnable_from, Total-apply_to_mpu) depth 40

Total-adopt : (base size : ℕ) (parent : Option ℕ) → Total (adopt base size parent)
unfolding adopt
Total-adopt base size none = Ends-pure _ tt
Total-adopt base size (some p) = search (ends, totals) depth 9

Total-new_memory :
    (at g base size atts : ℕ) (parent : Option ℕ) → Total (new_memory at g base size atts parent)
unfolding new_memory
Total-new_memory at g base size atts parent = search (ends, totals, Total-adopt) depth 9

Total-leave_parent : (p : Option ℕ) → Total (leave_parent p)
unfolding leave_parent
Total-leave_parent none = Ends-pure _ tt
Total-leave_parent (some p) = Total-modify _

Total-destroy_memory : (i : ℕ) → Total (destroy_memory i)
unfolding destroy_memory
Total-destroy_memory i = search (ends, totals, Total-leave_parent) depth 9

Total-decoded : (o : Option SplitAccess) → Total (decoded o)
unfolding decoded
Total-decoded none = Ends-fail _ _
Total-decoded (some a) = Ends-pure _ a

Total-new_object : (tc at g arg : ℕ) → Total (new_object tc at g arg)
unfolding new_object new_context new_gate new_interrupt
Total-new_object tc at g arg = search (ends, totals, Total-set_irq_entry) depth 20

Total-memory :
    (this brand : ℕ) (m : Message) (keys : Bank) → Total (memory_handler this brand m keys)
unfolding memory_handler do_inspect do_change refuses_change ap_is_stronger do_split donated_slot
    unshared occupy put_word commit_split checked_become do_become size_for_type_code do_peek_poke
    do_make_child place_child with_new_key with_key
Total-memory this brand m keys =
    search
      (
        ends, totals, Total-decoded, Total-new_memory, Total-destroy_memory, Total-new_object,
        Total-apply_current,
      )
      depth 60

pub Total-handler :
    (o : Object) (this brand : ℕ) (m : Message) (keys : Bank) → Total (handler o this brand m keys)
unfolding handler gate_handler interrupt_handler with_new_key with_key enable_interrupt
    clear_pending_interrupt
Total-handler object_table this brand m keys = Total-object_table this brand m keys
Total-handler (memory h) this brand m keys = Total-memory this brand m keys
Total-handler (context b) this brand m keys = Total-context this brand m keys
Total-handler gate this brand m keys = search (ends, totals) depth 12
Total-handler (interrupt b) this brand m keys = search (ends, totals) depth 20
Total-handler _ this brand m keys = Ends-pure _ _
