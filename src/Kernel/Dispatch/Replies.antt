-- ===== src/Kernel/Dispatch/Replies.antt =====
-- The replies of the kernel's objects: none of the handlers' replies asks for a reply itself.
use brittle_kernel.Prelude.{ℕ, ◌≡◌, refl, arith, ◌<◌}
use brittle_kernel.Run.{◌>>=◌, ◌>>◌, pure}
use brittle_kernel.Run.Yields.{
  Yields, Yields-bind, Yields-then, Yields-pure, Yields-maybe, Yields-if, Yields-bind_value,
}
use brittle_kernel.Abi.Message.{Message}
use brittle_kernel.Kernel.{
  Kernel, Key, empty_key, gets, Object, object_table, memory, context, gate, interrupt, Do,
}
use brittle_kernel.Kernel.Delivery.{ReplySender}
use brittle_kernel.Kernel.Dispatch.{gate_handler, interrupt_handler, handler}
use brittle_kernel.Kernel.Keys.{Bank}
use brittle_kernel.Kernel.Protocol.{Handler, with_key, with_new_key, do_badop, refuse, empty_reply}
use brittle_kernel.Kernel.Protocol.Context.{
  do_register, do_key_register, do_region_register, do_make_runnable, do_set_priority,
  do_read_registers, do_write_registers, context_handler,
}
use brittle_kernel.Kernel.Protocol.Memory.{
  do_inspect, do_change, commit_split, do_split, do_become, place_child, do_make_child,
  do_peek_poke, checked_become, memory_handler,
}
use brittle_kernel.Kernel.Protocol.ObjectTable.{
  do_mint_key, do_read_key, do_get_kind, do_invalidate, object_table_handler,
}

-- The reply carries no key to reply to it.
abbrev pub IsFinal : ReplySender → Type 0
IsFinal r = r.keys 0 ≡ empty_key

abbrev Answers : Handler → Type 0
Answers handle =
    (this brand : ℕ) (m : Message) (keys : Bank) → Yields IsFinal (handle this brand m keys)

Yields-gets : (f : Kernel → ReplySender) → ((k : Kernel) → IsFinal (f k)) → Yields IsFinal (gets f)
unfolding gets
Yields-gets f p = record { at = p }

Yields-with_key :
    (i : ℕ) (key : Key) (r : ReplySender) → 0 < i → IsFinal r → Yields IsFinal (with_key i key r)
unfolding with_key
Yields-with_key i key r lt p = Yields-then IsFinal _ _ (Yields-pure IsFinal _ (ground (arith, p)))

Yields-with_new_key :
    (i o brand : ℕ) (r : ReplySender)
    → 0 < i
    → IsFinal r
    → Yields IsFinal (with_new_key i o brand r)
unfolding with_new_key
Yields-with_new_key i o brand r lt p =
    Yields-bind IsFinal _ _ (λ _. Yields-bind IsFinal _ _ (λ key. Yields-with_key i key r lt p))

-- A reply that is made before the last step of its handler.
Yields-new_key_then :
    (i o brand : ℕ) (r : ReplySender) (n : Do (Unit {0}))
    → 0 < i
    → IsFinal r
    → Yields IsFinal (with_new_key i o brand r >>= λ r'. n >> pure r')
Yields-new_key_then i o brand r n lt p =
    Yields-bind_value IsFinal IsFinal _ _ (Yields-with_new_key i o brand r lt p)
      λ r' final. Yields-then IsFinal n _ (Yields-pure IsFinal r' final)

positive : 0 < 1
positive = omega arith

ruleset yields = (
  Yields-bind, Yields-then, Yields-pure, Yields-maybe, Yields-if, Yields-gets, Yields-with_key,
  Yields-with_new_key, positive,
)

Answers-get_kind : Answers do_get_kind
unfolding do_get_kind refuse
Answers-get_kind this brand m keys =
    Yields-bind IsFinal _ _
      (λ count. Yields-bind IsFinal _ _ (λ n. Yields-pure IsFinal _ (ground arith)))

Answers-object_table : Answers object_table_handler
unfolding object_table_handler do_mint_key do_read_key do_invalidate do_badop refuse
Answers-object_table this brand m keys = search (yields, Answers-get_kind) depth 30

Answers-context : Answers context_handler
unfolding context_handler do_register do_key_register do_region_register do_make_runnable
    do_set_priority do_read_registers do_write_registers do_badop refuse
Answers-context this brand m keys = search yields depth 30

-- The reply of `split` carries two keys.
Yields-commit_split :
    (this brand pos donated : ℕ) → Yields IsFinal (commit_split this brand pos donated)
unfolding commit_split
Yields-commit_split this brand pos donated = Yields-bind IsFinal _ _ λ g.
    Yields-bind IsFinal _ _ λ self. Yields-then IsFinal _ _ (
      Yields-bind_value IsFinal IsFinal _ _
        (Yields-with_new_key 2 donated brand empty_reply (omega arith) refl)
        λ r final. Yields-bind IsFinal _ _ λ g'.
          Yields-then IsFinal _ _
            (Yields-then IsFinal _ _ (Yields-new_key_then 1 this brand r _ positive final)))

Answers-become : Answers do_become
unfolding do_become refuse
Answers-become this brand m keys = search (yields, Yields-new_key_then) depth 30

Answers-memory : Answers memory_handler
unfolding memory_handler do_inspect do_change do_split checked_become do_peek_poke do_make_child
    place_child do_badop refuse
Answers-memory this brand m keys = search (yields, Yields-commit_split, Answers-become) depth 30

Answers-gate : Answers gate_handler
unfolding gate_handler do_badop
Answers-gate this brand m keys = search yields depth 9

Answers-interrupt : Answers interrupt_handler
unfolding interrupt_handler do_badop
Answers-interrupt this brand m keys = search yields depth 9

-- No handler puts a key into the slot of its reply that would name who to reply to.
pub Answers-handler : (o : Object) → Answers (handler o)
unfolding handler do_badop
Answers-handler object_table this brand m keys = Answers-object_table this brand m keys
Answers-handler (memory h) this brand m keys = Answers-memory this brand m keys
Answers-handler (context b) this brand m keys = Answers-context this brand m keys
Answers-handler gate this brand m keys = Answers-gate this brand m keys
Answers-handler (interrupt b) this brand m keys = Answers-interrupt this brand m keys
Answers-handler _ this brand m keys = Yields-pure IsFinal _ refl
