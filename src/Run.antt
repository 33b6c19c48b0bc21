-- ===== src/Run.antt =====
-- k/panic.h: code that changes a state and may panic. A panic ends the kernel, so nothing is
-- said of the state after one. A loop that runs on fuel may also end with `out_of_fuel`.
pub mod Ends
pub mod Keeps
pub mod Returns
pub mod Yields
use brittle_kernel.Prelude.{Bool, true, false, Option, none, some}

-- The reasons that the source gives to PANIC, PANIC_IF, PANIC_UNLESS and their ALWAYS_ forms; and
-- `assertion_failed` for ETL_ASSERT and `assert`, by which the programs under a/ and sim/ end, and
-- `test_failed` for a test under sim/ that ends. The source does not have `shared_storage`: a run that
-- ends by it uses memory that holds the data of the kernel, and leaves what is modelled.
pub data Panic : Type 0 where
  reinsert_without_insert node_already_in_list corrupt_node bogus_priority : Panic
  index_out_of_range nullptr_in_key empty_maybe wrong_kind : Panic
  no_runnable_contexts kr0_written non_current_block context_not_awaiting_reply : Panic
  mem_overflow bad_child_geometry non_leaf_memory unpredictable_ap bad_type_code : Panic
  bad_reply_key_index null_irq_entry fault_sent_to_redirector irq_table_not_set : Panic
  assertion_failed test_failed shared_storage : Panic
  bad_abi_token out_of_donated_ram stack_fault table_set_twice entries_empty entries_set_twice :
      Panic

pub data Run (S A : Type 0) : Type 0 where
  ok : A → S → Run S A
  panic : Panic → Run S A
  out_of_fuel : Run S A

abbrev pub Cmd : Type 0 → Type 0 → Type 0
Cmd S A = S → Run S A

abbrev pub and_then : {S A B : Type 0} → Run S A → (A → Cmd S B) → Run S B
and_then (ok a s) f = f a s
and_then (panic e) f = panic e
and_then out_of_fuel f = out_of_fuel

module _ {S : Type 0} where
  unfoldable pub pure : {A : Type 0} → A → Cmd S A
  pure a s = ok a s

  -- PANIC_UNLESS.
  unfoldable pub panic_unless : Bool → Panic → Cmd S (Unit {0})
  panic_unless true e s = ok tt s
  panic_unless false e s = panic e

  -- PANIC_IF.
  unfoldable pub panic_if : Bool → Panic → Cmd S (Unit {0})
  panic_if true e s = panic e
  panic_if false e s = ok tt s

  -- The end of a loop's fuel.
  unfoldable pub exhausted : {A : Type 0} → Cmd S A
  exhausted s = out_of_fuel

  unfoldable pub fail : {A : Type 0} → Panic → Cmd S A
  fail e s = panic e

  -- `Maybe::ref`, under the checking policy of k/maybe.h.
  unfoldable pub ref : {A : Type 0} → Option A → Cmd S A
  ref (some a) s = ok a s
  ref none s = panic empty_maybe

  -- `ALWAYS_PANIC_UNLESS(o, ...)` followed by uses of what the Maybe holds.
  unfoldable pub require : {A : Type 0} → Panic → Option A → Cmd S A
  require e (some a) s = ok a s
  require e none s = panic e

  -- `if (auto a = o) { ... } else { ... }`, the else branch first.
  unfoldable pub maybe : {A B : Type 0} → Option A → Cmd S B → (A → Cmd S B) → Cmd S B
  maybe none n f = n
  maybe (some a) n f = f a

  -- Opening this opens the commands above.
  infixl 5 ◌>>=◌ ◌>>◌
  unfoldable pub ◌>>=◌ : {A B : Type 0} → Cmd S A → (A → Cmd S B) → Cmd S B
  unfolding pure exhausted panic_unless panic_if fail ref require maybe
  ◌>>=◌ m f s = and_then (m s) f

  unfoldable pub ◌>>◌ : {B : Type 0} → Cmd S (Unit {0}) → Cmd S B → Cmd S B
  unfolding ◌>>=◌
  m >> k = m >>= λ _. k
