-- ===== src/Kernel/Safety/MemoryProtocol.antt =====
-- The invariant of Kernel/Safety through the Memory protocol, whose split, become and make_child
-- write other objects over the memory and over a donated slot.
use brittle_kernel.Prelude.{ℕ, ◌≢◌, Option, none, some, ◌==◌, Bool-cases, inl, inr}
use brittle_kernel.Run.{pure, maybe}
use brittle_kernel.Run.Keeps.{Keeps, Ensures, Keeps-bind, Keeps-pure, Keeps-fail, Keeps-bind_value}
use brittle_kernel.Abi.Message.{Message}
use brittle_kernel.Kernel.{Kernel, object_at, gets, kind}
use brittle_kernel.Kernel.Delivery.{ReplySender}
use brittle_kernel.Kernel.Keys.{Bank, resolve, pointee}
use brittle_kernel.Kernel.Protocol.Memory.{
  do_inspect, refuses_change, do_change, commit_split, do_split, size_for_type_code, do_become,
  checked_become, do_make_child, do_peek_poke, memory_handler, donated_slot, place_child,
}
use brittle_kernel.Kernel.Safety.{Safe, Keeps-gets}
use brittle_kernel.Kernel.Safety.Delivery.{keeps}
use brittle_kernel.Kernel.Safety.Objects.{
  Keeps-unshared, Keeps-occupy, Keeps-put_word, Keeps-ap_is_stronger, Keeps-new_memory,
  Keeps-destroy_memory, Keeps-new_object,
}
use brittle_kernel.Kernel.Safety.Protocols.{Handles, Keeps-with_new_key}
use brittle_kernel.Kernel.Safety.Scheduler.{Keeps-apply_current}

-- A donated slot does not stand at index 0.
abbrev NotZero : Option ℕ → Type 0
NotZero none = Unit {0}
NotZero (some i) = i ≢ 0

donated-NotZero :
    (keys : Bank) (k : Kernel) → Safe k → Ensures (λ o t. NotZero o × Safe t) (donated_slot keys k)
unfolding donated_slot gets
donated-NotZero keys k h =
    elim (Bool-cases (kind (object_at k (pointee (resolve k (keys 1)))) == 2)) [
      | inl e ↦ rw e ((λ z. cc (rw (z, h.null_object) at e)), h)
      | inr e ↦ rw e (tt, h)
    ]

module _ (this : ℕ) (ne : this ≢ 0) where
  Handles-inspect : Handles this do_inspect
  unfolding do_inspect
  Handles-inspect brand m keys = search keeps depth 9

  Keeps-refuses_change : (a b c : ℕ) → Keeps Safe (refuses_change a b c)
  unfolding refuses_change
  Keeps-refuses_change a b c = search (keeps, Keeps-ap_is_stronger) depth 9

  Handles-change : Handles this do_change
  unfolding do_change
  Handles-change brand m keys = search (keeps, Keeps-refuses_change, Keeps-with_new_key) depth 12

  Keeps-commit_split :
      (brand pos donated : ℕ) → donated ≢ 0 → Keeps Safe (commit_split this brand pos donated)
  unfolding commit_split
  Keeps-commit_split brand pos donated ne' =
      search
        (keeps, Keeps-new_memory, Keeps-with_new_key, Keeps-destroy_memory, Keeps-apply_current)
        depth 20

  Keeps-split_with :
      (brand pos : ℕ) (o : Option ℕ) (refusal : ReplySender)
      → NotZero o
      → Keeps Safe (maybe o (pure refusal) (λ slot. commit_split this brand pos slot))
  unfolding maybe
  Keeps-split_with brand pos none r nz = Keeps-pure Safe r
  Keeps-split_with brand pos (some i) r nz = Keeps-commit_split brand pos i nz

  Handles-split : Handles this do_split
  unfolding do_split
  Handles-split brand m keys = Keeps-bind Safe _ _ (Keeps-gets _) λ self.
      Keeps-bind Safe _ _ (Keeps-gets _) λ srd.
        Keeps-bind_value Safe NotZero _ _ (donated-NotZero keys)
          λ o nz. search (keeps, Keeps-split_with) depth 9

  Keeps-size : (tc : ℕ) → Keeps Safe (size_for_type_code tc)
  unfolding size_for_type_code
  Keeps-size tc = search (keeps, Keeps-fail) depth 9

  Handles-become : Handles this do_become
  unfolding do_become
  Handles-become brand m keys =
      search
        (
          keeps, Keeps-size, Keeps-unshared, Keeps-occupy, Keeps-destroy_memory, Keeps-new_object,
          Keeps-with_new_key, Keeps-apply_current,
        )
        depth 20

  Keeps-child_with :
      (brand : ℕ) (m : Message) (o : Option ℕ) (refusal : ReplySender)
      → NotZero o
      → Keeps Safe (maybe o (pure refusal) (λ slot. place_child this brand m slot))
  unfolding maybe place_child
  Keeps-child_with brand m none r nz = Keeps-pure Safe r
  Keeps-child_with brand m (some i) r nz =
      search (keeps, Keeps-new_memory, Keeps-with_new_key) depth 9

  Handles-make_child : Handles this do_make_child
  unfolding do_make_child
  Handles-make_child brand m keys = Keeps-bind Safe _ _ (Keeps-gets _) λ self.
      Keeps-bind Safe _ _ (Keeps-gets _) λ srd.
        Keeps-bind_value Safe NotZero _ _ (donated-NotZero keys)
          λ o nz. search (keeps, Keeps-child_with) depth 9

  Handles-peek_poke : Handles this do_peek_poke
  unfolding do_peek_poke
  Handles-peek_poke brand m keys = search (keeps, Keeps-put_word, Keeps-unshared) depth 9

  pub Handles-memory : Handles this memory_handler
  unfolding memory_handler checked_become
  Handles-memory brand m keys =
      search
        (
          keeps, Handles-inspect, Handles-change, Handles-split, Handles-become, Handles-make_child,
          Handles-peek_poke,
        )
        depth 12
