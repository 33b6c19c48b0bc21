-- ===== src/Links.antt =====
-- k/list.h: the intrusive doubly linked lists, on explicit pointers. An itemoid is an address; the
-- roots of a list at address `l` stand at `l`, `l + 1`, one for each priority. `next`, `prev` and
-- `container` are the members of the itemoid at an address, `container` being `none` for nullptr.

pub mod Bypass
pub mod Chain
pub mod Laid
pub mod Order
pub mod Queue
pub mod Remove
pub mod Rings
pub mod Waiting
pub mod Woven
use brittle_kernel.Prelude.{
  ℕ, zero, suc, ◌+◌, Bool, true, false, not, ◌||◌, Option, none, some, ltb, ◌==◌, if◌then◌else◌,
  update,
}
use brittle_kernel.Run.{
  Cmd, pure, ok, ref, panic_if, panic_unless, ◌>>=◌, ◌>>◌, reinsert_without_insert,
  node_already_in_list, corrupt_node, bogus_priority,
}
use brittle_kernel.Abi.Sizes.{n_priorities}

pub record Links : Type 0 where
  pub next : ℕ → ℕ
  pub prev : ℕ → ℕ
  pub container : ℕ → Option ℕ

abbrev set_next : ℕ → ℕ → Links → Links
set_next a b s = record s { next = update s.next a b }

abbrev set_prev : ℕ → ℕ → Links → Links
set_prev a b s = record s { prev = update s.prev a b }

abbrev pub is_some {ℓ} : {A : Type ℓ} → Option A → Bool
is_some none = false
is_some (some a) = true

-- `Item::is_linked`.
unfoldable pub is_linked : ℕ → Links → Bool
is_linked it s = is_some (s.container it)

-- `Itemoid::Itemoid` and `Item::Item`: a node linked to itself, in no list.
unfoldable pub fresh : ℕ → Links → Links
fresh a s = record {
  next = update s.next a a;
  prev = update s.prev a a;
  container = update s.container a none;
}

-- `this->next->prev = this->prev; this->prev->next = this->next`.
bypass : ℕ → Links → Links
bypass it s =
    let s' : Links = set_prev (s.next it) (s.prev it) s in set_next (s'.prev it) (s'.next it) s'

-- `Item::unlink`.
unfoldable pub unlink : ℕ → Links → Links
unfolding bypass
unlink it s =
    set_next it it
      (set_prev it it (bypass it (record s { container = update s.container it none })))

-- The loop of `is_empty`, over the roots that are left.
all_empty : ℕ → ℕ → Links → Bool
all_empty zero r s = true
all_empty (suc n) r s = let rest = all_empty n (r + 1) s in if s.next r == r then rest else false

unfoldable pub is_empty : ℕ → Links → Bool
unfolding all_empty
is_empty l s = all_empty n_priorities l s

-- The loop that `take` and `peek` share, over the roots that are left.
first_item : ℕ → ℕ → Links → Option ℕ
first_item zero r s = none
first_item (suc n) r s =
    let rest = first_item n (r + 1) s in if s.next r == r then rest else some (s.next r)

unfoldable pub peek : ℕ → Links → Option ℕ
unfolding first_item
peek l s = first_item n_priorities l s

-- `take`, which returns the item; its owner is the caller's to find.
unfoldable pub take : ℕ → Cmd Links (Option ℕ)
unfolding first_item unlink
take l s = elim (first_item n_priorities l s) [
  | none ↦ ok none s
  | some it ↦ ok (some it) (unlink it s)
]

-- The four writes at the end of `insert`, before the root `r`.
pub splice : ℕ → ℕ → ℕ → Links → Links
splice r l it s =
    let s1 : Links = set_next it r (set_prev it (s.prev r) s) in
    let s2 : Links = record s1 { container = update s1.container it (some l) } in
    let s3 : Links = set_next (s2.prev r) it s2 in set_prev r it s3

-- `insert`; `p` is what the owner's `get_priority` returns.
unfoldable pub insert : ℕ → ℕ → ℕ → Cmd Links (Unit {0})
unfolding is_linked splice
insert p l it s =
    (do
      panic_if (is_linked it s) node_already_in_list
      panic_if (not (s.next it == it) || not (s.prev it == it)) corrupt_node
      panic_unless (ltb p n_priorities) bogus_priority
      λ s'. ok tt (splice (l + p) l it s'))
      s

-- `Item::reinsert`: the container is read before `unlink` clears it.
unfoldable pub reinsert : ℕ → ℕ → Cmd Links (Unit {0})
reinsert p it s = elim (s.container it) [
  | none ↦ (panic_unless false reinsert_without_insert) s
  | some l ↦ insert p l it (unlink it s)
]
