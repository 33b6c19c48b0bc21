-- ===== src/Samples/ListWitnesses.antt =====
-- The theorems on lists, at a list of three items.

use brittle_kernel.Samples.Machine.{armv7m}
use brittle_kernel.Kernel.Scheduler.Switch.{switch_now-front, switch_now-empty}
use brittle_kernel.Kernel.Scheduler.{switch_now}
use brittle_kernel.Kernel.Boot.{reset}
use brittle_kernel.Kernel.{Kernel, owner}
use brittle_kernel.Prelude.{ℕ, ◌≡◌, refl, arith, List, [], ◌∷◌, none, some, ◌==◌, if◌then◌else◌}
use brittle_kernel.Run.{ok, panic, no_runnable_contexts}
use brittle_kernel.Links
use brittle_kernel.Links.{Links}
use brittle_kernel.Links.Order.{drain, drain_order, reinsert_high, fresh-Holds}
use brittle_kernel.Links.Queue.{Holds, IsUnlinked, insert-Holds, push}
use brittle_kernel.Links.Remove.{queue, unlink_high, unlink_low, peek-front, take-Holds}

-- Lists: one at 0 and 1, and the items 10, 11 and 12.
abbrev untouched : Links
untouched = record { next = λ a. a; prev = λ a. a; container = λ a. none }

abbrev no_items : Links
no_items = Links.fresh 1 (Links.fresh 0 untouched)

no_items-Holds : Holds no_items 0 (queue [] [])
no_items-Holds = fresh-Holds 0 untouched

ten-IsUnlinked : IsUnlinked no_items 10
unfolding Links.fresh
ten-IsUnlinked = record { next = refl; prev = refl; container = refl }

insert-Holds_example :
    (t : Links) × (Links.insert 1 0 10 no_items ≡ ok tt t)
    × Holds t 0 (push 1 10 (queue [] []))
    × (t.container 10 ≡ some 0)
insert-Holds_example =
    insert-Holds no_items 0 10 (queue [] []) no_items-Holds ten-IsUnlinked (λ e. omega arith)
      (λ e. omega arith) 1 (omega arith)

-- 10 and 11 urgent, 12 not.
abbrev three_items : Links
three_items = record {
  next = λ a.
      if a == 0
      then 10
      else if a == 10
      then 11
      else if a == 11
      then 0
      else if a == 1
      then 12
      else if a == 12
      then 1
      else a;
  prev = λ a.
      if a == 10
      then 0
      else if a == 11
      then 10
      else if a == 0
      then 11
      else if a == 12
      then 1
      else if a == 1
      then 12
      else a;
  container =
      λ a. if a == 10 then some 0 else if a == 11 then some 0 else if a == 12 then some 0 else none;
}

abbrev three_addresses : List ℕ
three_addresses = 10 ∷ 11 ∷ 12 ∷ []

three_items-Holds : Holds three_items 0 (queue (10 ∷ 11 ∷ []) (12 ∷ []))
three_items-Holds = ground arith

take-Holds_example :
    (t : Links) × (Links.take 0 three_items ≡ ok (some 10) t)
    × Holds t 0 (queue (11 ∷ []) (12 ∷ []))
take-Holds_example = take-Holds three_items 0 (queue (10 ∷ 11 ∷ []) (12 ∷ [])) three_items-Holds

drain_order_example : drain 3 0 three_items ≡ 10 ∷ 11 ∷ 12 ∷ []
drain_order_example =
    drain_order 3 0 three_items (queue (10 ∷ 11 ∷ []) (12 ∷ [])) three_items-Holds (omega arith)

peek-front_example : Links.peek 0 three_items ≡ some 10
peek-front_example = peek-front three_items 0 (queue (10 ∷ 11 ∷ []) (12 ∷ [])) three_items-Holds

unlink_high_example : Holds (Links.unlink 11 three_items) 0 (queue (10 ∷ []) (12 ∷ []))
unlink_high_example = unlink_high three_items 0 11 (10 ∷ []) [] (12 ∷ []) three_items-Holds

unlink_low_example : Holds (Links.unlink 12 three_items) 0 (queue (10 ∷ 11 ∷ []) [])
unlink_low_example = unlink_low three_items 0 12 [] [] (10 ∷ 11 ∷ []) three_items-Holds

reinsert_high_example :
    (t : Links) × (Links.reinsert 1 10 three_items ≡ ok tt t)
    × Holds t 0 (queue (11 ∷ []) (12 ∷ 10 ∷ []))
reinsert_high_example =
    reinsert_high three_items 0 10 1 [] (11 ∷ []) (12 ∷ []) (omega arith) three_items-Holds

-- A run queue that holds object 2 alone, whose item is at 24.
abbrev one_runnable : Kernel
one_runnable = record (reset armv7m) {
  links = record {
    next = λ a. if a == 0 then 24 else if a == 24 then 0 else a;
    prev = λ a. if a == 0 then 24 else if a == 24 then 0 else a;
    container = λ a. if a == 24 then some 0 else none;
  };
}

one_runnable-Holds : Holds one_runnable.links 0 (queue (24 ∷ []) [])
one_runnable-Holds = ground arith

switch_now-front_example :
    (l : Kernel) × (switch_now one_runnable ≡ ok tt l) × (l.current ≡ owner 24)
switch_now-front_example =
    switch_now-front one_runnable (queue (24 ∷ []) []) 24 one_runnable-Holds refl

abbrev none_runnable : Kernel
none_runnable = record (reset armv7m) { links = no_items }

switch_now-empty_example : switch_now none_runnable ≡ panic no_runnable_contexts
switch_now-empty_example = switch_now-empty none_runnable (queue [] []) no_items-Holds refl
