-- ===== src/Kernel/Settled.antt =====
-- The invariant of the lists, through the kernel: the nodes that are linked are those of contexts,
-- gates and interrupts, which an object never ceases to be; the current context and the handlers of
-- interrupts are among them; and there is no object beyond the table.
pub mod Boot
pub mod Creation
pub mod Delivery
pub mod Dispatch
pub mod Entries
pub mod Reachable
pub mod MemoryProtocol
pub mod Objects
pub mod Protocols
pub mod Scheduler
use brittle_kernel.Prelude.{
  ℕ, ◌+◌, ◌*◌, ◌/◌, ◌%◌, ◌-◌, ◌≤◌, ◌<◌, ◌≡◌, refl, sym, Bool, true, false, ◌==◌, if◌then◌else◌,
  update, Bool-cases, inl, inr, eq_of_==, arith, Option, none, some, fun_ext,
}
use mathlib.Core.Path.{subst}
use brittle_kernel.Run.{Run, Cmd, ok, panic, out_of_fuel, ◌>>=◌, ◌>>◌}
use brittle_kernel.Run.Ends.{Finishes}
use brittle_kernel.Run.Keeps.{Keeps, Ensures, and_then-Ensures_of}
use brittle_kernel.Abi.Sizes.{n_priorities}
use brittle_kernel.Links.{Links}
use brittle_kernel.Links.Laid.{Laid, IsPlace, is_root, in_use}
use brittle_kernel.Links.Woven.{is_sender}
use brittle_kernel.Kernel.{
  Kernel, ContextBody, MemoryHead, InterruptBody, Object, null, object_table, slot, memory, context,
  gate, interrupt, Entry, Do, gets, dispatch, modify, emit, on_lists, with_lists, on_context,
  on_memory, on_interrupt, put_body, put_memory, put_interrupt, put_object, object_at, ctx_item,
  sender_item, senders, receivers,
}
use brittle_kernel.Kernel.Hardware.{HwOp}

-- An object that has list items or lists.
unfoldable pub settled : Object → Bool
settled (context b) = true
settled gate = true
settled (interrupt b) = true
settled _ = false

pub settled-on_context :
    (f : ContextBody → ContextBody) (o : Object) → settled (on_context f o) ≡ settled o
unfolding settled
settled-on_context f (context b) = refl
settled-on_context f null = refl
settled-on_context f _ = refl

settled-on_memory : (f : MemoryHead → MemoryHead) (o : Object) → settled (on_memory f o) ≡ settled o
unfolding settled
settled-on_memory f (memory m) = refl
settled-on_memory f _ = refl

settled-on_interrupt :
    (f : InterruptBody → InterruptBody) (o : Object) → settled (on_interrupt f o) ≡ settled o
unfolding settled
settled-on_interrupt f (interrupt b) = refl
settled-on_interrupt f _ = refl

-- `live` are the objects that are settled; `E` may be current; `n` is the size of the table.
pub record Settled (live E : ℕ → Bool) (n : ℕ) (k : Kernel) : Type 0 where
  pub count : k.count ≡ n
  pub kinds : (i : ℕ) → settled (object_at k i) ≡ live i
  pub beyond : (i : ℕ) → n ≤ i → object_at k i ≡ null
  pub lists : Laid live k.links
  pub current : E k.current ≡ true
  pub handlers : (x i : ℕ) → k.irq_table x ≡ some i → live i ≡ true

module _ (live E : ℕ → Bool) (n : ℕ) where
  abbrev pub J : Kernel → Type 0
  J = Settled live E n

  -- An object that is written stays settled or not, and is within the table or is still null.
  pub Settled-put_object :
      (k : Kernel) (i : ℕ) (e : Entry)
      → settled e.object ≡ live i
      → (n ≤ i → e.object ≡ null)
      → J k
      → J (put_object i e k)
  Settled-put_object k i e s b h = record {
    count = h.count;
    kinds = λ j. elim (Bool-cases (j == i)) [
      | inl t ↦ rw (object_at, t) (rw (eq_of_== j i t) s)
      | inr t ↦ rw (object_at, t) (h.kinds j)
    ];
    beyond = λ j le. elim (Bool-cases (j == i)) [
      | inl t ↦ rw (object_at, t) (b (ground (arith, le)))
      | inr t ↦ rw (object_at, t) (h.beyond j le)
    ];
    lists = h.lists;
    current = h.current;
    handlers = h.handlers;
  }

  pub Settled-lists : (k : Kernel) (s : Links) → Laid live s → J k → J (record k { links = s })
  Settled-lists k s l h = record {
    count = h.count;
    kinds = h.kinds;
    beyond = h.beyond;
    lists = l;
    current = h.current;
    handlers = h.handlers;
  }

  pub Keeps-gets : {A : Type 0} (f : Kernel → A) → Keeps J (gets f)
  unfolding gets
  Keeps-gets f = record { at = λ k h. h }

  pub Keeps-modify : (f : Kernel → Kernel) → ((k : Kernel) → J k → J (f k)) → Keeps J (modify f)
  unfolding modify
  Keeps-modify f g = record { at = g }

  pub Keeps-emit : (op : HwOp) → Keeps J (emit op)
  unfolding emit
  Keeps-emit op = record {
    at = λ k h. record {
      count = h.count;
      kinds = h.kinds;
      beyond = h.beyond;
      lists = h.lists;
      current = h.current;
      handlers = h.handlers;
    };
  }

  pub Settled-put_body :
      (k : Kernel) (c : ℕ) (f : ContextBody → ContextBody) → J k → J (put_body c f k)
  Settled-put_body k c f h =
      Settled-put_object k c _ (rw (settled-on_context f (object_at k c)) (h.kinds c))
        (λ le. rw (h.beyond c le) refl) h

  pub Keeps-put_body : (c : ℕ) (f : ContextBody → ContextBody) → Keeps J (modify (put_body c f))
  Keeps-put_body c f = Keeps-modify _ (λ k h. Settled-put_body k c f h)

  pub Keeps-put_memory : (c : ℕ) (f : MemoryHead → MemoryHead) → Keeps J (modify (put_memory c f))
  Keeps-put_memory c f = Keeps-modify _ λ k h.
      Settled-put_object k c _ (rw (settled-on_memory f (object_at k c)) (h.kinds c))
        (λ le. rw (h.beyond c le) refl) h

  pub Keeps-put_interrupt :
      (c : ℕ) (f : InterruptBody → InterruptBody) → Keeps J (modify (put_interrupt c f))
  Keeps-put_interrupt c f = Keeps-modify _ λ k h.
      Settled-put_object k c _ (rw (settled-on_interrupt f (object_at k c)) (h.kinds c))
        (λ le. rw (h.beyond c le) refl) h

  -- What the kind of an object says of its index.
  pub Keeps-dispatch :
      {A : Type 0} (i : ℕ) (f : Object → Do A)
      → ((o : Object) → settled o ≡ live i → Keeps J (f o))
      → Keeps J (dispatch i f)
  unfolding dispatch
  Keeps-dispatch i f kf = record { at = λ k h. (kf (object_at k i) (h.kinds i)).at k h }

  pub with_lists-Ensures :
      {A : Type 0} (P : A → Links → Type 0) (k : Kernel) (r : Run Links A)
      → Finishes P r
      → ((a : A) (s : Links) → P a s → Laid live s)
      → J k
      → Ensures (λ a t. P a t.links × J t) (with_lists k r)
  with_lists-Ensures P k (ok a s) p f h = (p, Settled-lists k s (f a s p) h)
  with_lists-Ensures P k (panic e) p f h = tt
  with_lists-Ensures P k out_of_fuel p f h = tt

  with_lists-kept :
      {A : Type 0} (k : Kernel) (r : Run Links A)
      → Finishes (λ _ s. Laid live s) r
      → J k
      → Ensures (λ _ t. J t) (with_lists k r)
  with_lists-kept k (ok a s) p h = Settled-lists k s p h
  with_lists-kept k (panic e) p h = tt
  with_lists-kept k out_of_fuel p h = tt

  pub Keeps-on_lists :
      {A : Type 0} (m : Cmd Links A)
      → ((s : Links) → Laid live s → Finishes (λ _ t. Laid live t) (m s))
      → Keeps J (on_lists m)
  unfolding on_lists
  Keeps-on_lists m f = record { at = λ k h. with_lists-kept k (m k.links) (f k.links h.lists) h }

-- The places of an object's items and roots.
module _ (i : ℕ) where
  pub ctx_item-is_root : is_root (ctx_item i) ≡ false
  unfolding is_root
  ctx_item-is_root = ground arith

  pub sender_item-is_root : is_root (sender_item i) ≡ false
  unfolding is_root
  sender_item-is_root = ground arith

pub node-in_use :
    (live : ℕ → Bool) (i a : ℕ) → 8 ≤ a → a / 8 - 1 ≡ i → live i ≡ true → in_use live a ≡ true
unfolding in_use
node-in_use live i a le e u = rw e (ground (arith, u))

-- At an object that is not in use, no node is.
pub node-idle :
    (live : ℕ → Bool) (i a : ℕ) → 8 ≤ a → a / 8 - 1 ≡ i → live i ≡ false → in_use live a ≡ false
unfolding in_use
node-idle live i a le e u = rw e (ground (arith, u))

module _ (live : ℕ → Bool) where
  pub senders-used :
      (g q : ℕ)
      → q < n_priorities
      → live g ≡ true
      → (is_root (senders g + q) ≡ true) × (in_use live (senders g + q) ≡ true)
  unfolding is_root in_use
  senders-used g q lt u =
      let e : (8 * g + 10 + q) / 8 - 1 ≡ g = omega arith in (ground arith, rw e (ground (arith, u)))

  pub receivers-used :
      (g q : ℕ)
      → q < n_priorities
      → live g ≡ true
      → (is_root (receivers g + q) ≡ true) × (in_use live (receivers g + q) ≡ true)
  unfolding is_root in_use
  receivers-used g q lt u =
      let e : (8 * g + 12 + q) / 8 - 1 ≡ g = omega arith in (ground arith, rw e (ground (arith, u)))

  pub runnable-used :
      (q : ℕ) → q < n_priorities → (is_root (0 + q) ≡ true) × (in_use live (0 + q) ≡ true)
  unfolding is_root in_use
  runnable-used q lt = (ground arith, ground arith)

  pub receivers-IsPlace : (g c : ℕ) → live g ≡ true → IsPlace live (receivers g) (ctx_item c)
  unfolding is_sender
  receivers-IsPlace g c u = record {
    root = λ q lt. (receivers-used g q lt u).0;
    same = λ q lt. ground arith;
    used = λ q lt. (receivers-used g q lt u).1;
  }

  pub senders-IsPlace : (g c : ℕ) → live g ≡ true → IsPlace live (senders g) (sender_item c)
  unfolding is_sender
  senders-IsPlace g c u = record {
    root = λ q lt. (senders-used g q lt u).0;
    same = λ q lt. ground arith;
    used = λ q lt. (senders-used g q lt u).1;
  }

  pub runnable-IsPlace : (c : ℕ) → IsPlace live 0 (ctx_item c)
  unfolding is_sender
  runnable-IsPlace c = record {
    root = λ q lt. (runnable-used q lt).0;
    same = λ q lt. ground arith;
    used = λ q lt. (runnable-used q lt).1;
  }

  pub ctx_item-in_use : (c : ℕ) → live c ≡ true → in_use live (ctx_item c) ≡ true
  ctx_item-in_use c u = node-in_use live c (ctx_item c) (omega arith) (omega arith) u

  pub sender_item-in_use : (c : ℕ) → live c ≡ true → in_use live (sender_item c) ≡ true
  sender_item-in_use c u = node-in_use live c (sender_item c) (omega arith) (omega arith) u
