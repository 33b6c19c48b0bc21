-- ===== src/Kernel/Safety.antt =====
-- The invariant behind key register 0: object 0 of the table is the null object, and key register 0
-- of every context designates it. It is a property of the object table alone.
pub mod Boot
pub mod Delivery
pub mod Depth
pub mod Dispatch
pub mod Events
pub mod MemoryProtocol
pub mod Objects
pub mod Protocols
pub mod Scheduler
use brittle_kernel.Prelude.{
  ℕ, ◌≡◌, refl, ◌≢◌, Option, none, some, arith, ◌==◌, if◌then◌else◌, update, Bool, true, false,
  Bool-cases, eq_of_==, inl, inr, sym,
}
use brittle_kernel.Run.{Cmd, Run, ok, panic, out_of_fuel}
use brittle_kernel.Run.Keeps.{Keeps, Ensures}
use brittle_kernel.Links.{Links}
use brittle_kernel.Kernel.{
  Kernel, Key, ContextBody, MemoryHead, InterruptBody, Object, null, object_table, slot, memory,
  context, gate, interrupt, Entry, Do, gets, dispatch, modify, on_lists, with_lists, as_context,
  on_context, on_memory, on_interrupt, put_body, put_memory, put_interrupt, put_object, object_at,
  body, kind,
}
use brittle_kernel.Kernel.Keys.{pointee, resolve, null_key, put_key, put_region}

-- The keys of an object, where it is a context, spare register 0.
abbrev pub HasNullKey : Object → Type 0
HasNullKey o = pointee ((as_context o).keys 0) ≡ 0

pub record Inv (objects : ℕ → Entry) : Type 0 where
  pub null_object : (objects 0).object ≡ null
  pub null_keys : (c : ℕ) → HasNullKey (objects c).object

abbrev pub Safe : Kernel → Type 0
Safe k = Inv k.objects

pub HasNullKey-on_context :
    (f : ContextBody → ContextBody) (o : Object)
    → ((b : ContextBody) → pointee (b.keys 0) ≡ 0 → pointee ((f b).keys 0) ≡ 0)
    → HasNullKey o
    → HasNullKey (on_context f o)
HasNullKey-on_context f (context b) g h = g b h
HasNullKey-on_context f null g h = refl
HasNullKey-on_context f _ g h = refl

pub Inv-update :
    (objects : ℕ → Entry) (i : ℕ) (e : Entry)
    → ((objects 0).object ≡ null → i ≡ 0 → e.object ≡ null)
    → (HasNullKey (objects i).object → HasNullKey e.object)
    → Inv objects
    → Inv (update objects i e)
Inv-update objects i e f g h = record {
  null_object = elim (Bool-cases (0 == i)) [
    | inl t ↦ rw t (f h.null_object (sym (eq_of_== 0 i t)))
    | inr t ↦ rw t h.null_object
  ];
  null_keys = λ c. elim (Bool-cases (c == i)) [
    | inl t ↦ rw t (g (h.null_keys i))
    | inr t ↦ rw t (h.null_keys c)
  ];
}

-- Writes to a context that spare key register 0, and writes to other objects.
pub Safe-put_body :
    (k : Kernel) (c : ℕ) (f : ContextBody → ContextBody)
    → ((b : ContextBody) → pointee (b.keys 0) ≡ 0 → pointee ((f b).keys 0) ≡ 0)
    → Safe k
    → Safe (put_body c f k)
Safe-put_body k c f g h =
    Inv-update k.objects c _ (λ n e. rw (e, n)) (HasNullKey-on_context f (object_at k c) g) h

HasNullKey-on_memory :
    (f : MemoryHead → MemoryHead) (o : Object) → HasNullKey o → HasNullKey (on_memory f o)
HasNullKey-on_memory f (memory m) h = refl
HasNullKey-on_memory f (context b) h = h
HasNullKey-on_memory f _ h = refl

HasNullKey-on_interrupt :
    (f : InterruptBody → InterruptBody) (o : Object) → HasNullKey o → HasNullKey (on_interrupt f o)
HasNullKey-on_interrupt f (interrupt b) h = refl
HasNullKey-on_interrupt f (context b) h = h
HasNullKey-on_interrupt f _ h = refl

pub Safe-put_memory :
    (k : Kernel) (c : ℕ) (f : MemoryHead → MemoryHead) → Safe k → Safe (put_memory c f k)
Safe-put_memory k c f h =
    Inv-update k.objects c _ (λ n e. rw (e, n)) (HasNullKey-on_memory f (object_at k c)) h

pub Safe-put_interrupt :
    (k : Kernel) (c : ℕ) (f : InterruptBody → InterruptBody) → Safe k → Safe (put_interrupt c f k)
Safe-put_interrupt k c f h =
    Inv-update k.objects c _ (λ n e. rw (e, n)) (HasNullKey-on_interrupt f (object_at k c)) h

-- `Key::get` leaves a key to the null object where it found one, also where that key is stale.
pub resolve-null : (k : Kernel) (key : Key) → pointee key ≡ 0 → pointee (resolve k key) ≡ 0
unfolding resolve
resolve-null k key h = ground arith

pub Safe-kr0 :
    (k : Kernel) (c : ℕ) → Safe k → kind (object_at k (pointee (resolve k ((body k c).keys 0)))) ≡ 0
Safe-kr0 k c h = rw (resolve-null k ((body k c).keys 0) (h.null_keys c), h.null_object)

pub Safe-put_key : (k : Kernel) (c i : ℕ) (key : Key) → i ≢ 0 → Safe k → Safe (put_key c i key k)
Safe-put_key k c i key ne h = Safe-put_body k c _ (λ b z. ground arith) h

pub Safe-put_null_key :
    (k : Kernel) (c i : ℕ) (key : Key)
    → (i ≡ 0 → pointee key ≡ 0)
    → Safe k
    → Safe (put_key c i key k)
Safe-put_null_key k c i key z h = Safe-put_body k c _ (λ b n. ground arith) h

-- Commands that do not touch the object table, or touch it only by such writes.
pub Keeps-gets : {A : Type 0} (f : Kernel → A) → Keeps Safe (gets f)
unfolding gets
Keeps-gets f = record { at = λ s h. h }

with_lists-Ensures :
    {A : Type 0} (k : Kernel) (r : Run Links A) → Safe k → Ensures (λ _ t. Safe t) (with_lists k r)
with_lists-Ensures k (ok a s) h = h
with_lists-Ensures k (panic e) h = tt
with_lists-Ensures k out_of_fuel h = tt

pub Keeps-on_lists : {A : Type 0} (m : Cmd Links A) → Keeps Safe (on_lists m)
unfolding on_lists
Keeps-on_lists m = record { at = λ k h. with_lists-Ensures k (m k.links) h }

pub Keeps-put_body :
    (c : ℕ) (f : ContextBody → ContextBody)
    → ((b : ContextBody) → pointee (b.keys 0) ≡ 0 → pointee ((f b).keys 0) ≡ 0)
    → Keeps Safe (modify (put_body c f))
unfolding modify
Keeps-put_body c f g = record { at = λ k h. Safe-put_body k c f g h }

pub Keeps-modify :
    (f : Kernel → Kernel) → ((k : Kernel) → Safe k → Safe (f k)) → Keeps Safe (modify f)
unfolding modify
Keeps-modify f g = record { at = g }

pub Keeps-put_interrupt :
    (i : ℕ) (f : InterruptBody → InterruptBody) → Keeps Safe (modify (put_interrupt i f))
Keeps-put_interrupt i f = Keeps-modify _ (λ k h. Safe-put_interrupt k i f h)

pub Keeps-dispatch :
    {A : Type 0} (i : ℕ) (f : Object → Do A)
    → ((o : Object) → Keeps Safe (f o))
    → Keeps Safe (dispatch i f)
unfolding dispatch
Keeps-dispatch i f kf = record { at = λ k h. (kf (object_at k i)).at k h }

-- The function selected may use that only object 0 is at index 0.
pub Keeps-dispatch_null :
    {A : Type 0} (i : ℕ) (f : Object → Do A)
    → ((o : Object) → (i ≡ 0 → o ≡ null) → Keeps Safe (f o))
    → Keeps Safe (dispatch i f)
unfolding dispatch
Keeps-dispatch_null i f kf = record {
  at = λ k h. (kf (object_at k i) (λ e. rw (e, h.null_object))).at k h;
}

-- An object written anywhere but at index 0 keeps the invariant if it is no context with a key in
-- register 0.
pub Keeps-put_object :
    (i : ℕ) (e : Entry) → i ≢ 0 → HasNullKey e.object → Keeps Safe (modify (put_object i e))
Keeps-put_object i e ne n =
    Keeps-modify _ (λ k h. Inv-update k.objects i e (λ _ z. absurd (ne z)) (λ _. n) h)

pub Keeps-put_memory : (i : ℕ) (f : MemoryHead → MemoryHead) → Keeps Safe (modify (put_memory i f))
Keeps-put_memory i f = Keeps-modify _ (λ k h. Safe-put_memory k i f h)
