-- ===== src/Kernel/Fuel.antt =====
-- Delivery ends: each sender that `deliver_to` takes from a gate was waiting there, so fuel for one
-- more than the senders that wait is enough. The invariant is one of the links alone, kept by the
-- operations that delivery performs on them.
pub mod Delivery
pub mod Events
pub mod Ipc
pub mod Total
use brittle_kernel.Kernel.Objects.{disable_interrupt}
use brittle_kernel.Prelude.{ℕ, zero, suc, ◌+◌, ◌<◌, ◌≡◌, false, arith}
use brittle_kernel.Abi.Exceptions.{Exception}
use brittle_kernel.Abi.Sizes.{n_priorities}
use brittle_kernel.Run.{Run, Cmd, ok, panic, out_of_fuel}
use brittle_kernel.Run.Ends.{
  Ends, Finishes, Ends-bind, Ends-then, Ends-pure, Ends-if, Ends-ref, Ends-maybe, Ends-fail,
  Ends-panic_if, Ends-panic_unless, Ends-require,
}
use brittle_kernel.Links.{Links, unlink, insert}
use brittle_kernel.Links.Woven.{is_sender, item-is_sender, runnable-is_sender, receivers-is_sender}
use brittle_kernel.Kernel.{
  Kernel, Key, Do, State, gets, modify, emit, on_lists, with_lists, dispatch, Object, object_at,
  ctx_item, runnable_list, receivers, ContextBody, put_body, InterruptBody, put_interrupt,
}
use brittle_kernel.Kernel.Hardware.{HwOp}
use brittle_kernel.Kernel.Keys.{
  get_key, get_region, Bank, KeysRef, bank, registers, set_key, copy_keys, read_key,
}
use brittle_kernel.Kernel.Scheduler.{pend_switch, set_state, make_runnable, unlink_item, set_stack}

-- A property of the links, as one of the kernel's state.
unfoldable pub On : (Links → Type 0) → Kernel → Type 0
On L k = L k.links

-- Kept by what delivery does to the links, apart from taking a sender.
pub record Closed (L : Links → Type 0) : Type 0 where
  pub unlinked : (it : ℕ) (s : Links) → L s → L (unlink it s)
  pub inserted :
      (p l it : ℕ) (s : Links)
      → ((q : ℕ) → q < n_priorities → is_sender (l + q) ≡ false)
      → is_sender it ≡ false
      → L s
      → Finishes (λ _ t. L t) (insert p l it s)

pub with_lists-Finishes :
    {A : Type 0} (P : A → Links → Type 0) (k : Kernel) (r : Run Links A)
    → Finishes P r
    → Finishes (λ a t. P a t.links) (with_lists k r)
with_lists-Finishes P k (ok a s) h = h
with_lists-Finishes P k (panic e) h = tt
with_lists-Finishes P k out_of_fuel h = elim h [ ]

module _ (L : Links → Type 0) where
  pub Ends-gets : {A : Type 0} (f : Kernel → A) → Ends (On L) (On L) (gets f)
  unfolding gets
  Ends-gets f = record { at = λ k h. h }

  pub Ends-modify :
      (f : Kernel → Kernel) → ((k : Kernel) → On L k → On L (f k)) → Ends (On L) (On L) (modify f)
  unfolding modify
  Ends-modify f g = record { at = g }

  pub Ends-put_body :
      (c : ℕ) (f : ContextBody → ContextBody) → Ends (On L) (On L) (modify (put_body c f))
  unfolding On
  Ends-put_body c f = Ends-modify _ (λ k h. h)

  pub Ends-emit : (op : HwOp) → Ends (On L) (On L) (emit op)
  unfolding emit On
  Ends-emit op = record { at = λ k h. h }

  pub Ends-dispatch :
      {A : Type 0} (i : ℕ) (f : Object → Do A)
      → ((o : Object) → Ends (On L) (On L) (f o))
      → Ends (On L) (On L) (dispatch i f)
  unfolding dispatch
  Ends-dispatch i f kf = record { at = λ k h. (kf (object_at k i)).at k h }

  pub Ends-get_key : (c i : ℕ) → Ends (On L) (On L) (get_key c i)
  unfolding get_key On
  Ends-get_key c i = record { at = λ k h. h }

  pub Ends-get_region : (c i : ℕ) → Ends (On L) (On L) (get_region c i)
  unfolding get_region On
  Ends-get_region c i = record { at = λ k h. h }

  pub Ends-set_key :
      (dest : KeysRef) (i : ℕ) (key : Key) (b : Bank) → Ends (On L) (On L) (set_key dest i key b)
  unfolding set_key On
  Ends-set_key bank i key b = record { at = λ k h. h }
  Ends-set_key (registers c map) i key b = record { at = λ k h. ground (arith, h) }

  pub Ends-read_key : (c map i : ℕ) → Ends (On L) (On L) (read_key c map i)
  unfolding read_key
  Ends-read_key c map i = Ends-gets _

  pub Ends-copy_keys :
      (n i : ℕ) (source : ℕ → Do Key) (dest : KeysRef) (b : Bank)
      → ((j : ℕ) → Ends (On L) (On L) (source j))
      → Ends (On L) (On L) (copy_keys n i source dest b)
  unfolding copy_keys
  Ends-copy_keys zero i source dest b h = Ends-pure _ b
  Ends-copy_keys (suc n) i source dest b h = Ends-bind _ _ _ (h i) λ key.
      Ends-bind _ _ _ (Ends-set_key dest i key b) λ b'. Ends-copy_keys n (i + 1) source dest b' h

  pub Ends-pend_switch : Ends (On L) (On L) pend_switch
  unfolding pend_switch On
  Ends-pend_switch = Ends-modify _ (λ k h. h)

  pub Ends-set_state : (c : ℕ) (state : State) → Ends (On L) (On L) (set_state c state)
  unfolding set_state
  Ends-set_state c state = Ends-put_body c _

  pub Ends-set_stack : (c s : ℕ) → Ends (On L) (On L) (set_stack c s)
  unfolding set_stack
  Ends-set_stack c s = Ends-put_body c _

  pub Ends-on_lists :
      {A : Type 0} (m : Cmd Links A)
      → ((s : Links) → L s → Finishes (λ _ t. L t) (m s))
      → Ends (On L) (On L) (on_lists m)
  unfolding on_lists On
  Ends-on_lists m f = record { at = λ k h. with_lists-Finishes _ k (m k.links) (f k.links h) }

pub ruleset ends = (
  Ends-bind, Ends-then, Ends-pure, Ends-if, Ends-ref, Ends-maybe, Ends-fail, Ends-panic_if,
  Ends-panic_unless, Ends-require, Ends-gets, Ends-emit, Ends-put_body, Ends-get_key, Ends-set_key,
  Ends-read_key, Ends-copy_keys, Ends-pend_switch, Ends-set_state, Ends-set_stack, Ends-get_region,
)

module _ (L : Links → Type 0) where
  pub Ends-put_interrupt :
      (i : ℕ) (f : InterruptBody → InterruptBody) → Ends (On L) (On L) (modify (put_interrupt i f))
  unfolding On
  Ends-put_interrupt i f = Ends-modify L _ (λ k h. h)

  pub Ends-disable_interrupt : (i : ℕ) → Ends (On L) (On L) (disable_interrupt i)
  unfolding disable_interrupt
  Ends-disable_interrupt i = search ends depth 9

module _ (L : Links → Type 0) (closed : Closed L) where
  pub Ends-unlink_item : (it : ℕ) → Ends (On L) (On L) (unlink_item it)
  unfolding unlink_item
  Ends-unlink_item it = Ends-on_lists L _ (closed.unlinked it)

  pub Ends-insert_receiver :
      (p g c : ℕ) → Ends (On L) (On L) (on_lists (insert p (receivers g) (ctx_item c)))
  Ends-insert_receiver p g c =
      Ends-on_lists L _ (λ s. closed.inserted p _ _ s (receivers-is_sender g) (item-is_sender c))

  Ends-insert_runnable :
      (p c : ℕ) → Ends (On L) (On L) (on_lists (insert p runnable_list (ctx_item c)))
  Ends-insert_runnable p c =
      Ends-on_lists L _ (λ s. closed.inserted p _ _ s runnable-is_sender (item-is_sender c))

  pub Ends-make_runnable : (c : ℕ) → Ends (On L) (On L) (make_runnable c)
  unfolding make_runnable
  Ends-make_runnable c = search (ends, Ends-insert_runnable) depth 9
