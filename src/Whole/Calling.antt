-- ===== src/Whole/Calling.antt =====
-- A program's call to the object table, from its registers at the `svc` to its registers after it.
use brittle_kernel.Prelude.{
  ℕ, suc, ◌<◌, ◌≡◌, ◌∙◌, refl, arith, true, update, if◌then◌else◌, ltb, not, ◌==◌,
}
use brittle_kernel.Run.{ok, panic_if, kr0_written, ◌>>=◌, ◌>>◌}
use brittle_kernel.Run.Returns.{Returns}
use brittle_kernel.Abi.Descriptor.{Descriptor, call, is_call, get_target, get_send_enabled}
use brittle_kernel.Abi.Descriptor.Fields.{call-Fields}
use brittle_kernel.Abi.Message.{Message, sanitized_message}
use brittle_kernel.Abi.Sizes.{n_priorities}
use brittle_kernel.Kernel.{
  Kernel, Key, Do, modify, ContextBody, context, null, object_table, kind, gets, stack_register,
  body, object_at, put_body, put_message,
}
use brittle_kernel.Kernel.Delivery.{ReplySender, has_top_bit, task}
use brittle_kernel.Kernel.Dispatch.{handler, deliver_from, reply_depth, ipc_phase}
use brittle_kernel.Kernel.Dispatch.Calls.{waiting, call_keys, then-ok}
use brittle_kernel.Kernel.Dispatch.Calls.Conversed.{called, deliver_from-called}
use brittle_kernel.Kernel.Events.{save_registers}
use brittle_kernel.Kernel.Keys.{get_key, filled, resolve, pointee, put_key}
use brittle_kernel.Kernel.Scheduler.{set_stack}
use brittle_kernel.Whole.{call_registers, system_call}

pub call-sends :
    (s t : ℕ)
    → t < 16
    → (get_send_enabled (call s t) ≡ true)
      × (get_target (call s t) ≡ t)
      × (is_call (call s t) ≡ true)
unfolding is_call
call-sends s t lt =
    let fields = call-Fields s t in
    (
      fields.send_enabled,
      fields.target ∙ omega (arith, lt),
      ground (arith, fields.receive_enabled, fields.source),
    )

-- The context `c` with the body `b` has null in key register 0 and a key to the object table in another one,
-- `t`. Its priority is in range, and the brand that it expects of a reply has the top bit set.
pub record CanCall (c t : ℕ) (k : Kernel) (b : ContextBody) : Type 0 where
  pub here : object_at k c ≡ context b
  pub null_key : object_at k (pointee (resolve k (b.keys 0))) ≡ null
  pub table : object_at k (pointee (resolve k (b.keys t))) ≡ object_table
  pub positive : 0 < t
  pub small : t < 16
  pub in_range : b.priority < n_priorities
  pub top : has_top_bit b.expected_reply_brand ≡ true

-- The key registers, 0 and `t` resolved.
abbrev pub resolved : Kernel → ℕ → ContextBody → ℕ → Key
resolved k t b = update (update b.keys 0 (resolve k (b.keys 0))) t (resolve k (b.keys t))

get_key_lem :
    (c i : ℕ) (k : Kernel) (key : Key)
    → resolve k ((body k c).keys i) ≡ key
    → get_key c i k ≡ ok key (put_key c i key k)
unfolding get_key
get_key_lem c i k key e = rw e refl

-- What `do_ipc` does with the key of register 0, which is found to be null.
abbrev checked_phase : ℕ → ℕ → Descriptor → Key → Do (Unit {0})
checked_phase fuel c d key = do
  kind0 ← gets (λ l. kind (object_at l (pointee key)))
  panic_if (not (kind0 == 0)) kr0_written
  ipc_phase fuel c d

ipc_phase-checked :
    (fuel c : ℕ) (d : Descriptor) (key : Key) (k : Kernel)
    → object_at k (pointee key) ≡ null
    → checked_phase fuel c d key k ≡ ipc_phase fuel c d k
unfolding gets panic_if ◌>>◌ ◌>>=◌
ipc_phase-checked fuel c d key k empty = rw empty refl

ipc_phase-send :
    (fuel c t : ℕ) (d : Descriptor) (k : Kernel)
    → get_send_enabled d ≡ true
    → get_target d ≡ t
    → ipc_phase fuel c d k ≡ (
        let key = resolve k ((body k c).keys t) in
        deliver_from reply_depth fuel (pointee key) key.brand (task c t) (put_key c t key k))
unfolding ipc_phase get_key ◌>>=◌
ipc_phase-send fuel c t d k sends target = rw (sends, target) refl

module _ (c sp : ℕ) (m : Message) (send_map receive_map t : ℕ) (k : Kernel) (b : ContextBody) where
  abbrev saves : (ℕ → ℕ) → ℕ → ℕ
  saves save i = if ltb i 8 then call_registers m send_map receive_map i else save i

  abbrev pub saved : Kernel
  saved =
      put_body c (λ x. record x { save = update x.save stack_register sp })
        (put_body c (λ x. record x { save = saves x.save }) k)

  abbrev pub checked : Kernel
  checked = put_key c 0 (resolve k (b.keys 0)) saved

  -- The state before the object is called, and the caller's body in it.
  abbrev pub ready : Kernel
  ready = put_key c t (resolve k (b.keys t)) checked

  abbrev pub entered : ContextBody
  entered = record b { save = update (saves b.save) stack_register sp; keys = resolved k t b }

  module _ (h : CanCall c t k b) (sends : get_send_enabled m.desc ≡ true)
      (target : get_target m.desc ≡ t) where
    saved-body :
        object_at saved c ≡ context (record b { save = update (saves b.save) stack_register sp })
    saved-body = ground (arith, h.here)

    resolve-saved : (key : Key) → resolve saved key ≡ resolve k key
    unfolding resolve filled
    resolve-saved key = ground arith

    checked-body :
        object_at checked c
        ≡ context (record b {
          save = update (saves b.save) stack_register sp;
          keys = update b.keys 0 (resolve k (b.keys 0));
        })
    checked-body = ground (arith, h.here)

    resolve-checked : (key : Key) → resolve checked key ≡ resolve k key
    unfolding resolve filled
    resolve-checked key = ground arith

    checked-null : object_at checked (pointee (resolve k (b.keys 0))) ≡ null
    checked-null = ground (arith, h.here, h.null_key)

    other_key : update b.keys 0 (resolve k (b.keys 0)) t ≡ b.keys t
    other_key = ground (arith, h.positive)

    system_call-checked :
        (fuel : ℕ)
        → system_call fuel c sp m send_map receive_map k ≡ ipc_phase fuel c m.desc checked
    unfolding system_call save_registers set_stack modify ◌>>◌ ◌>>=◌
    system_call-checked fuel =
        then-ok (get_key c 0) (checked_phase fuel c m.desc) saved checked (resolve k (b.keys 0))
          (get_key_lem c 0 saved (resolve k (b.keys 0)) (rw saved-body (resolve-saved (b.keys 0))))
        ∙ ipc_phase-checked fuel c m.desc (resolve k (b.keys 0)) checked checked-null

    system_call-sends :
        (fuel : ℕ)
        → system_call fuel c sp m send_map receive_map k
          ≡ deliver_from reply_depth fuel
              (pointee (resolve k (b.keys t)))
              (resolve k (b.keys t)).brand
              (task c t)
              ready
    system_call-sends fuel =
        system_call-checked fuel
        ∙ (ipc_phase-send fuel c t m.desc checked sends target
            ∙ rw (checked-body, other_key, resolve-checked (b.keys t)) refl)

    ready-body : object_at ready c ≡ context entered
    ready-body = ground (arith, h.here)

    ready-table : object_at ready (pointee (resolve k (b.keys t))) ≡ object_table
    ready-table = ground (arith, h.here, h.table)

    sent_brand : (resolved k t b t).brand ≡ (resolve k (b.keys t)).brand
    sent_brand = ground arith

    -- A call that the object table handles without a change to the kernel.
    pub system_call-called :
        (fuel : ℕ) (r : ReplySender)
        → is_call m.desc ≡ true
        → handler object_table
            (pointee (resolve k (b.keys t)))
            (resolve k (b.keys t)).brand
            (sanitized_message m)
            (call_keys c entered ready)
            (waiting c ready)
          ≡ ok r (waiting c ready)
        → Returns
            (λ _ s. object_at s c ≡ context (called r entered))
            (system_call (suc fuel) c sp m send_map receive_map k)
    unfolding call_registers put_message
    system_call-called fuel r calls handles = rw (system_call-sends (suc fuel)) (
        deliver_from-called fuel (pointee (resolve k (b.keys t))) (resolve k (b.keys t)).brand c t
          ready r entered ready-body calls sent_brand (rw ready-table refl) (rw ready-table handles)
          h.in_range h.top)
