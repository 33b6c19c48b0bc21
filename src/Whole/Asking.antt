-- ===== src/Whole/Asking.antt =====
-- `get_kind` and `read_key` of a/k/object_table.cc, answered by the object table.
use brittle_kernel.Prelude.{ℕ, suc, ◌/◌, ◌%◌, ◌^◌, ◌<◌, ◌≡◌, ◌∙◌, refl, arith, false}
use brittle_kernel.Run.{ok, pure, ◌>>=◌}
use brittle_kernel.Run.Returns.{Returns, Returns-map, and_then-Returns}
use brittle_kernel.Abi.Descriptor.{call, sanitized, get_selector, get_error}
use brittle_kernel.Abi.Message.{Message, zero_message, sanitized_message}
use brittle_kernel.Abi.Selectors.ObjectTable as Sel
use brittle_kernel.Kernel.{
  Kernel, Key, ContextBody, context, object_table, body, gets, kind, object_at, sys_message,
  put_message, put_brand,
}
use brittle_kernel.Kernel.Delivery.{ReplySender}
use brittle_kernel.Kernel.Dispatch.{handler}
use brittle_kernel.Kernel.Dispatch.Calls.{waiting, call_keys}
use brittle_kernel.Kernel.Dispatch.Calls.Conversed.{called}
use brittle_kernel.Kernel.Keys.{Bank, filled, resolve, pointee, map_index, sent_map}
use brittle_kernel.Kernel.Protocol.{reply_message}
use brittle_kernel.Kernel.Protocol.ObjectTable.{object_table_handler, do_get_kind, do_read_key}
use brittle_kernel.User.{System, Process}
use brittle_kernel.User.Ipc.{keymap, invoke}
use brittle_kernel.User.Stubs.ObjectTable.{get_kind, read_key}
use brittle_kernel.Whole.{call_registers, above_kernel, outcome}
use brittle_kernel.Whole.Calling.{CanCall, entered, ready, call-sends, system_call-called}
use brittle_kernel.Whole.Invoking.{invoke-Returns, back}

abbrev kind_request : ℕ → ℕ → Message
kind_request t index = record zero_message { desc = call Sel.get_kind t; d0 = index }

abbrev kind_reply : ℕ → ReplySender
kind_reply n = reply_message (record zero_message { d0 = n })

handler-kind :
    (k : Kernel) (i brand t index : ℕ) (keys : Bank)
    → index < k.count
    → handler object_table i brand (sanitized_message (kind_request t index)) keys k
      ≡ ok (kind_reply (kind (object_at k index))) k
unfolding handler object_table_handler do_get_kind ◌>>=◌ gets pure sanitized_message sanitized
    get_selector call
handler-kind k i brand t index keys lt = ground arith

abbrev read_request : ℕ → Message
read_request t = record zero_message { desc = call Sel.read_key t }

abbrev read_reply : Key → ReplySender
read_reply key = reply_message (record zero_message {
  d0 = pointee key % 2 ^ 32;
  d1 = key.brand % 2 ^ 32;
  d2 = key.brand / 2 ^ 32 % 2 ^ 32;
})

handler-read :
    (k : Kernel) (i brand t : ℕ) (keys : Bank)
    → handler object_table i brand (sanitized_message (read_request t)) keys k
      ≡ ok (read_reply (resolve k (keys 1))) k
unfolding handler object_table_handler do_read_key ◌>>=◌ gets pure sanitized_message sanitized
    get_selector call
handler-read k i brand t keys = ground arith

module _ (sys : System Kernel) (fuel c sp t : ℕ) (k : Kernel) (b : ContextBody)
    (h : CanCall c t k b) where
  -- A call that the object table answers without a change to the kernel returns the answer.
  invoke-called :
      (s : ℕ) (m : Message) (send_map : ℕ) (r : ReplySender) (p : Process Kernel)
      → m.desc ≡ call s t
      → p.world ≡ k
      → get_error r.message.desc ≡ false
      → handler object_table
          (pointee (resolve k (b.keys t)))
          (resolve k (b.keys t)).brand
          (sanitized_message m)
          (call_keys c (entered c sp m send_map 0 t k b) (ready c sp m send_map 0 t k b))
          (waiting c (ready c sp m send_map 0 t k b))
        ≡ ok r (waiting c (ready c sp m send_map 0 t k b))
      → Returns (λ a q. a ≡ r.message) (invoke (above_kernel (suc fuel) c sp sys) m send_map 0 p)
  unfolding put_message put_brand
  invoke-called s m send_map r p desc world fine handles =
      let calls = call-sends s t h.small in
      let e = entered c sp m send_map 0 t k b in
      let Told : Kernel → Type 0 = λ l. sys_message (body l c).save ≡ r.message in
      Returns-map (λ a q. (a ≡ (outcome c q.world).message) × (q ≡ back p q.world) × Told q.world) _
        _
        (invoke-Returns sys (suc fuel) c sp m send_map 0 p Told (
          rw world (
            Returns-map (λ _ l. object_at l c ≡ context (called r e)) _ _
              (system_call-called c sp m send_map 0 t k b h (rw desc calls.0) (rw desc calls.1) fuel
                r (rw desc calls.2) handles)
              (λ _ l at. rw at (fine, refl)))))
        (λ a q (told, same, e). told ∙ e)

  -- The binding `get_kind`, with the kernel as its system call, returns the kind of the object at an index
  -- within the table.
  pub get_kind-kind :
      (index : ℕ) (p : Process Kernel)
      → p.world ≡ k
      → index < k.count
      → Returns
          (λ n q. n ≡ kind (object_at k index))
          (get_kind (above_kernel (suc fuel) c sp sys) t index p)
  unfolding get_kind ◌>>=◌ pure get_error
  get_kind-kind index p world lt =
      let m = kind_request t index in
      let same : kind (object_at (waiting c (ready c sp m 0 0 t k b)) index)
          ≡ kind (object_at k index) =
        ground (arith, h.here) in
      and_then-Returns (λ a q. a ≡ (kind_reply (kind (object_at k index))).message) _ _ _
        (invoke-called Sel.get_kind m 0 (kind_reply (kind (object_at k index))) p refl world refl
          (handler-kind _ _ _ t index _ lt ∙ rw same refl))
        (λ a q e. rw e refl)

  -- The key that the object table is sent.
  sent_key :
      (key : ℕ)
      → key < 16
      → resolve (waiting c (ready c sp (read_request t) (keymap 0 key 0 0) 0 t k b)) (
          call_keys c
            (entered c sp (read_request t) (keymap 0 key 0 0) 0 t k b)
            (ready c sp (read_request t) (keymap 0 key 0 0) 0 t k b)
            1)
        ≡ resolve k (b.keys key)
  unfolding resolve filled keymap map_index sent_map call_registers put_message
  sent_key key lt = ground (arith, h.here, h.positive, lt)

  -- The binding `read_key`, with the kernel as its system call, returns the index, modulo 2^32, of the
  -- object that the key in the register designates once it is resolved, and its brand, modulo 2^64.
  pub read_key-key :
      (key : ℕ) (p : Process Kernel)
      → p.world ≡ k
      → key < 16
      → Returns
          (λ info q.
            (info.index ≡ pointee (resolve k (b.keys key)) % 2 ^ 32)
            × (info.brand ≡ (resolve k (b.keys key)).brand % 2 ^ 64))
          (read_key (above_kernel (suc fuel) c sp sys) t key p)
  unfolding read_key ◌>>=◌ pure get_error
  read_key-key key p world lt =
      let m = read_request t in
      let sent = resolve k (b.keys key) in
      and_then-Returns (λ a q. a ≡ (read_reply sent).message) _ _ _
        (invoke-called Sel.read_key m (keymap 0 key 0 0) (read_reply sent) p refl world refl
          (handler-read _ _ _ t _ ∙ rw (sent_key key lt) refl))
        (λ a q e. rw e (refl, omega arith))
