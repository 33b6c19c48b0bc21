-- ===== src/Kernel/Safety/Protocols.antt =====
-- The invariant of Kernel/Safety through the protocols of the kernel's objects.
use brittle_kernel.Prelude.{ℕ, ◌≢◌, not, ◌&&◌, ◌||◌, arith, ◌==◌, leb}
use brittle_kernel.Run.Keeps.{Keeps, Keeps-then, Keeps-pure, Keeps-maybe, Keeps-if_case}
use brittle_kernel.Abi.Descriptor.{get_selector}
use brittle_kernel.Abi.Message.{Message}
use brittle_kernel.Abi.Selectors.Context.{read_key_register}
use brittle_kernel.Kernel.{Key, State, stopped, runnable, sending, receiving, modify, put_body}
use brittle_kernel.Kernel.Delivery.{ReplySender}
use brittle_kernel.Kernel.Keys.{Bank, put_key, put_region}
use brittle_kernel.Kernel.Protocol.{with_key, with_new_key, Handler}
use brittle_kernel.Kernel.Protocol.Context.{
  do_register, do_key_register, do_region_register, cancel_receive, cancel_send, runnable_from,
  do_make_runnable, requeue, do_set_priority, do_read_registers, do_write_registers,
  context_handler,
}
use brittle_kernel.Kernel.Protocol.ObjectTable.{
  do_mint_key, do_read_key, do_get_kind, do_invalidate, object_table_handler,
}
use brittle_kernel.Kernel.Safety.{Safe, Safe-put_key, Keeps-modify, Keeps-put_body}
use brittle_kernel.Kernel.Safety.Delivery.{
  keeps, Keeps-put_save, Keeps-on_blocked_delivery_aborted,
  Keeps-complete_blocked_receive_exception,
}
use brittle_kernel.Kernel.Safety.Objects.{Keeps-invalidate, Keeps-advance_reply_brand}
use brittle_kernel.Kernel.Safety.Scheduler.{Keeps-apply_to_mpu, Keeps-make_runnable}

pub Keeps-with_key : (i : ℕ) (key : Key) (r : ReplySender) → Keeps Safe (with_key i key r)
unfolding with_key
Keeps-with_key i key r = search keeps depth 9

pub Keeps-with_new_key : (i o brand : ℕ) (r : ReplySender) → Keeps Safe (with_new_key i o brand r)
unfolding with_new_key
Keeps-with_new_key i o brand r = search (keeps, Keeps-with_key) depth 9

Keeps-put_key : (c i : ℕ) (key : Key) → i ≢ 0 → Keeps Safe (modify (put_key c i key))
Keeps-put_key c i key ne = Keeps-modify _ (λ k h. Safe-put_key k c i key ne h)

Keeps-put_region : (c i : ℕ) (key : Key) → Keeps Safe (modify (put_region c i key))
Keeps-put_region c i key = Keeps-put_body c _ (λ b z. z)

Keeps-put_priority : (c p : ℕ) → Keeps Safe (modify (put_body c (λ b. record b { priority = p })))
Keeps-put_priority c p = Keeps-put_body c _ (λ b z. z)

-- A handler keeps the invariant at the object `this`.
abbrev pub Handles : ℕ → Handler → Type 0
Handles this handle =
    (brand : ℕ) (m : Message) (keys : Bank) → Keeps Safe (handle this brand m keys)

module _ (this : ℕ) where
  Handles-mint_key : Handles this do_mint_key
  unfolding do_mint_key
  Handles-mint_key brand m keys = search (keeps, Keeps-maybe, Keeps-with_key) depth 9

  Handles-read_key : Handles this do_read_key
  unfolding do_read_key
  Handles-read_key brand m keys = search keeps depth 9

  Handles-get_kind : Handles this do_get_kind
  unfolding do_get_kind
  Handles-get_kind brand m keys = search keeps depth 9

  Handles-invalidate : Handles this do_invalidate
  unfolding do_invalidate
  Handles-invalidate brand m keys = search (keeps, Keeps-invalidate) depth 12

  pub Handles-object_table : Handles this object_table_handler
  unfolding object_table_handler
  Handles-object_table brand m keys =
      search (keeps, Handles-mint_key, Handles-read_key, Handles-get_kind, Handles-invalidate) depth
        9

  Handles-register : Handles this do_register
  unfolding do_register
  Handles-register brand m keys = search (keeps, Keeps-put_save) depth 9

  -- Register 0 is refused before the write.
  Handles-key_register : Handles this do_key_register
  unfolding do_key_register
  Handles-key_register brand m keys =
      let is_read = get_selector m.desc == read_key_register in
      Keeps-if_case Safe (leb 16 m.d0 || (not is_read && (m.d0 == 0))) _ _ (λ _. Keeps-pure Safe _)
        (λ in_range.
          Keeps-if_case Safe is_read _ _ (λ _. search (keeps, Keeps-with_key) depth 9)
            (λ write.
              Keeps-then Safe _ _ (Keeps-put_key this m.d0 (keys 1) (ground arith))
                (Keeps-pure Safe _)))

  Handles-region_register : Handles this do_region_register
  unfolding do_region_register
  Handles-region_register brand m keys =
      search (keeps, Keeps-with_key, Keeps-put_region, Keeps-apply_to_mpu) depth 12

  Keeps-cancel_receive : Keeps Safe (cancel_receive this)
  unfolding cancel_receive
  Keeps-cancel_receive =
      search (keeps, Keeps-advance_reply_brand, Keeps-complete_blocked_receive_exception) depth 9

  Keeps-runnable_from : (state : State) → Keeps Safe (runnable_from state this)
  unfolding runnable_from cancel_send
  Keeps-runnable_from sending = search (keeps, Keeps-on_blocked_delivery_aborted) depth 9
  Keeps-runnable_from receiving = Keeps-cancel_receive
  Keeps-runnable_from stopped = Keeps-make_runnable this
  Keeps-runnable_from runnable = Keeps-pure Safe tt

  Handles-make_runnable : Handles this do_make_runnable
  unfolding do_make_runnable
  Handles-make_runnable brand m keys = search (keeps, Keeps-runnable_from) depth 9

  Keeps-requeue : (p it : ℕ) → Keeps Safe (requeue p it)
  unfolding requeue
  Keeps-requeue p it = search keeps depth 9

  Handles-set_priority : Handles this do_set_priority
  unfolding do_set_priority
  Handles-set_priority brand m keys = search (keeps, Keeps-put_priority, Keeps-requeue) depth 12

  Handles-read_registers : (i : ℕ) → Handles this (do_read_registers i)
  unfolding do_read_registers
  Handles-read_registers i brand m keys = search keeps depth 9

  Handles-write_registers : (i : ℕ) → Handles this (do_write_registers i)
  unfolding do_write_registers
  Handles-write_registers i brand m keys = search (keeps, Keeps-put_save) depth 9

  pub Handles-context : Handles this context_handler
  unfolding context_handler
  Handles-context brand m keys =
      search
        (
          keeps, Handles-register, Handles-key_register, Handles-region_register,
          Handles-make_runnable, Handles-set_priority, Handles-read_registers,
          Handles-write_registers,
        )
        depth 20
