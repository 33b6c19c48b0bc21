-- ===== src/Kernel/Settled/Protocols.antt =====
-- The invariant of Kernel/Settled through the Context and ObjectTable protocols.
use brittle_kernel.Prelude.{ℕ, ◌≡◌, true, Bool}
use brittle_kernel.Run.Keeps.{Keeps, Keeps-pure, Keeps-maybe}
use brittle_kernel.Abi.Message.{Message}
use brittle_kernel.Links
use brittle_kernel.Links.Laid.Operations.{reinsert-Laid}
use brittle_kernel.Kernel.{
  Key, State, stopped, runnable, sending, receiving, on_lists, ctx_item, sender_item,
}
use brittle_kernel.Kernel.Delivery.{ReplySender}
use brittle_kernel.Kernel.Keys.{Bank}
use brittle_kernel.Kernel.Protocol.{with_key, with_new_key, Handler}
use brittle_kernel.Kernel.Protocol.Context.{
  do_register, do_key_register, do_region_register, cancel_receive, cancel_send, runnable_from,
  do_make_runnable, requeue, do_set_priority, do_read_registers, do_write_registers,
  context_handler,
}
use brittle_kernel.Kernel.Protocol.ObjectTable.{
  do_mint_key, do_read_key, do_get_kind, do_invalidate, object_table_handler,
}
use brittle_kernel.Kernel.Settled.{
  J, Keeps-on_lists, ctx_item-is_root, ctx_item-in_use, sender_item-is_root, sender_item-in_use,
}
use brittle_kernel.Kernel.Settled.Delivery.{
  Keeps-on_blocked_delivery_aborted, Keeps-complete_blocked_receive_exception,
}
use brittle_kernel.Kernel.Settled.Objects.{Keeps-invalidate}
use brittle_kernel.Kernel.Settled.Scheduler.{keeps, Keeps-apply_to_mpu, Keeps-make_runnable}

module _ (live E : ℕ → Bool) (n : ℕ) where
  pub Keeps-with_key : (i : ℕ) (key : Key) (r : ReplySender) → Keeps (J live E n) (with_key i key r)
  unfolding with_key
  Keeps-with_key i key r = search keeps depth 9

  pub Keeps-with_new_key :
      (i o brand : ℕ) (r : ReplySender) → Keeps (J live E n) (with_new_key i o brand r)
  unfolding with_new_key
  Keeps-with_new_key i o brand r = search (keeps, Keeps-with_key) depth 9

  -- A handler keeps the invariant at the object `this`.
  abbrev pub Handles : ℕ → Handler → Type 0
  Handles this handle =
      (brand : ℕ) (m : Message) (keys : Bank) → Keeps (J live E n) (handle this brand m keys)

module _ (live E : ℕ → Bool) (n this : ℕ) where
  Handles-mint_key : Handles live E n this do_mint_key
  unfolding do_mint_key
  Handles-mint_key brand m keys = search (keeps, Keeps-maybe, Keeps-with_key) depth 9

  Handles-read_key : Handles live E n this do_read_key
  unfolding do_read_key
  Handles-read_key brand m keys = search keeps depth 9

  Handles-get_kind : Handles live E n this do_get_kind
  unfolding do_get_kind
  Handles-get_kind brand m keys = search keeps depth 9

  Handles-invalidate : Handles live E n this do_invalidate
  unfolding do_invalidate
  Handles-invalidate brand m keys = search (keeps, Keeps-invalidate) depth 12

  pub Handles-object_table : Handles live E n this object_table_handler
  unfolding object_table_handler
  Handles-object_table brand m keys =
      search (keeps, Handles-mint_key, Handles-read_key, Handles-get_kind, Handles-invalidate) depth
        9

  Handles-register : Handles live E n this do_register
  unfolding do_register
  Handles-register brand m keys = search keeps depth 9

  Handles-key_register : Handles live E n this do_key_register
  unfolding do_key_register
  Handles-key_register brand m keys = search (keeps, Keeps-with_key) depth 9

  Handles-region_register : Handles live E n this do_region_register
  unfolding do_region_register
  Handles-region_register brand m keys = search (keeps, Keeps-with_key, Keeps-apply_to_mpu) depth 12

  Handles-read_registers : (i : ℕ) → Handles live E n this (do_read_registers i)
  unfolding do_read_registers
  Handles-read_registers i brand m keys = search keeps depth 9

  Handles-write_registers : (i : ℕ) → Handles live E n this (do_write_registers i)
  unfolding do_write_registers
  Handles-write_registers i brand m keys = search keeps depth 9

  module _ (u : live this ≡ true) where
    Keeps-cancel_receive : Keeps (J live E n) (cancel_receive this)
    unfolding cancel_receive
    Keeps-cancel_receive = search (keeps, Keeps-complete_blocked_receive_exception) depth 9

    Keeps-runnable_from : (state : State) → Keeps (J live E n) (runnable_from state this)
    unfolding runnable_from cancel_send
    Keeps-runnable_from sending = search (keeps, Keeps-on_blocked_delivery_aborted) depth 9
    Keeps-runnable_from receiving = Keeps-cancel_receive
    Keeps-runnable_from stopped = Keeps-make_runnable live E n this u
    Keeps-runnable_from runnable = Keeps-pure _ tt

    Handles-make_runnable : Handles live E n this do_make_runnable
    unfolding do_make_runnable
    Handles-make_runnable brand m keys = search (keeps, Keeps-runnable_from) depth 9

    Keeps-reinsert_ctx : (p : ℕ) → Keeps (J live E n) (on_lists (Links.reinsert p (ctx_item this)))
    Keeps-reinsert_ctx p = Keeps-on_lists live E n _ λ s l.
        reinsert-Laid live s l (ctx_item this) (ctx_item-is_root this) (ctx_item-in_use live this u)
          p

    Keeps-reinsert_sender :
        (p : ℕ) → Keeps (J live E n) (on_lists (Links.reinsert p (sender_item this)))
    Keeps-reinsert_sender p = Keeps-on_lists live E n _ λ s l.
        reinsert-Laid live s l (sender_item this) (sender_item-is_root this)
          (sender_item-in_use live this u) p

    Handles-set_priority : Handles live E n this do_set_priority
    unfolding do_set_priority requeue
    Handles-set_priority brand m keys =
        search (keeps, Keeps-reinsert_ctx, Keeps-reinsert_sender) depth 20

    pub Handles-context : Handles live E n this context_handler
    unfolding context_handler
    Handles-context brand m keys =
        search
          (
            keeps, Handles-register, Handles-key_register, Handles-region_register,
            Handles-make_runnable, Handles-set_priority, Handles-read_registers,
            Handles-write_registers,
          )
          depth 20
