-- ===== src/Kernel/Protocol/Context/Registers.antt =====
-- The operations on the saved registers and the key registers of a context.
use brittle_kernel.Prelude.{ℕ, ◌<◌, ◌≡◌, ◌≢◌, arith, refl, update}
use brittle_kernel.Run.{ok, ◌>>=◌, ◌>>◌}
use brittle_kernel.Abi.Descriptor.{get_selector}
use brittle_kernel.Abi.Message.{Message, zero_message}
use brittle_kernel.Abi.Selectors.Context
use brittle_kernel.Abi.Sizes.{n_task_keys}
use brittle_kernel.Kernel.{
  Kernel, ContextBody, context, object_at, put_body, gets, modify, n_saved_registers,
}
use brittle_kernel.Kernel.Keys.{Bank, empty_bank, put_key}
use brittle_kernel.Kernel.Delivery.{ReplySender}
use brittle_kernel.Kernel.Protocol.{reply_message, empty_reply, with_key}
use brittle_kernel.Kernel.Protocol.Context.{context_handler, do_register, do_key_register}

module _ (this brand brand' : ℕ) (p q : Message) (keys keys' : Bank) (k : Kernel) (b : ContextBody)
    (o : object_at k this ≡ context b) (e : q.d0 ≡ p.d0) where
  -- A register of a context that was written reads back as it was written.
  pub read-write_register :
      get_selector p.desc ≡ Context.write_register
      → get_selector q.desc ≡ Context.read_register
      → p.d0 < n_saved_registers
      → (l : Kernel) × (context_handler this brand p keys k ≡ ok empty_reply l)
        × (context_handler this brand' q keys' l
            ≡ ok (reply_message (record zero_message { d0 = p.d1 })) l)
  unfolding context_handler do_register ◌>>=◌ ◌>>◌ gets modify
  read-write_register sp sq lt = (
    put_body this (λ b. record b { save = update b.save p.d0 p.d1 }) k,
    ground (arith, o),
    ground (arith, o),
  )

  -- A key register other than 0 that was written reads back the key that the message carried.
  pub read-write_key_register :
      get_selector p.desc ≡ Context.write_key_register
      → get_selector q.desc ≡ Context.read_key_register
      → p.d0 < n_task_keys
      → p.d0 ≢ 0
      → (l : Kernel) × (context_handler this brand p keys k ≡ ok empty_reply l)
        × ((r : ReplySender) × (context_handler this brand' q keys' l ≡ ok r l)
            × (r.keys 1 ≡ keys 1))
  unfolding context_handler do_key_register with_key ◌>>=◌ ◌>>◌ gets modify
  read-write_key_register sp sq lt ne = (
    put_key this p.d0 (keys 1) k,
    ground (arith, o),
    (record empty_reply { keys = update empty_bank 1 (keys 1) }, ground (arith, o), refl),
  )
