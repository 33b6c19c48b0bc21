-- ===== src/Abi/Message.antt =====
-- common/message.h: a message, and a message as it is received.
use brittle_kernel.Prelude.{ℕ, ◌/◌, ◌%◌, ◌^◌, true}
use brittle_kernel.Abi.Descriptor.{Descriptor, zero_descriptor, with_error, sanitized}
use brittle_kernel.Abi.Exceptions.{Exception, identifier}

pub record Message : Type 0 where
  pub desc : Descriptor
  pub d0 : ℕ
  pub d1 : ℕ
  pub d2 : ℕ
  pub d3 : ℕ
  pub d4 : ℕ

-- `Message{}`, and the constructor's defaults.
abbrev pub zero_message : Message
zero_message = record { desc = zero_descriptor; d0 = 0; d1 = 0; d2 = 0; d3 = 0; d4 = 0 }

-- `Message::failure(e, d2)`; no caller in the kernel gives d3 or d4.
unfoldable pub failure : Exception → ℕ → Message
unfolding with_error
failure e d2 = record {
  desc = with_error true zero_descriptor;
  d0 = identifier e % 2 ^ 32;
  d1 = identifier e / 2 ^ 32 % 2 ^ 32;
  d2 = d2;
  d3 = 0;
  d4 = 0;
}

unfoldable pub sanitized_message : Message → Message
unfolding sanitized
sanitized_message m = record m { desc = sanitized m.desc }

pub record ReceivedMessage : Type 0 where
  pub m : Message
  pub brand : ℕ
