-- ===== src/Samples/ProtocolWitnesses.antt =====
-- The theorems on descriptors, keymaps, geometry and the protocols, at small inputs.

use brittle_kernel.Kernel.Protocol.Context.Registers.{read-write_key_register}
use brittle_kernel.Kernel.Protocol.Context.{context_handler}
use brittle_kernel.Kernel.Protocol.{empty_reply}
use brittle_kernel.Kernel.Dispatch.Refusals.{handler-unknown, refused}
use brittle_kernel.Abi.Message.{Message, zero_message}
use brittle_kernel.Prelude.{ℕ, ◌<◌, ◌≤◌, ◌≡◌, refl, ◌≢◌, arith, ◌↔◌, true, ◌^◌, ◌%◌, ◌*◌}
use brittle_kernel.Run.{ok, ◌>>◌}
use brittle_kernel.Abi.Descriptor.{call, get_selector}
use brittle_kernel.Abi.Descriptor.Fields.{call-Fields}
use brittle_kernel.Links
use brittle_kernel.Links.{Links}
use brittle_kernel.Kernel.{
  Kernel, gets, modify, on_lists, emit, owner, object_at, body, context, gate,
}
use brittle_kernel.Kernel.Boot.{reset, start_app}
use brittle_kernel.Kernel.Dispatch.{handler}
use brittle_kernel.Kernel.Keys.{Bank, empty_bank}
use brittle_kernel.Kernel.Memory.{contains}
use brittle_kernel.Kernel.Memory.Geometry.{contains_iff}
use brittle_kernel.Kernel.Delivery.{has_top_bit, ReplySender}
use brittle_kernel.Kernel.Objects.{next_reply_brand}
use brittle_kernel.Kernel.Objects.ReplyBrand.{next_reply_brand_fresh}
use brittle_kernel.Kernel.Scheduler.{load_region}
use brittle_kernel.Samples.Machine.{booted, memory_key}

contains_iff_example : (contains 4096 4096 5000 100 ≡ true) ↔ ((4096 ≤ 5000) × (5100 ≤ 8192))
contains_iff_example = contains_iff 4096 4096 5000 100 (omega arith) (omega arith)

top_bit : has_top_bit (2 ^ 63) ≡ true
unfolding has_top_bit
top_bit = refl

next_reply_brand_fresh_example :
    (next_reply_brand (2 ^ 63) < 2 ^ 64)
    × (has_top_bit (next_reply_brand (2 ^ 63)) ≡ true)
    × (next_reply_brand (2 ^ 63) ≢ 2 ^ 63)
next_reply_brand_fresh_example = next_reply_brand_fresh (2 ^ 63) (omega arith) top_bit

abbrev operation : ℕ → ℕ → ℕ → Message
operation s d0 d1 = record zero_message { desc = call s 0; d0 = d0; d1 = d1 }

selector_of : (s d0 d1 : ℕ) → get_selector (operation s d0 d1).desc ≡ s % 2 ^ 16
selector_of s d0 d1 = (call-Fields s 0).selector

handler-unknown_example :
    handler gate 5 0 (operation 99 0 0) empty_bank booted
    ≡ ok
        (record { message = refused (get_selector (operation 99 0 0).desc); keys = empty_bank })
        booted
handler-unknown_example =
    handler-unknown gate 5 0 (operation 99 0 0) empty_bank booted
      (rw (selector_of 99 0 0) (omega arith))

-- A brand that lets both the kernel and a program write.
abbrev open_brand : ℕ
open_brand = 3 * 2 ^ 16

-- Object 2 is the first context.
first_context : object_at booted 2 ≡ context (body booted 2)
unfolding booted start_app reset ◌>>◌ modify gets on_lists emit load_region Links.peek owner
first_context = refl

abbrev some_keys : Bank
some_keys i = memory_key

read-write_key_register_example :
    (l : Kernel) × (context_handler 2 0 (operation 4 7 0) some_keys booted ≡ ok empty_reply l)
    × ((r : ReplySender) × (context_handler 2 0 (operation 3 7 0) empty_bank l ≡ ok r l)
        × (r.keys 1 ≡ memory_key))
read-write_key_register_example =
    read-write_key_register 2 0 0 (operation 4 7 0) (operation 3 7 0) some_keys empty_bank booted
      (body booted 2) first_context refl (selector_of 4 7 0) (selector_of 3 7 0) (omega arith)
      (λ e. omega arith)
