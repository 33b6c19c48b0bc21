-- ===== src/Kernel/Dispatch/Refusals.antt =====
-- What the objects of the kernel answer to an operation that they do not know.
use brittle_kernel.Prelude.{ℕ, ◌<◌, ◌≡◌, arith, refl, true}
use brittle_kernel.Run.{ok, pure}
use brittle_kernel.Abi.Descriptor.{get_selector, with_error, zero_descriptor}
use brittle_kernel.Abi.Message.{Message, failure}
use brittle_kernel.Kernel.{
  Kernel, Object, null, object_table, slot, memory, context, gate, interrupt,
}
use brittle_kernel.Kernel.Dispatch.{handler, gate_handler, interrupt_handler}
use brittle_kernel.Kernel.Keys.{Bank, empty_bank}
use brittle_kernel.Kernel.Protocol.{do_badop}
use brittle_kernel.Kernel.Protocol.Context.{context_handler}
use brittle_kernel.Kernel.Protocol.Memory.{memory_handler}
use brittle_kernel.Kernel.Protocol.ObjectTable.{object_table_handler}

-- The message that reports an unknown selector.
abbrev pub refused : ℕ → Message
refused selector = record {
  desc = with_error true zero_descriptor;
  d0 = 0x45593586;
  d1 = 0xfbfee621;
  d2 = selector;
  d3 = 0;
  d4 = 0;
}

-- Whatever its kind, an object answers an operation whose selector is above those of every protocol
-- with an error, the number of `bad_operation` in two words and the selector in the third, and no keys; and
-- the kernel's state is unchanged.
pub handler-unknown :
    (o : Object) (this brand : ℕ) (m : Message) (keys : Bank) (k : Kernel)
    → 13 < get_selector m.desc
    → handler o this brand m keys k
      ≡ ok (record { message = refused (get_selector m.desc); keys = empty_bank }) k
unfolding handler gate_handler interrupt_handler context_handler memory_handler object_table_handler
    pure do_badop failure
handler-unknown null this brand m keys k lt = refl
handler-unknown slot this brand m keys k lt = refl
handler-unknown object_table this brand m keys k lt = ground arith
handler-unknown (memory h) this brand m keys k lt = ground arith
handler-unknown (context b) this brand m keys k lt = ground arith
handler-unknown gate this brand m keys k lt = ground arith
handler-unknown (interrupt b) this brand m keys k lt = ground arith
