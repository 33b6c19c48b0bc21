-- ===== src/Kernel/Protocol/ObjectTable/Minting.antt =====
-- The operation `mint_key` of the object table.
use brittle_kernel.Prelude.{ℕ, ◌+◌, ◌*◌, ◌^◌, ◌<◌, ◌≡◌, arith, refl, update}
use brittle_kernel.Run.{ok, ◌>>=◌, ◌>>◌}
use brittle_kernel.Abi.Descriptor.{get_selector}
use brittle_kernel.Abi.Message.{Message}
use brittle_kernel.Abi.Selectors.ObjectTable
use brittle_kernel.Kernel.{Kernel, gets}
use brittle_kernel.Kernel.Keys.{Bank, resolve, pointee, make_key, filled, empty_bank}
use brittle_kernel.Kernel.Delivery.{ReplySender}
use brittle_kernel.Kernel.Protocol.{with_key, empty_reply}
use brittle_kernel.Kernel.Protocol.ObjectTable.{object_table_handler, do_mint_key}

-- A `mint_key` within the table succeeds for every brand and leaves the kernel's state unchanged; the
-- key that it returns reads as itself, and designates the object and has the brand asked for.
pub mint_key-resolve :
    (this brand : ℕ) (m : Message) (keys : Bank) (k : Kernel)
    → get_selector m.desc ≡ ObjectTable.mint_key
    → m.d0 < k.count
    → (r : ReplySender) × (object_table_handler this brand m keys k ≡ ok r k)
      × (resolve k (r.keys 1) ≡ r.keys 1)
      × (pointee (r.keys 1) ≡ m.d0)
      × ((r.keys 1).brand ≡ m.d1 + m.d2 * 2 ^ 32)
unfolding object_table_handler do_mint_key with_key make_key filled resolve ◌>>=◌ ◌>>◌ gets
mint_key-resolve this brand m keys k s lt = (
  record empty_reply { keys = update empty_bank 1 (filled k m.d0 (m.d1 + m.d2 * 2 ^ 32)) },
  ground arith,
  ground arith,
  refl,
  refl,
)
