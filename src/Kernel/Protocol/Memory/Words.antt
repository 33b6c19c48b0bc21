-- ===== src/Kernel/Protocol/Memory/Words.antt =====
-- The operations `peek` and `poke` of the Memory protocol.
use brittle_kernel.Prelude.{ℕ, ◌+◌, ◌*◌, ◌%◌, none, some}
use brittle_kernel.Abi.Message.{Message}
use brittle_kernel.Kernel.{Kernel, as_memory, object_at}
use brittle_kernel.Kernel.Protocol.Memory.{current_rasr}
use brittle_kernel.Kernel.Memory.{word_mod, decode_ap}

-- The access that the brand of a key to the object gives to unprivileged code: none 0, read 1, write 2.
unfoldable pub unprivileged_access : Kernel → ℕ → ℕ → ℕ
unprivileged_access k this brand =
    elim (decode_ap k.platform (k.platform.get_ap (current_rasr k this brand))) [
      | none ↦ 0
      | some a ↦ a.unpriv
    ]

abbrev pub word_address : Kernel → ℕ → ℕ → ℕ
word_address k this offset = ((as_memory (object_at k this)).base + 4 * offset) % word_mod
