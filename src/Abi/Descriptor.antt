-- ===== src/Abi/Descriptor.antt =====
-- common/descriptor.h: the descriptor that every system call passes, a 32-bit word with seven
-- fields. A field of `w` bits at bit `l` is read as `bits / 2 ^ l % 2 ^ w`; a `with_` method keeps
-- the bits above and below the field and puts the low bits of its argument in between, which is
-- what the source's masks and shifts do to a 32-bit word.
pub mod Fields
use brittle_kernel.Prelude.{
  ℕ, ◌+◌, ◌*◌, ◌/◌, ◌%◌, ◌^◌, Bool, true, false, ◌&&◌, ◌==◌, if◌then◌else◌,
}
use brittle_kernel.Abi.Selectors.{sysnum_ipc}

abbrev pub Descriptor : Type 0
Descriptor = ℕ

abbrev field : ℕ → ℕ → ℕ → ℕ
field l w bits = bits / 2 ^ l % 2 ^ w

abbrev with_field : ℕ → ℕ → ℕ → ℕ → ℕ
with_field l w v bits = bits / 2 ^ (l + w) * 2 ^ (l + w) + v % 2 ^ w * 2 ^ l + bits % 2 ^ l

-- `uint32_t(e)` of a flag, and the test of a masked bit.
abbrev of_bool : Bool → ℕ
of_bool true = 1
of_bool false = 0

abbrev flag : ℕ → ℕ → Bool
flag l bits = field l 1 bits == 1

abbrev pub zero_descriptor : Descriptor
zero_descriptor = 0

unfoldable pub with_selector : ℕ → Descriptor → Descriptor
with_selector s d = with_field 0 16 s d

unfoldable pub get_selector : Descriptor → ℕ
get_selector d = field 0 16 d

unfoldable pub with_error : Bool → Descriptor → Descriptor
with_error e d = with_field 16 1 (of_bool e) d

unfoldable pub get_error : Descriptor → Bool
get_error d = flag 16 d

unfoldable pub with_send_enabled : Bool → Descriptor → Descriptor
with_send_enabled e d = with_field 17 1 (of_bool e) d

unfoldable pub get_send_enabled : Descriptor → Bool
get_send_enabled d = flag 17 d

unfoldable pub with_receive_enabled : Bool → Descriptor → Descriptor
with_receive_enabled e d = with_field 18 1 (of_bool e) d

unfoldable pub get_receive_enabled : Descriptor → Bool
get_receive_enabled d = flag 18 d

unfoldable pub with_block : Bool → Descriptor → Descriptor
with_block e d = with_field 19 1 (of_bool e) d

unfoldable pub get_block : Descriptor → Bool
get_block d = flag 19 d

unfoldable pub with_target : ℕ → Descriptor → Descriptor
with_target t d = with_field 20 4 t d

unfoldable pub get_target : Descriptor → ℕ
get_target d = field 20 4 d

unfoldable pub with_source : ℕ → Descriptor → Descriptor
with_source s d = with_field 24 4 s d

unfoldable pub get_source : Descriptor → ℕ
get_source d = field 24 4 d

unfoldable pub with_sysnum : ℕ → Descriptor → Descriptor
with_sysnum s d = with_field 28 4 s d

unfoldable pub get_sysnum : Descriptor → ℕ
get_sysnum d = field 28 4 d

-- The selector and the error bit alone.
unfoldable pub sanitized : Descriptor → Descriptor
unfolding with_error with_selector get_selector get_error
sanitized d = with_error (get_error d) (with_selector (get_selector d) zero_descriptor)

unfoldable pub is_call : Descriptor → Bool
unfolding get_receive_enabled get_source
is_call d = get_receive_enabled d && (get_source d == 0)

-- `Descriptor::call`.
unfoldable pub call : ℕ → ℕ → Descriptor
unfolding with_sysnum with_selector with_send_enabled with_target with_receive_enabled with_source
    with_block
call s k = with_block true (
    with_source 0 (
      with_receive_enabled true (
        with_target k
          (with_send_enabled true (with_selector s (with_sysnum sysnum_ipc zero_descriptor))))))
