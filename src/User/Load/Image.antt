-- ===== src/User/Load/Image.antt =====
-- a/sys/load.cc: program headers, their checks, and the relocation of a table entry.
use brittle_kernel.Prelude.{
  ℕ, zero, suc, ◌+◌, ◌-◌, ◌/◌, ◌%◌, ◌^◌, Bool, true, false, not, ◌==◌, ltb, bit_or, if◌then◌else◌,
}

-- `v |= v >> n`.
abbrev pub smear : ℕ → ℕ → ℕ
smear n v = bit_or v (v / 2 ^ n)

-- `round_up_p2`, on 32-bit words.
unfoldable pub round_up_p2 : ℕ → ℕ
round_up_p2 v =
    (smear 16 (smear 8 (smear 4 (smear 2 (smear 1 ((v + 2 ^ 32 - 1) % 2 ^ 32))))) + 1) % 2 ^ 32

-- `__builtin_ctz`, for the bits left; it is undefined at 0.
unfoldable ctz_from : ℕ → ℕ → ℕ
ctz_from zero x = 0
ctz_from (suc n) x = let rest = ctz_from n (x / 2) in if x % 2 == 1 then 0 else 1 + rest

unfoldable pub ctz : ℕ → ℕ
unfolding ctz_from
ctz x = ctz_from 32 x

pub record Header : Type 0 where
  pub image_size : ℕ
  pub text_end : ℕ
  pub got_end : ℕ
  pub bss_end : ℕ
  pub stack_size : ℕ
  pub entry : ℕ

-- `is_valid`; the first argument is the size of an exception frame.
unfoldable pub is_valid : ℕ → Header → Bool
is_valid frame_size hdr =
    if not (hdr.image_size % 4 == 0)
    then false
    else if not (hdr.text_end % 4 == 0)
    then false
    else if not (hdr.got_end % 4 == 0)
    then false
    else if not (hdr.bss_end % 4 == 0)
    then false
    else if not (hdr.stack_size % 4 == 0)
    then false
    else if not (hdr.entry % 2 == 0)
    then false
    else if not (ltb hdr.entry hdr.text_end)
    then false
    else if ltb hdr.image_size hdr.got_end
    then false
    else if ltb hdr.got_end hdr.text_end
    then false
    else if ltb hdr.bss_end hdr.image_size
    then false
    else if ltb hdr.stack_size frame_size
    then false
    else true

-- `get_ram_size`, on 32-bit words.
unfoldable pub get_ram_size : Header → ℕ
unfolding round_up_p2
get_ram_size hdr = round_up_p2 ((hdr.bss_end + 2 ^ 32 - hdr.text_end + hdr.stack_size) % 2 ^ 32)

unfoldable pub relocate_got_entry : Header → ℕ → ℕ → ℕ → ℕ
relocate_got_entry hdr hdr_addr ram_addr entry =
    if ltb entry hdr.text_end
    then (hdr_addr + entry) % 2 ^ 32
    else if ltb entry hdr.bss_end
    then (entry - hdr.text_end + ram_addr) % 2 ^ 32
    else entry
