-- ===== src/User/Load/Fits.antt =====
-- What the checks of a header and the rounding of its RAM promise to the loops of the loader.
use brittle_kernel.Prelude.{
  ℕ, zero, suc, ◌+◌, ◌-◌, ◌*◌, ◌/◌, ◌%◌, ◌^◌, ◌≤◌, ◌<◌, ◌≡◌, true, arith, le-bit_or, bit_or-lt, ltb,
  Bool, false, refl, not, ◌==◌, if◌then◌else◌,
}
use brittle_kernel.User.Load.Image.{Header, is_valid, get_ram_size, round_up_p2, smear}

abbrev Between : ℕ → ℕ → Type 0
Between v w = (v ≤ w) × (w < 2 ^ 31)

-- One step of the rounding, on 31-bit words.
smear-Between : (n v w : ℕ) → w / 2 ^ n ≤ w → Between v w → Between v (smear n w)
smear-Between n v w shifted (le, lt) = (
  omega (arith, le, le-bit_or w (w / 2 ^ n)),
  bit_or-lt 31 w (w / 2 ^ n) lt (omega (arith, lt, shifted)),
)

rounded : (v s : ℕ) → Between v s → suc v ≤ (s + 1) % 2 ^ 32
rounded v s (le, lt) = omega (arith, le, lt)

-- The size is no less than what is asked for, up to half the address space.
pub round_up_p2-le : (v : ℕ) → v ≤ 2 ^ 31 → v ≤ round_up_p2 v
unfolding round_up_p2
round_up_p2-le zero le = omega arith
round_up_p2-le (suc v) le =
    let start : Between v ((suc v + 2 ^ 32 - 1) % 2 ^ 32) =
      (omega (arith, le), omega (arith, le)) in
    let s1 = smear-Between 1 v _ (omega arith) start in
    let s2 = smear-Between 2 v _ (omega arith) s1 in
    let s4 = smear-Between 4 v _ (omega arith) s2 in
    let s8 = smear-Between 8 v _ (omega arith) s4 in
    rounded v _ (smear-Between 16 v _ (omega arith) s8)

ltb-false : (a b : ℕ) → ltb a b ≡ false → b ≤ a
ltb-false a b e = ground arith

aligned : (a : ℕ) → not (a % 4 == 0) ≡ false → a % 4 ≡ 0
aligned a e = ground arith

-- What a check that was passed says.
passed : (b rest : Bool) → (if b then false else rest) ≡ true → (b ≡ false) × (rest ≡ true)
passed true rest e = cc
passed false rest e = (refl, e)

layout :
    (frame_size : ℕ) (hdr : Header)
    → is_valid frame_size hdr ≡ true
    → (hdr.text_end % 4 ≡ 0)
      × ((hdr.text_end ≤ hdr.got_end)
          × ((hdr.got_end ≤ hdr.image_size)
              × ((hdr.image_size ≤ hdr.bss_end) × (frame_size ≤ hdr.stack_size))))
unfolding is_valid
layout frame_size hdr valid =
    let image = passed (not (hdr.image_size % 4 == 0)) _ valid in
    let text = passed (not (hdr.text_end % 4 == 0)) _ image.1 in
    let got = passed (not (hdr.got_end % 4 == 0)) _ text.1 in
    let bss = passed (not (hdr.bss_end % 4 == 0)) _ got.1 in
    let stack = passed (not (hdr.stack_size % 4 == 0)) _ bss.1 in
    let entry = passed (not (hdr.entry % 2 == 0)) _ stack.1 in
    let start = passed (not (ltb hdr.entry hdr.text_end)) _ entry.1 in
    let got_end = passed (ltb hdr.image_size hdr.got_end) _ start.1 in
    let text_end = passed (ltb hdr.got_end hdr.text_end) _ got_end.1 in
    let bss_end = passed (ltb hdr.bss_end hdr.image_size) _ text_end.1 in
    let frame = passed (ltb hdr.stack_size frame_size) true bss_end.1 in
    (
      aligned _ text.0,
      (
        ltb-false _ _ text_end.0,
        (ltb-false _ _ got_end.0, (ltb-false _ _ bss_end.0, ltb-false _ _ frame.0)),
      ),
    )

-- A header that passes the checks, and whose RAM is no more than half the address space, gets a RAM
-- that holds its data, its BSS and its stack, one behind the other. The table lies in the data, the words
-- of the data lie before the end of the BSS, and the stack has room for an exception frame.
pub get_ram_size-fits :
    (frame_size : ℕ) (hdr : Header)
    → is_valid frame_size hdr ≡ true
    → hdr.bss_end - hdr.text_end + hdr.stack_size ≤ 2 ^ 31
    → (hdr.got_end / 4 - hdr.text_end / 4 ≤ hdr.image_size / 4 - hdr.text_end / 4)
      × ((4 * (hdr.image_size / 4 - hdr.text_end / 4) ≤ hdr.bss_end - hdr.text_end)
          × (hdr.bss_end - hdr.text_end + hdr.stack_size ≤ get_ram_size hdr)
          × (frame_size ≤ hdr.stack_size))
unfolding get_ram_size
get_ram_size-fits frame_size hdr valid le =
    let facts = layout frame_size hdr valid in
    (
      omega (arith, facts.1.1.0),
      (
        omega (arith, facts.0, facts.1.0, facts.1.1.0, facts.1.1.1.0),
        sized ((hdr.bss_end + 2 ^ 32 - hdr.text_end + hdr.stack_size) % 2 ^ 32)
            (omega (arith, le, facts.1.0, facts.1.1.0, facts.1.1.1.0))
            (omega (arith, le, facts.1.0, facts.1.1.0, facts.1.1.1.0)),
        facts.1.1.1.1,
      ),
    )
  where
    sized :
        (v : ℕ)
        → hdr.bss_end - hdr.text_end + hdr.stack_size ≤ v
        → v ≤ 2 ^ 31
        → hdr.bss_end - hdr.text_end + hdr.stack_size ≤ round_up_p2 v
    sized v p q = omega (arith, p, round_up_p2-le v q)
