-- ===== src/User/Keys.antt =====
-- a/rt/keys.cc: the allocator of key registers. The mask has 32 bits, of which bit i says that key
-- register i is free. The functions take register numbers below 32, beyond which the source's shift
-- is undefined.
pub mod Held
pub mod Registers
use brittle_kernel.Prelude.{
  ℕ, zero, suc, ◌+◌, ◌/◌, ◌%◌, ◌^◌, Bool, true, false, not, ◌&&◌, ◌||◌, Option, none, some, ◌==◌,
  leb, ltb, if◌then◌else◌, update,
}
use brittle_kernel.Run.{pure, fail, ◌>>=◌, ◌>>◌, assertion_failed}
use brittle_kernel.User.{Process, User, reads, writes, assert}

-- 0xFFFE.
abbrev pub initially_available : ℕ → Bool
initially_available i = leb 1 i && ltb i 16

-- Bit i of a mask.
abbrev in_mask : ℕ → ℕ → Bool
in_mask m i = m / 2 ^ i % 2 == 1

-- `(available_keys & m) == m`, for the bits left.
unfoldable all_available : ℕ → ℕ → ℕ → (ℕ → Bool) → Bool
all_available zero i m available = true
all_available (suc n) i m available =
    let rest = all_available n (i + 1) m available in
    if in_mask m i && not (available i) then false else rest

-- The loop of AutoKey::AutoKey, for the rounds left.
unfoldable pub first_available : ℕ → ℕ → (ℕ → Bool) → Option ℕ
first_available zero i available = none
first_available (suc n) i available =
    let rest = first_available n (i + 1) available in if available i then some i else rest

module _ {W : Type 0} where
  unfoldable pub reserve_key : ℕ → User W (Unit {0})
  unfolding assert
  reserve_key ki = do
    free ← reads (λ p. p.available ki)
    assert free
    writes (λ p. record p { available = update p.available ki false })

  unfoldable pub reserve_keys : ℕ → User W (Unit {0})
  unfolding all_available assert
  reserve_keys m = do
    free ← reads (λ p. all_available 32 0 m p.available)
    assert free
    writes (λ p. record p { available = λ i. p.available i && not (in_mask m i) })

  -- The constructor takes the register that its loop finds.
  unfoldable pub take_register : Option ℕ → User W ℕ
  take_register none = fail assertion_failed
  take_register (some i) =
      writes (λ p. record p { available = update p.available i false }) >> pure i

  -- AutoKey::AutoKey().
  unfoldable pub auto_key : User W ℕ
  unfolding first_available take_register
  auto_key = do found ← reads (λ p. first_available 15 1 p.available); take_register found

  -- AutoKey::~AutoKey.
  unfoldable pub drop_key : ℕ → User W (Unit {0})
  drop_key ki =
      if ki == 0 then pure tt else writes (λ p. record p { available = update p.available ki true })

-- AutoKey::AutoKey(AutoKey &&): what the new object holds, and what is left in the old one.
pub record Moved : Type 0 where
  pub to : ℕ
  pub from : ℕ

unfoldable pub move_key : ℕ → Moved
move_key ki = record { to = ki; from = 0 }
