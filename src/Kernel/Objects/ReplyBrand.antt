-- ===== src/Kernel/Objects/ReplyBrand.antt =====
-- The brands of reply keys: Context::advance_reply_brand and Context::is_reply_brand.
use brittle_kernel.Prelude.{ℕ, ◌^◌, ◌<◌, ◌≡◌, ◌≢◌, true, arith}
use brittle_kernel.Kernel.Delivery.{has_top_bit}
use brittle_kernel.Kernel.Objects.{next_reply_brand, set_top_bit}

-- Advancing a 64-bit brand whose top bit is set gives a 64-bit brand whose top bit is set, and
-- another one.
pub next_reply_brand_fresh :
    (brand : ℕ)
    → brand < 2 ^ 64
    → has_top_bit brand ≡ true
    → (next_reply_brand brand < 2 ^ 64)
      × (has_top_bit (next_reply_brand brand) ≡ true)
      × (next_reply_brand brand ≢ brand)
unfolding next_reply_brand has_top_bit set_top_bit
next_reply_brand_fresh brand lt top = ground arith
