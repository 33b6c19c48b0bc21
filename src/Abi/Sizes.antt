-- ===== src/Abi/Sizes.antt =====
-- k/config.h, common/abi_sizes.h and common/abi_types.h: sizes and well-known indices.
use brittle_kernel.Prelude.{ℕ, zero, suc, ◌+◌, ◌-◌, ◌*◌, ◌/◌, ◌==◌, ltb, if◌then◌else◌}

abbrev pub n_task_keys : ℕ
n_task_keys = 16

abbrev pub n_task_regions : ℕ
n_task_regions = 6

abbrev pub n_message_keys : ℕ
n_message_keys = 4

abbrev pub n_priorities : ℕ
n_priorities = 2

abbrev pub well_known_object_count : ℕ
well_known_object_count = 3

abbrev pub oi_null : ℕ
oi_null = 0

abbrev pub oi_object_table : ℕ
oi_object_table = 1

abbrev pub oi_first_context : ℕ
oi_first_context = 2

abbrev pub object_head_size : ℕ
object_head_size = 32

abbrev pub context_size : ℕ
context_size = 448

abbrev pub gate_size : ℕ
gate_size = n_priorities * 16

abbrev pub interrupt_size : ℕ
interrupt_size = 48

-- `log2floor`, for the halvings left: 32 are enough for a 32-bit word.
unfoldable log2floor_from : ℕ → ℕ → ℕ
log2floor_from zero x = 0
log2floor_from (suc n) x = let rest = log2floor_from n (x / 2) in if ltb x 2 then 0 else 1 + rest

unfoldable pub log2floor : ℕ → ℕ
unfolding log2floor_from
log2floor x = log2floor_from 32 x

unfoldable pub log2ceil : ℕ → ℕ
unfolding log2floor
log2ceil x = if x == 1 then 0 else log2floor (x - 1) + 1

unfoldable pub allocsize : ℕ → ℕ
unfolding log2ceil
allocsize x = if ltb (log2ceil x) 5 then 5 else log2ceil x

unfoldable pub context_l2_size : ℕ
unfolding allocsize
context_l2_size = allocsize context_size

unfoldable pub gate_l2_size : ℕ
unfolding allocsize
gate_l2_size = allocsize gate_size

unfoldable pub interrupt_l2_size : ℕ
unfolding allocsize
interrupt_l2_size = allocsize interrupt_size
