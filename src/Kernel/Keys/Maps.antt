-- ===== src/Kernel/Keys/Maps.antt =====
-- The keymap of k/keys.h and the loop that moves a message's keys.
use brittle_kernel.Prelude.{ℕ, ◌<◌, arith}
use brittle_kernel.Abi.Sizes.{n_task_keys}
use brittle_kernel.Kernel.Keys.{map_index}

-- Whatever a keymap holds, each index that it maps to is that of a key register of a context.
pub map_index-bound : (map index : ℕ) → map_index map index < n_task_keys
unfolding map_index
map_index-bound map index = ground arith
