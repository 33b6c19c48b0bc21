-- ===== src/User/Stubs/Memory.antt =====
-- a/k/memory.h, a/k/memory.cc: the Memory protocol, and the region that `inspect` returns.
use brittle_kernel.Prelude.{ℕ, ◌+◌, ◌-◌, ◌*◌, ◌/◌, ◌%◌, ◌^◌, Bool, ltb}
use brittle_kernel.Run.{pure, ◌>>=◌}
use brittle_kernel.Abi.Descriptor.{call}
use brittle_kernel.Abi.Message.{zero_message}
use brittle_kernel.Abi.Selectors.Memory as Sel
use brittle_kernel.User.{System, User}
use brittle_kernel.User.Ipc.{keymap, invoke}
use brittle_kernel.User.Keys.{auto_key}

pub record Region : Type 0 where
  pub rbar : ℕ
  pub rasr : ℕ

unfoldable pub get_l2_half_size : Region → ℕ
get_l2_half_size r = r.rasr / 2 % 2 ^ 5

-- The shift is undefined in the source for a half size of 1 byte.
unfoldable pub get_size_words : Region → ℕ
unfolding get_l2_half_size
get_size_words r = 2 ^ (get_l2_half_size r - 1)

-- `rbar & ~0x1F`.
unfoldable pub get_base : Region → ℕ
get_base r = r.rbar / 2 ^ 5 * 2 ^ 5

-- `contains`, on 32-bit words.
unfoldable pub contains : Region → ℕ → Bool
unfolding get_base get_l2_half_size
contains r address = ltb ((address + 2 ^ 32 - get_base r + 1) % 2 ^ 32 / 2) (2 ^ get_l2_half_size r)

-- ObjectType.
abbrev pub type_context : ℕ
type_context = 0

abbrev pub type_gate : ℕ
type_gate = 1

abbrev pub type_interrupt : ℕ
type_interrupt = 2

module _ {W : Type 0} (sys : System W) where
  unfoldable pub inspect : ℕ → User W Region
  unfolding invoke call
  inspect k = do
    m ← invoke sys (record zero_message { desc = call Sel.inspect k }) 0 0
    pure (record { rbar = m.d0; rasr = m.d1 })

  unfoldable pub split : ℕ → ℕ → ℕ → User W ℕ
  unfolding invoke keymap call auto_key
  split k pos slot_key = do
    k_top ← auto_key
    _ ←
        invoke sys (record zero_message { desc = call Sel.split k; d0 = pos })
          (keymap 0 slot_key 0 0) (keymap 0 k k_top 0)
    pure k_top

  -- The callers leave `arg_key` at its default, 0.
  unfoldable pub become : ℕ → ℕ → ℕ → User W (Unit {0})
  unfolding invoke keymap call
  become k ot arg = do
    _ ←
        invoke sys (record zero_message { desc = call Sel.become k; d0 = ot; d1 = arg })
          (keymap 0 0 0 0) (keymap 0 k 0 0)
    pure tt

  unfoldable pub peek : ℕ → ℕ → User W ℕ
  unfolding invoke call
  peek k offset = do
    m ← invoke sys (record zero_message { desc = call Sel.peek k; d0 = offset }) 0 0
    pure m.d0

  unfoldable pub poke : ℕ → ℕ → ℕ → User W (Unit {0})
  unfolding invoke call
  poke k offset word = do
    _ ← invoke sys (record zero_message { desc = call Sel.poke k; d0 = offset; d1 = word }) 0 0
    pure tt

  unfoldable pub make_child : ℕ → ℕ → ℕ → ℕ → User W (Unit {0})
  unfolding invoke keymap call
  make_child k base size slot_key = do
    _ ←
        invoke sys (record zero_message { desc = call Sel.make_child k; d0 = base; d1 = size })
          (keymap 0 slot_key 0 0) (keymap 0 slot_key 0 0)
    pure tt
