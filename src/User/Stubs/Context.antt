-- ===== src/User/Stubs/Context.antt =====
-- a/k/context.cc: the Context protocol.
use brittle_kernel.Prelude.{ℕ}
use brittle_kernel.Run.{pure, ◌>>=◌}
use brittle_kernel.Abi.Descriptor.{call}
use brittle_kernel.Abi.Message.{zero_message}
use brittle_kernel.Abi.Selectors.Context as Sel
use brittle_kernel.User.{System, User}
use brittle_kernel.User.Ipc.{keymap, invoke}
use brittle_kernel.User.Keys.{auto_key}

-- Register::r9 and Register::sp.
abbrev pub register_r9 : ℕ
register_r9 = 5

abbrev pub register_sp : ℕ
register_sp = 9

module _ {W : Type 0} (sys : System W) where
  unfoldable pub set_region : ℕ → ℕ → ℕ → User W (Unit {0})
  unfolding invoke keymap call
  set_region k region_index region_key = do
    _ ←
        invoke sys
          (record zero_message { desc = call Sel.write_region_register k; d0 = region_index })
          (keymap 0 region_key 0 0) 0
    pure tt

  unfoldable pub get_region : ℕ → ℕ → User W ℕ
  unfolding invoke keymap call auto_key
  get_region k region_index = do
    k_out ← auto_key
    _ ←
        invoke sys
          (record zero_message { desc = call Sel.read_region_register k; d0 = region_index }) 0
          (keymap 0 k_out 0 0)
    pure k_out

  unfoldable pub set_register : ℕ → ℕ → ℕ → User W (Unit {0})
  unfolding invoke call
  set_register k r value = do
    _ ←
        invoke sys (record zero_message { desc = call Sel.write_register k; d0 = r; d1 = value }) 0
          0
    pure tt

  unfoldable pub set_key : ℕ → ℕ → ℕ → User W (Unit {0})
  unfolding invoke keymap call
  set_key k index source_index = do
    _ ←
        invoke sys (record zero_message { desc = call Sel.write_key_register k; d0 = index })
          (keymap 0 source_index 0 0) 0
    pure tt

  unfoldable pub make_runnable : ℕ → User W (Unit {0})
  unfolding invoke call
  make_runnable k = do
    _ ← invoke sys (record zero_message { desc = call Sel.make_runnable k }) 0 0
    pure tt

  unfoldable pub set_priority : ℕ → ℕ → User W (Unit {0})
  unfolding invoke call
  set_priority k priority = do
    _ ← invoke sys (record zero_message { desc = call Sel.set_priority k; d0 = priority }) 0 0
    pure tt
