-- ===== src/User/Stubs/Interrupt.antt =====
-- a/k/interrupt.cc: the Interrupt protocol.
use brittle_kernel.Prelude.{ℕ, Bool, if◌then◌else◌}
use brittle_kernel.Run.{pure, ◌>>=◌}
use brittle_kernel.Abi.Descriptor.{call}
use brittle_kernel.Abi.Message.{zero_message}
use brittle_kernel.Abi.Selectors.Interrupt as Sel
use brittle_kernel.User.{System, User}
use brittle_kernel.User.Ipc.{keymap, invoke}

module _ {W : Type 0} (sys : System W) where
  unfoldable pub set_target : ℕ → ℕ → User W (Unit {0})
  unfolding invoke keymap call
  set_target k target_key = do
    _ ←
        invoke sys (record zero_message { desc = call Sel.set_target k }) (keymap 0 target_key 0 0)
          0
    pure tt

  unfoldable pub enable : ℕ → Bool → User W (Unit {0})
  unfolding invoke call
  enable k clear_pending = do
    _ ←
        invoke sys
          (record zero_message { desc = call Sel.enable k; d0 = if clear_pending then 1 else 0 }) 0
          0
    pure tt
