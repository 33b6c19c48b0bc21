-- ===== src/User/Stubs/Gate.antt =====
-- a/k/gate.cc: the Gate protocol.
use brittle_kernel.Prelude.{ℕ, ◌/◌, ◌%◌, ◌^◌}
use brittle_kernel.Run.{pure, ◌>>=◌}
use brittle_kernel.Abi.Descriptor.{call}
use brittle_kernel.Abi.Message.{zero_message}
use brittle_kernel.Abi.Selectors.Gate as Sel
use brittle_kernel.User.{System, User}
use brittle_kernel.User.Ipc.{keymap, invoke}
use brittle_kernel.User.Keys.{auto_key}

-- `make_client_key`: the key register that holds the new key.
unfoldable pub make_client_key : {W : Type 0} → System W → ℕ → ℕ → User W ℕ
unfolding invoke keymap call auto_key
make_client_key sys k brand = do
  k_out ← auto_key
  _ ←
      invoke sys
        (record zero_message {
          desc = call Sel.make_client_key k;
          d0 = brand % 2 ^ 32;
          d1 = brand / 2 ^ 32 % 2 ^ 32;
        })
        0 (keymap 0 k_out 0 0)
  pure k_out
