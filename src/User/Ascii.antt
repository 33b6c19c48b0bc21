-- ===== src/User/Ascii.antt =====
-- a/srv/ascii/main.cc: a client that sends the printable characters, one after another, for ever.
use brittle_kernel.Prelude.{ℕ, zero, suc, ◌+◌, ◌-◌, ◌^◌}
use brittle_kernel.Run.{pure, ◌>>=◌, ◌>>◌}
use brittle_kernel.Abi.Descriptor.{call}
use brittle_kernel.Abi.Message.{zero_message}
use brittle_kernel.User.{System, User}
use brittle_kernel.User.Driver.{k_gate, k_sys}
use brittle_kernel.User.Ipc.{invoke}
use brittle_kernel.User.Keys.{reserve_keys}

module _ {W : Type 0} (sys : System W) where
  -- The inner loop, from the character `c` for the rounds left.
  unfoldable pub send_characters : ℕ → ℕ → User W (Unit {0})
  unfolding invoke call
  send_characters zero c = pure tt
  send_characters (suc n) c = do
    _ ← invoke sys (record zero_message { desc = call 1 k_gate; d0 = c }) 0 0
    send_characters n (c + 1)

  -- The outer loop, for the rounds given: each sends the characters from 32 to 126.
  unfoldable pub ascii_rounds : ℕ → User W (Unit {0})
  unfolding send_characters
  ascii_rounds zero = pure tt
  ascii_rounds (suc n) = do send_characters (127 - 32) 32; ascii_rounds n

  unfoldable pub ascii_main : ℕ → User W (Unit {0})
  unfolding reserve_keys ascii_rounds
  ascii_main n = do reserve_keys (2 ^ k_gate + 2 ^ k_sys); ascii_rounds n
