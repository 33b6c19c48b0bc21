-- ===== src/User/Stubs/ObjectTable.antt =====
-- a/k/object_table.cc: the ObjectTable protocol.
use brittle_kernel.Prelude.{ℕ, ◌+◌, ◌*◌, ◌/◌, ◌%◌, ◌^◌, Bool, not}
use brittle_kernel.Run.{pure, ◌>>=◌}
use brittle_kernel.Abi.Descriptor.{call, get_error}
use brittle_kernel.Abi.Message.{zero_message}
use brittle_kernel.Abi.Selectors.ObjectTable as Sel
use brittle_kernel.User.{System, User}
use brittle_kernel.User.Ipc.{keymap, ipc2, invoke}
use brittle_kernel.User.Keys.{auto_key}

pub record KeyInfo : Type 0 where
  pub index : ℕ
  pub brand : ℕ

-- Kind::memory.
abbrev pub kind_memory : ℕ
kind_memory = 3

module _ {W : Type 0} (sys : System W) where
  unfoldable pub mint_key : ℕ → ℕ → ℕ → User W ℕ
  unfolding invoke keymap call auto_key
  mint_key k index brand = do
    k_out ← auto_key
    _ ←
        invoke sys
          (record zero_message {
            desc = call Sel.mint_key k;
            d0 = index;
            d1 = brand % 2 ^ 32;
            d2 = brand / 2 ^ 32 % 2 ^ 32;
          })
          0 (keymap 0 k_out 0 0)
    pure k_out

  unfoldable pub read_key : ℕ → ℕ → User W KeyInfo
  unfolding invoke keymap call
  read_key k key = do
    m ← invoke sys (record zero_message { desc = call Sel.read_key k }) (keymap 0 key 0 0) 0
    pure (record { index = m.d0; brand = m.d1 + m.d2 * 2 ^ 32 })

  unfoldable pub get_kind : ℕ → ℕ → User W ℕ
  unfolding invoke call
  get_kind k index = do
    m ← invoke sys (record zero_message { desc = call Sel.get_kind k; d0 = index }) 0 0
    pure m.d0

  -- The callers leave `rollover_ok` at its default, false. An error is the result.
  unfoldable pub invalidate : ℕ → ℕ → User W Bool
  unfolding ipc2 call get_error
  invalidate k index = do
    m ← ipc2 sys (record zero_message { desc = call Sel.invalidate k; d0 = index }) 0 0
    pure (not (get_error m.desc))
