-- ===== src/User/Ipc.antt =====
-- a/rt/ipc.h, a/rt/ipc.cc and the calls of a/rt/ipc.S.
use brittle_kernel.Prelude.{ℕ, ◌+◌, ◌*◌, ◌%◌, ◌^◌, true, not, ◌==◌, if◌then◌else◌}
use brittle_kernel.Run.{ok, pure, ◌>>=◌, ◌>>◌}
use brittle_kernel.Abi.Descriptor.{
  zero_descriptor, get_error, with_receive_enabled, with_source, with_block, with_sysnum,
  with_target,
}
use brittle_kernel.Abi.Message.{Message, zero_message, ReceivedMessage}
use brittle_kernel.Abi.Selectors.{sysnum_copy_key}
use brittle_kernel.User.{System, User, writes, assert}

-- `keymap`: the four fields are disjoint.
unfoldable pub keymap : ℕ → ℕ → ℕ → ℕ → ℕ
keymap k0 k1 k2 k3 = k0 % 16 + k1 % 16 * 2 ^ 4 + k2 % 16 * 2 ^ 8 + k3 % 16 * 2 ^ 12

module _ {W : Type 0} (sys : System W) where
  -- `ipc2` with a place for the brand.
  unfoldable pub ipc2_with_brand : Message → ℕ → ℕ → User W ReceivedMessage
  ipc2_with_brand m send_map receive_map p =
      let r = sys.svc m send_map receive_map p.world in
      ok (record { m = r.message; brand = r.brand }) (record p { world = r.world })

  -- `ipc` stores the lower half of the brand only; the upper half is the word that is in its place.
  unfoldable pub ipc : ℕ → Message → ℕ → ℕ → User W ReceivedMessage
  unfolding ipc2_with_brand
  ipc stale m send_map receive_map = do
    r ← ipc2_with_brand m send_map receive_map
    pure (record r { brand = r.brand % 2 ^ 32 + stale * 2 ^ 32 })

  -- `ipc2` without one.
  unfoldable pub ipc2 : Message → ℕ → ℕ → User W Message
  unfolding ipc2_with_brand
  ipc2 m send_map receive_map = do r ← ipc2_with_brand m send_map receive_map; pure r.m

  -- `rt::ipc2(msg, ...); ETL_ASSERT(!msg.desc.get_error())`.
  unfoldable pub invoke : Message → ℕ → ℕ → User W Message
  unfolding ipc2 assert get_error
  invoke m send_map receive_map = do
    r ← ipc2 m send_map receive_map
    assert (not (get_error r.desc))
    pure r

  unfoldable pub copy_key : ℕ → ℕ → User W (Unit {0})
  unfolding with_sysnum with_source with_target
  copy_key to from =
      if to == from
      then pure tt
      else let d =
          with_target to (with_source from (with_sysnum sysnum_copy_key zero_descriptor)) in
        writes (λ p. record p { world = sys.svc_copy_key d p.world })

  unfoldable pub blocking_receive : ℕ → ℕ → ℕ → User W ReceivedMessage
  unfolding ipc with_receive_enabled with_source with_block
  blocking_receive stale k recv_map =
      ipc stale
        (record zero_message {
          desc = with_block true (with_source k (with_receive_enabled true zero_descriptor));
        })
        0 recv_map
