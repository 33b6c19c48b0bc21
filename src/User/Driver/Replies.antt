-- ===== src/User/Driver/Replies.antt =====
-- What the UART driver sends in answer to what it receives.
use brittle_kernel.Prelude.{
  ℕ, ◌≡◌, refl, Bool, true, false, not, ◌&&◌, ◌==◌, if◌then◌else◌, Bool-cases, inl, inr, ◌||◌,
}
use brittle_kernel.Run.{ok, pure, ◌>>=◌, ◌>>◌}
use brittle_kernel.Run.Keeps.{Ensures, Ensures-ok}
use brittle_kernel.Run.Yields.{Yields, Yields-then, Yields-pure}
use brittle_kernel.Abi.Descriptor.{
  get_error, get_receive_enabled, get_selector, get_send_enabled, get_source, get_target,
}
use brittle_kernel.Abi.Message.{Message}
use brittle_kernel.User.{System, Process, writes}
use brittle_kernel.User.Driver.{
  Board, k_gate, k_sender_reply, receive_only_descriptor, sent_reply, bogus_reply, send_character,
  driver_round,
}
use brittle_kernel.User.Ipc.{ipc2_with_brand, keymap}

-- The message receives from the clients' gate. It is sent unless the request was an error; a character
-- is acknowledged to its sender, and all else is refused, to key register 0.
pub record Responds (failed known : Bool) (m : Message) : Type 0 where
  pub receives : get_receive_enabled m.desc ≡ true
  pub from_gate : get_source m.desc ≡ k_gate
  pub replies : get_send_enabled m.desc ≡ not failed
  pub target : get_target m.desc ≡ (if not failed && known then k_sender_reply else 0)
  pub refuses : get_error m.desc ≡ (not failed && not known)

receive_only-Responds :
    (known : Bool) (m : Message) → Responds true known (record m { desc = receive_only_descriptor })
unfolding receive_only_descriptor get_receive_enabled get_source get_send_enabled get_target
    get_error
receive_only-Responds known m = record {
  receives = refl;
  from_gate = refl;
  replies = refl;
  target = refl;
  refuses = refl;
}

sent_reply-Responds : Responds false true sent_reply
unfolding sent_reply get_receive_enabled get_source get_send_enabled get_target get_error
sent_reply-Responds = record {
  receives = refl;
  from_gate = refl;
  replies = refl;
  target = refl;
  refuses = refl;
}

bogus_reply-Responds : Responds false false bogus_reply
unfolding bogus_reply get_receive_enabled get_source get_send_enabled get_target get_error
bogus_reply-Responds = record {
  receives = refl;
  from_gate = refl;
  replies = refl;
  target = refl;
  refuses = refl;
}

-- What a round of the driver receives.
abbrev pub arrival : {W : Type 0} → System W → Message → Process W → Message
arrival sys m p = (sys.svc m (keymap 0 0 0 0) (keymap k_sender_reply 0 0 0) p.world).message

module _ {W : Type 0} (sys : System W) (board : Board W) where
  send_character-Responds : (c : ℕ) → Yields (Responds false true) (send_character sys board c)
  unfolding send_character
  send_character-Responds c = search (Yields-then, Yields-pure, sent_reply-Responds) depth 9

  driver_round-Ensures :
      (m : Message) (p : Process W)
      → Ensures
          (λ next _.
            Responds
              (get_error (arrival sys m p).desc)
              (get_selector (arrival sys m p).desc == 1)
              next)
          (driver_round sys board m p)
  unfolding driver_round ◌>>=◌ ◌>>◌ ipc2_with_brand writes pure
  driver_round-Ensures m p =
      let r = sys.svc m (keymap 0 0 0 0) (keymap k_sender_reply 0 0 0) p.world in
      elim (Bool-cases (get_error r.message.desc)) [
        | inl e ↦ rw e (receive_only-Responds _ r.message)
        | inr e ↦ elim (Bool-cases (get_selector r.message.desc == 1)) [
          | inl f ↦ rw (e, f) ((send_character-Responds r.message.d0).at _)
          | inr f ↦ rw (e, f) bogus_reply-Responds
        ]
      ]

-- The message that a round of the driver leaves for the next one receives from the clients' gate. It is
-- not sent if the request was an error; it is sent to the client's reply key, without an error, if the request
-- was to send a character. Requests with an unknown selector are left out.
pub driver_round-Responds :
    {W : Type 0} (sys : System W) (board : Board W) (m next : Message) (p q : Process W)
    → get_error (arrival sys m p).desc || (get_selector (arrival sys m p).desc == 1) ≡ true
    → driver_round sys board m p ≡ ok next q
    → Responds (get_error (arrival sys m p).desc) (get_selector (arrival sys m p).desc == 1) next
driver_round-Responds sys board m next p q known =
    Ensures-ok _ _ next q (driver_round-Ensures sys board m p)
