-- ===== src/User/Server/Replies.antt =====
-- What the server of system calls sends in answer to what it receives.
use brittle_kernel.Prelude.{
  ℕ, ◌<◌, ◌≡◌, refl, Bool, true, false, not, Option, none, some, arith, if◌then◌else◌, Bool-cases,
  inl, inr,
}
use brittle_kernel.Run.{ok, pure, ◌>>=◌}
use brittle_kernel.Run.Keeps.{Ensures, Ensures-ok}
use brittle_kernel.Run.Yields.{
  Yields, Yields-bind, Yields-then, Yields-pure, Yields-if, Yields-bind_value,
}
use brittle_kernel.Abi.Descriptor.{
  get_error, get_receive_enabled, get_send_enabled, get_source, get_target,
}
use brittle_kernel.Abi.Exceptions.{Exception}
use brittle_kernel.Abi.Message.{Message, ReceivedMessage}
use brittle_kernel.User.{System, Process}
use brittle_kernel.User.Alloc.{ki_syscall_gate}
use brittle_kernel.User.Ipc.{ipc2_with_brand, keymap}
use brittle_kernel.User.Server.{
  base_receive_descriptor, make_zero_reply, make_error_reply, serve_map_memory, serve_request,
  serve_round,
}

-- The message receives from the gate of system calls; it is sent, to the client's reply key, unless the
-- request was an error.
pub record Answers (k_client_reply : ℕ) (failed : Bool) (m : Message) : Type 0 where
  pub receives : get_receive_enabled m.desc ≡ true
  pub from_gate : get_source m.desc ≡ ki_syscall_gate
  pub replies : get_send_enabled m.desc ≡ not failed
  pub to_client : get_target m.desc ≡ (if failed then 0 else k_client_reply)

-- `none` stands for the endless loop of the case `exit`.
abbrev pub Answered : ℕ → Bool → Option Message → Type 0
Answered k failed none = Unit {0}
Answered k failed (some m) = Answers k failed m

-- What a round of the server receives.
abbrev pub request : {W : Type 0} → System W → ℕ → ℕ → Message → Process W → Message
request sys k_client_reply k_tmp1 m p =
    (sys.svc m (keymap 0 0 0 0) (keymap k_client_reply k_tmp1 0 0) p.world).message

make_zero_reply-Answers : (k : ℕ) → k < 16 → Answers k false (make_zero_reply k)
unfolding make_zero_reply base_receive_descriptor get_receive_enabled get_source get_send_enabled
    get_target
make_zero_reply-Answers k lt = record {
  receives = ground arith;
  from_gate = omega arith;
  replies = ground arith;
  to_client = omega arith;
}

make_error_reply-Answers : (k : ℕ) (e : Exception) → k < 16 → Answers k false (make_error_reply k e)
unfolding make_error_reply base_receive_descriptor get_receive_enabled get_source get_send_enabled
    get_target
make_error_reply-Answers k e lt = record {
  receives = ground arith;
  from_gate = omega arith;
  replies = ground arith;
  to_client = omega arith;
}

receive-Answers :
    (k : ℕ) (m : Message) → Answers k true (record m { desc = base_receive_descriptor })
unfolding base_receive_descriptor get_receive_enabled get_source get_send_enabled get_target
receive-Answers k m = record { receives = refl; from_gate = refl; replies = refl; to_client = refl }

module _ {W : Type 0} (sys : System W) (k_client_reply k_tmp1 : ℕ) (lt : k_client_reply < 16) where
  serve_map_memory-Answers :
      (oti region : ℕ)
      → Yields
          (Answers k_client_reply false)
          (serve_map_memory sys k_client_reply k_tmp1 oti region)
  unfolding serve_map_memory
  serve_map_memory-Answers oti region =
      let zero_reply = make_zero_reply-Answers k_client_reply lt in
      search (Yields-bind, Yields-then, Yields-pure, zero_reply) depth 9

  map_memory-Answered :
      (oti region : ℕ)
      → Yields
          (Answered k_client_reply false)
          (do m ← serve_map_memory sys k_client_reply k_tmp1 oti region; pure (some m))
  map_memory-Answered oti region =
      Yields-bind_value (Answered k_client_reply false) (Answers k_client_reply false) _ _
        (serve_map_memory-Answers oti region) (λ m a. Yields-pure _ (some m) a)

  serve_request-Answered :
      (r : ReceivedMessage)
      → Yields (Answered k_client_reply false) (serve_request sys k_client_reply k_tmp1 r)
  unfolding serve_request
  serve_request-Answered r =
      let error_reply = λ (e : Exception). make_error_reply-Answers k_client_reply e lt in
      search (Yields-bind, Yields-if, Yields-pure, map_memory-Answered, error_reply) depth 9

  serve_round-Answered :
      (m : Message) (p : Process W)
      → Ensures
          (λ o _.
            Answered k_client_reply (get_error (request sys k_client_reply k_tmp1 m p).desc) o)
          (serve_round sys k_client_reply k_tmp1 m p)
  unfolding serve_round ◌>>=◌ ipc2_with_brand
  serve_round-Answered m p =
      let r = sys.svc m (keymap 0 0 0 0) (keymap k_client_reply k_tmp1 0 0) p.world in
      elim (Bool-cases (get_error (request sys k_client_reply k_tmp1 m p).desc)) [
        | inl e ↦ rw e (receive-Answers k_client_reply r.message)
        | inr e ↦ rw e (
            (serve_request-Answered (record { m = r.message; brand = r.brand })).at
              (record p { world = r.world }))
      ]

-- The message that a round of the server leaves for the next one receives from the gate of system
-- calls, and is sent to the client's reply key, a register below 16, unless the request was an error:
-- then it is sent to nobody.
pub serve_round-Answers :
    {W : Type 0} (sys : System W) (k_client_reply k_tmp1 : ℕ) (m next : Message) (p q : Process W)
    → k_client_reply < 16
    → serve_round sys k_client_reply k_tmp1 m p ≡ ok (some next) q
    → Answers k_client_reply (get_error (request sys k_client_reply k_tmp1 m p).desc) next
serve_round-Answers sys k_client_reply k_tmp1 m next p q lt =
    Ensures-ok _ _ (some next) q (serve_round-Answered sys k_client_reply k_tmp1 lt m p)
