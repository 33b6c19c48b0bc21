-- ===== src/User/Server.antt =====
-- a/sys/main.cc and a/sys/api.cc: the server of system calls, and its clients' calls.
pub mod Replies
use brittle_kernel.Prelude.{
  ℕ, zero, suc, ◌+◌, ◌/◌, ◌%◌, ◌^◌, Bool, true, false, not, Option, none, some, ◌==◌, if◌then◌else◌,
}
use brittle_kernel.Run.{pure, maybe, ◌>>=◌, ◌>>◌}
use brittle_kernel.Abi.Descriptor.{
  Descriptor, zero_descriptor, call, get_error, get_selector, with_receive_enabled, with_source,
  with_send_enabled, with_target, with_error,
}
use brittle_kernel.Abi.Exceptions.{Exception, bad_operation, identifier}
use brittle_kernel.Abi.Message.{Message, zero_message, ReceivedMessage}
use brittle_kernel.User.{System, User}
use brittle_kernel.User.Alloc.{ki_ot, ki_syscall_gate}
use brittle_kernel.User.Ipc.{keymap, ipc2_with_brand, invoke}
use brittle_kernel.User.Keys.{auto_key, drop_key}
use brittle_kernel.User.Stubs.Context.{set_region}
use brittle_kernel.User.Stubs.ObjectTable.{mint_key}

-- a/sys/selectors.h.
abbrev pub map_memory_selector : ℕ
map_memory_selector = 1

abbrev pub exit_selector : ℕ
exit_selector = 2

unfoldable pub base_receive_descriptor : Descriptor
unfolding with_receive_enabled with_source
base_receive_descriptor = with_source ki_syscall_gate (with_receive_enabled true zero_descriptor)

unfoldable pub make_zero_reply : ℕ → Message
unfolding base_receive_descriptor with_send_enabled with_target
make_zero_reply k = record zero_message {
  desc = with_target k (with_send_enabled true base_receive_descriptor);
}

unfoldable pub make_error_reply : ℕ → Exception → Message
unfolding base_receive_descriptor with_send_enabled with_target with_error
make_error_reply k e = record zero_message {
  desc = with_error true (with_target k (with_send_enabled true base_receive_descriptor));
  d0 = identifier e % 2 ^ 32;
  d1 = identifier e / 2 ^ 32 % 2 ^ 32;
}

module _ {W : Type 0} (sys : System W) where
  -- The case `map_memory`.
  unfoldable pub serve_map_memory : ℕ → ℕ → ℕ → ℕ → User W Message
  unfolding mint_key set_region make_zero_reply drop_key
  serve_map_memory k_client_reply k_tmp1 caller_oti region_index = do
    k_ctx ← mint_key sys ki_ot caller_oti 0
    set_region sys k_ctx region_index k_tmp1
    drop_key k_ctx
    pure (make_zero_reply k_client_reply)

  -- The switch, on a request that is no error: the reply, or `none` where the case `exit` loops.
  unfoldable pub serve_request : ℕ → ℕ → ReceivedMessage → User W (Option Message)
  unfolding serve_map_memory mint_key make_error_reply get_selector
  serve_request k_client_reply k_tmp1 r =
      let caller_oti = r.brand % 2 ^ 32 % 2 ^ 16 in
      let s = get_selector r.m.desc in
      if s == map_memory_selector
      then (do m ← serve_map_memory k_client_reply k_tmp1 caller_oti r.m.d0; pure (some m))
      else if s == exit_selector
      then (do _ ← mint_key sys ki_ot caller_oti 0; pure none)
      else pure (some (make_error_reply k_client_reply bad_operation))

  -- One round of the loop, from the message to be sent to the next one. The reply map is empty in
  -- every round.
  unfoldable pub serve_round : ℕ → ℕ → Message → User W (Option Message)
  unfolding ipc2_with_brand keymap get_error serve_request base_receive_descriptor
  serve_round k_client_reply k_tmp1 m = do
    r ← ipc2_with_brand sys m (keymap 0 0 0 0) (keymap k_client_reply k_tmp1 0 0)
    if get_error r.m.desc
        then pure (some (record r.m { desc = base_receive_descriptor }))
        else serve_request k_client_reply k_tmp1 r

  -- The loop, for the rounds given.
  unfoldable pub serve_rounds : ℕ → ℕ → ℕ → Message → User W (Option Message)
  unfolding serve_round
  serve_rounds zero k_client_reply k_tmp1 m = pure (some m)
  serve_rounds (suc n) k_client_reply k_tmp1 m = do
    next ← serve_round k_client_reply k_tmp1 m
    maybe next (pure none) (λ m'. serve_rounds n k_client_reply k_tmp1 m')

  unfoldable pub serve_syscalls : ℕ → User W (Option Message)
  unfolding auto_key serve_rounds base_receive_descriptor
  serve_syscalls n = do
    k_client_reply ← auto_key
    k_tmp1 ← auto_key
    serve_rounds n k_client_reply k_tmp1 (record zero_message { desc = base_receive_descriptor })

  -- `sys::map_memory` of a/sys/api.cc.
  unfoldable pub map_memory : ℕ → ℕ → ℕ → User W (Unit {0})
  unfolding invoke keymap call
  map_memory sys_key mem_key index = do
    _ ←
        invoke sys (record zero_message { desc = call map_memory_selector sys_key; d0 = index })
          (keymap 0 mem_key 0 0) 0
    pure tt

  -- `sys::exit` repeats its call for ever: one round of it.
  unfoldable pub exit_round : ℕ → ℕ → ℕ → ℕ → ℕ → ℕ → User W (Unit {0})
  unfolding ipc2_with_brand call
  exit_round sys_key reason d1 d2 d3 d4 = do
    _ ←
        ipc2_with_brand sys
          (record {
            desc = call exit_selector sys_key;
            d0 = reason;
            d1 = d1;
            d2 = d2;
            d3 = d3;
            d4 = d4;
          })
          0 0
    pure tt
