-- ===== src/Sim/Mock.antt =====
-- sim/mock.cc: a test as a list of what it expects and how it answers.
use brittle_kernel.Prelude.{
  ℕ, Bool, true, false, not, ◌&&◌, Option, none, some, List, [], ◌∷◌, ◌==◌, if◌then◌else◌,
}
use brittle_kernel.Sim.{
  Message, Request, Response, SysResult, send_request, call_request, open_receive_request,
  complete_response, message_response, success, Answer, Peer,
}
use brittle_kernel.Sim.Keys.{
  KeyName, Clist, MessageKeyNames, same_name, same_names, get_key, get_pass_keys, set_pass_keys,
  revoke_key,
}

-- The fields of SendBuilder and CallBuilder.
pub record Call : Type 0 where
  pub blocking : Bool
  pub target : KeyName
  pub m_out : Message
  pub k_out : MessageKeyNames

-- The message that and_provide answers with.
pub record Provided : Type 0 where
  pub port : ℕ
  pub m_in : Message
  pub k_in : MessageKeyNames

pub data Expectation : Type 0 where
  expect_send : Call → SysResult → Expectation
  expect_call : Call → Provided → Expectation
  expect_open_receive : Bool → Provided → Expectation

unfoldable pub same_message : Message → Message → Bool
same_message a b =
    (a.data0 == b.data0) && (a.data1 == b.data1) && (a.data2 == b.data2) && (a.data3 == b.data3)

unfoldable pub same_flag : Bool → Bool → Bool
same_flag true b = b
same_flag false b = not b

unfoldable pub starts_with : KeyName → KeyName → Bool
starts_with [] s = true
starts_with (c ∷ cs) [] = false
starts_with (c ∷ cs) (d ∷ ds) = (c == d) && starts_with cs ds

-- "reply@".
abbrev pub reply_prefix : KeyName
reply_prefix = 114 ∷ 101 ∷ 112 ∷ 108 ∷ 121 ∷ 64 ∷ []

-- A reply key can be used once.
unfoldable pub after_use : KeyName → Clist → Clist
unfolding starts_with revoke_key
after_use target clist = if starts_with reply_prefix target then revoke_key target clist else clist

-- The comparison of a request with what is expected.
unfoldable pub matches : Call → Bool → ℕ → Message → Clist → Bool
unfolding same_flag same_name same_message same_names get_key get_pass_keys
matches e blocking target m clist =
    same_flag e.blocking blocking
    && same_name e.target (get_key target clist)
    && same_message e.m_out m
    && same_names e.k_out (get_pass_keys clist)

abbrev pub message_of : Provided → Response
message_of p = message_response (record { port = p.port; m = p.m_in })

-- The response to a request and the keys after it, if the request is the one expected. The send
-- succeeds whatever the result asked for.
unfoldable pub and_return : Call → SysResult → Request → Clist → Option (Response × Clist)
unfolding matches after_use
and_return e result (send_request b t m) clist =
    if matches e b t m clist
    then some (complete_response success, after_use e.target clist)
    else none
and_return e result _ clist = none

unfoldable pub call_and_provide : Call → Provided → Request → Clist → Option (Response × Clist)
unfolding matches after_use set_pass_keys
call_and_provide e p (call_request b t m) clist =
    if matches e b t m clist
    then some (message_of p, after_use e.target (set_pass_keys p.k_in clist))
    else none
call_and_provide e p _ clist = none

-- A masked port gets no message.
unfoldable pub receive_and_provide :
    Bool → Provided → Request → Clist → (ℕ → Bool) → Option (Response × Clist)
unfolding set_pass_keys same_flag
receive_and_provide blocking p (open_receive_request b) clist masked =
    if masked p.port
    then none
    else if same_flag blocking b
    then some (message_of p, set_pass_keys p.k_in clist)
    else none
receive_and_provide blocking p _ clist masked = none

unfoldable pub meet : Expectation → Request → Clist → (ℕ → Bool) → Option (Response × Clist)
unfolding and_return call_and_provide receive_and_provide
meet (expect_send e result) r clist masked = and_return e result r clist
meet (expect_call e p) r clist masked = call_and_provide e p r clist
meet (expect_open_receive blocking p) r clist masked = receive_and_provide blocking p r clist masked

unfoldable pub answer :
    List Expectation → Option (Response × Clist) → Option (Answer (List Expectation))
answer rest none = none
answer rest (some (r, clist)) = some (record { response = r; clist = clist; world = rest })

-- The test meets its expectations in their order.
unfoldable pub mock : Peer (List Expectation)
unfolding meet answer
mock request clist masked [] = none
mock request clist masked (e ∷ rest) = answer rest (meet e request clist masked)
