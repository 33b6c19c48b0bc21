-- ===== src/Sim.antt =====
-- sim/: a program that runs as a child process and makes its system calls over pipes (sim/stubs.cc), the
-- model of the task behind them (sim/task.cc), and their requests and responses (sim/protocol.h).
pub mod Keys
pub mod Mock
pub mod Uart
pub mod UartTest
use brittle_kernel.Prelude.{ℕ, Bool, true, false, not, Option, none, some, List, [], update}
use brittle_kernel.Run.{
  Cmd, ok, panic, test_failed, pure, fail, ◌>>=◌, ◌>>◌, panic_unless, assertion_failed,
}
use brittle_kernel.Sim.Keys.{Clist, move_key, set_key}

pub record Message : Type 0 where
  pub data0 : ℕ
  pub data1 : ℕ
  pub data2 : ℕ
  pub data3 : ℕ

pub record ReceivedMessage : Type 0 where
  pub port : ℕ
  pub m : Message

pub data SysResult : Type 0 where
  success refused would_block : SysResult

-- A request with its arguments, which follow its type on the pipe.
pub data Request : Type 0 where
  send_request call_request : Bool → ℕ → Message → Request
  open_receive_request : Bool → Request
  copy_cap_request : ℕ → ℕ → Request
  null_cap_request mask_port_request unmask_port_request : ℕ → Request

pub data Response : Type 0 where
  complete_response : SysResult → Response
  message_response : ReceivedMessage → Response

-- What the test that plays the other side of a message leaves: its response, the keys of the task and
-- its own state.
pub record Answer (W : Type 0) : Type 0 where
  pub response : Response
  pub clist : Clist
  pub world : W

-- The test, which is asked with the keys and the masked ports of the task. It has no answer where it
-- fails or is at its end.
abbrev pub Peer : Type 0 → Type 0
Peer W = Request → Clist → (ℕ → Bool) → W → Option (Answer W)

-- The task's keys, where a missing one is the empty string, and its masked ports; the static variable
-- `flushing` of sim/uart.cc; and the test's state.
pub record Simulation (W : Type 0) : Type 0 where
  pub clist : Clist
  pub masked_ports : ℕ → Bool
  pub flushing : Bool
  pub world : W

abbrev pub Child : Type 0 → Type 0 → Type 0
Child W A = Cmd (Simulation W) A

unfoldable pub is_success : SysResult → Bool
is_success success = true
is_success refused = false
is_success would_block = false

module _ {W : Type 0} where
  unfoldable pub reads : {A : Type 0} → (Simulation W → A) → Child W A
  reads f s = ok (f s) s

  unfoldable pub writes : (Simulation W → Simulation W) → Child W (Unit {0})
  writes f s = ok tt (f s)

  unfoldable pub assert : Bool → Child W (Unit {0})
  assert b = panic_unless b assertion_failed

  module _ (peer : Peer W) where
    -- A request that is left to the test.
    unfoldable pub answered : Option (Answer W) → Child W Response
    answered none s = panic test_failed
    answered (some a) s = ok a.response (record s { clist = a.clist; world = a.world })

    unfoldable pub ask : Request → Child W Response
    unfolding answered
    ask request s = answered (peer request s.clist s.masked_ports s.world) s

    -- A request and its response: the task answers the trivial ones.
    unfoldable pub system_call : Request → Child W Response
    unfolding ask writes pure ◌>>◌ move_key set_key
    system_call (send_request b t m) = ask (send_request b t m)
    system_call (call_request b t m) = ask (call_request b t m)
    system_call (open_receive_request b) = ask (open_receive_request b)
    system_call (copy_cap_request from to) = do
      writes (λ s. record s { clist = move_key from to s.clist })
      pure (complete_response success)
    system_call (null_cap_request i) = do
      writes (λ s. record s { clist = set_key i [] s.clist })
      pure (complete_response success)
    system_call (mask_port_request i) = do
      writes (λ s. record s { masked_ports = update s.masked_ports i true })
      pure (complete_response success)
    system_call (unmask_port_request i) = do
      writes (λ s. record s { masked_ports = update s.masked_ports i false })
      pure (complete_response success)

    -- The result of a call that gets no message.
    unfoldable pub completed : Response → Child W SysResult
    unfolding pure fail
    completed (complete_response r) = pure r
    completed (message_response rm) = fail assertion_failed

    -- The result of a call that may get a message, and the message if it does.
    unfoldable pub received : Response → Child W (Option ReceivedMessage)
    unfolding pure assert ◌>>◌ is_success
    received (complete_response r) = do assert (not (is_success r)); pure none
    received (message_response rm) = pure (some rm)

    unfoldable pub send : Bool → ℕ → Message → Child W SysResult
    unfolding ◌>>=◌ system_call completed
    send block target m = do r ← system_call (send_request block target m); completed r

    unfoldable pub open_receive : Bool → Child W (Option ReceivedMessage)
    unfolding ◌>>=◌ system_call received
    open_receive block = do r ← system_call (open_receive_request block); received r

    unfoldable pub call : Bool → ℕ → Message → Child W (Option ReceivedMessage)
    unfolding ◌>>=◌ system_call received
    call block target m = do r ← system_call (call_request block target m); received r

    unfoldable pub move_cap : ℕ → ℕ → Child W SysResult
    unfolding ◌>>=◌ system_call completed
    move_cap from to = do r ← system_call (copy_cap_request from to); completed r

    unfoldable pub mask : ℕ → Child W SysResult
    unfolding ◌>>=◌ system_call completed
    mask port = do r ← system_call (mask_port_request port); completed r

    unfoldable pub unmask : ℕ → Child W SysResult
    unfolding ◌>>=◌ system_call completed
    unmask port = do r ← system_call (unmask_port_request port); completed r
