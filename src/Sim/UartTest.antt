-- ===== src/Sim/UartTest.antt =====
-- sim/uart_test.cc: the tests of the UART server, as what each expects.
use brittle_kernel.Prelude.{ℕ, ◌+◌, ◌^◌, true, false, List, [], ◌∷◌, ◌==◌, if◌then◌else◌}
use brittle_kernel.Sim.{Message, Simulation, success}
use brittle_kernel.Sim.Keys.{KeyName, Clist, MessageKeyNames, no_names, set_key}
use brittle_kernel.Sim.Mock.{Expectation, expect_send, expect_call, expect_open_receive}
use brittle_kernel.Sim.Uart.{message, p_mon, p_tx, p_irq, p_rx}

-- "reply@" before the characters given, "hw" and "<SYS>".
abbrev pub reply_key : List ℕ → KeyName
reply_key s = 114 ∷ 101 ∷ 112 ∷ 108 ∷ 121 ∷ 64 ∷ s

abbrev hw : KeyName
hw = 104 ∷ 119 ∷ []

abbrev sys : KeyName
sys = 60 ∷ 83 ∷ 89 ∷ 83 ∷ 62 ∷ []

-- "reply@hb", "reply@send", "reply@irq", "reply@rx" and "reply@tx".
abbrev hb : KeyName
hb = reply_key (104 ∷ 98 ∷ [])

abbrev sent : KeyName
sent = reply_key (115 ∷ 101 ∷ 110 ∷ 100 ∷ [])

abbrev irq : KeyName
irq = reply_key (105 ∷ 114 ∷ 113 ∷ [])

abbrev rx : KeyName
rx = reply_key (114 ∷ 120 ∷ [])

abbrev tx : KeyName
tx = reply_key (116 ∷ 120 ∷ [])

-- One name, in register 0.
unfoldable pub only_name : KeyName → MessageKeyNames
only_name k = record { name = λ i. if i == 0 then k else [] }

-- The keys that `SetUp` gives to the task.
unfoldable pub set_up : Clist
unfolding set_key
set_up = set_key 15 sys (set_key 14 hw (λ i. []))

-- A message on `port` with a reply key.
unfoldable pub received_on : ℕ → Message → KeyName → Expectation
unfolding only_name
received_on port m k =
    expect_open_receive true (record { port = port; m_in = m; k_in = only_name k })

unfoldable pub expect_reply_to : KeyName → Message → Expectation
unfolding no_names
expect_reply_to k m =
    expect_send (record { blocking = false; target = k; m_out = m; k_out = no_names }) success

unfoldable pub expect_write32 : ℕ → ℕ → Expectation
unfolding no_names
expect_write32 offset value =
    expect_send
      (record { blocking = true; target = hw; m_out = message 0 offset value 0; k_out = no_names })
      success

unfoldable pub expect_read32 : ℕ → ℕ → Expectation
unfolding no_names
expect_read32 offset value =
    expect_call
      (record { blocking = true; target = hw; m_out = message 1 offset 0 0; k_out = no_names })
      (record { port = 0; m_in = message value 0 0 0; k_in = no_names })

unfoldable pub heartbeat : List Expectation
unfolding received_on expect_reply_to
heartbeat = received_on p_mon (message 0 1 2 3) hb ∷ expect_reply_to hb (message 1 2 3 0) ∷ []

unfoldable pub send_byte : List Expectation
unfolding received_on expect_reply_to expect_write32 expect_read32
send_byte =
    received_on p_tx (message 0 0x42 0 0) sent
    ∷ expect_write32 4 0x42
    ∷ expect_read32 12 0xdead0000
    ∷ expect_write32 12 (0xdead0000 + 2 ^ 7)
    ∷ expect_reply_to sent (message 0 0 0 0)
    ∷ received_on p_irq (message 0 0 0 0) irq
    ∷ expect_read32 0 (0xbeef0000 + 2 ^ 7)
    ∷ expect_read32 12 (0xf00d0000 + 2 ^ 7)
    ∷ expect_write32 12 0xf00d0000
    ∷ expect_reply_to irq (message 1 0 0 0)
    ∷ []

unfoldable pub receive_byte : List Expectation
unfolding received_on expect_reply_to expect_write32 expect_read32
receive_byte =
    received_on p_irq (message 0 0 0 0) irq
    ∷ expect_read32 0 (0xbeef0000 + 2 ^ 5)
    ∷ expect_read32 12 (0xf00d0000 + 2 ^ 5)
    ∷ expect_write32 12 0xf00d0000
    ∷ expect_reply_to irq (message 1 0 0 0)
    ∷ received_on p_rx (message 0 0 0 0) rx
    ∷ expect_read32 4 0x69
    ∷ expect_read32 12 0xdead0000
    ∷ expect_write32 12 (0xdead0000 + 2 ^ 5)
    ∷ expect_reply_to rx (message 0x69 0 0 0)
    ∷ []

unfoldable pub flush_while_idle : List Expectation
unfolding received_on expect_reply_to expect_write32 expect_read32
flush_while_idle =
    received_on p_tx (message 1 0 0 0) tx
    ∷ expect_read32 12 0xdead0000
    ∷ expect_write32 12 (0xdead0000 + 2 ^ 6)
    ∷ received_on p_irq (message 0 0 0 0) irq
    ∷ expect_read32 0 (0xbeef0000 + 2 ^ 6)
    ∷ expect_read32 12 (0xf00d0000 + 2 ^ 6)
    ∷ expect_write32 12 0xf00d0000
    ∷ expect_reply_to tx (message 0 0 0 0)
    ∷ expect_reply_to irq (message 1 0 0 0)
    ∷ []

-- The task at the start of a test.
unfoldable pub started : List Expectation → Simulation (List Expectation)
unfolding set_up
started test = record { clist = set_up; masked_ports = λ p. false; flushing = false; world = test }
