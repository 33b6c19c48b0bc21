-- ===== src/Kernel/Events.antt =====
-- What enters the kernel: k/entry.S, which calls do_ipc, do_key_op, switch_after_interrupt and
-- irq_redirector. Between two entries unprivileged code writes its registers and memory.
use brittle_kernel.Prelude.{ℕ, ◌/◌, ◌^◌, ◌≡◌, ◌==◌, ltb, if◌then◌else◌}
use brittle_kernel.Run.{ok, pure, ◌>>=◌, ◌>>◌}
use brittle_kernel.Kernel.{Kernel, Do, gets, modify, put_body}
use brittle_kernel.Kernel.Dispatch.{do_ipc, do_key_op, irq_redirector}
use brittle_kernel.Kernel.Memory.{unshared, put_word}
use brittle_kernel.Kernel.Scheduler.{switch_after_interrupt}

-- `unprivileged` is a store of a word by code of the current context, at an address; the
-- registers r4 to r11 and the stack pointer come with the entries that save them.
pub data Event : Type 0 where
  unprivileged : ℕ → ℕ → Event
  sv_call : (ℕ → ℕ) → ℕ → Event
  interrupt_entry : ℕ → Event
  pend_sv : (ℕ → ℕ) → ℕ → Event

-- `stm r2, {r4-r11}`.
unfoldable pub save_registers : (ℕ → ℕ) → ℕ → Do (Unit {0})
save_registers registers c =
    modify (put_body c (λ b. record b { save = λ i. if ltb i 8 then registers i else b.save i }))

-- etl_armv7m_sv_call_handler, for a call from unprivileged code. The descriptor is in r4.
unfoldable pub sv_call_handler : ℕ → (ℕ → ℕ) → ℕ → Do (Unit {0})
unfolding save_registers do_ipc do_key_op
sv_call_handler fuel registers sp = do
  c ← gets (λ k. k.current)
  if registers 0 / 2 ^ 28 == 0
      then (do save_registers registers c; _ ← do_ipc fuel c sp (registers 0); pure tt)
      else do_key_op c (registers 0 / 2 ^ 28) (registers 0)

-- etl_armv7m_pend_sv_handler.
unfoldable pub pend_sv_handler : (ℕ → ℕ) → ℕ → Do (Unit {0})
unfolding save_registers switch_after_interrupt
pend_sv_handler registers sp = do
  c ← gets (λ k. k.current)
  save_registers registers c
  _ ← switch_after_interrupt sp
  pure tt

unfoldable pub perform : ℕ → Event → Do (Unit {0})
unfolding unshared put_word sv_call_handler irq_redirector pend_sv_handler
perform fuel (unprivileged address word) = unshared address 4 >> put_word address word
perform fuel (sv_call registers sp) = sv_call_handler fuel registers sp
perform fuel (interrupt_entry ipsr) = irq_redirector fuel ipsr
perform fuel (pend_sv registers sp) = pend_sv_handler registers sp

-- What a sequence of events that the kernel returns from leads to.
pub data Reaches (fuel : ℕ) : Kernel → Kernel → Type 0 where
  here : {k : Kernel} → Reaches fuel k k
  step :
      {j k l : Kernel} (e : Event)
      → Reaches fuel j k
      → perform fuel e k ≡ ok tt l
      → Reaches fuel j l
