-- ===== src/Kernel/Settled/Entries.antt =====
-- The invariant of Kernel/Settled through the entries of the kernel.
use brittle_kernel.Kernel.Keys.{put_key}
use brittle_kernel.Prelude.{
  ℕ, ◌/◌, ◌^◌, ◌≡◌, refl, Bool, true, ◌==◌, Option, none, some, not, Bool-cases, inl, inr, ltb,
}
use brittle_kernel.Run.{null_irq_entry, require, ◌>>=◌, ◌>>◌, panic_if, panic_unless}
use brittle_kernel.Run.Keeps.{
  Keeps, Ensures, Leads, Keeps-bind, Keeps-then, Keeps-pure, Keeps-panic_unless, Keeps-panic_if,
  Leads-Keeps, Leads-bind, Leads-from, Leads-then, Leads-if, Leads-bind_value, Keeps-if,
}
use brittle_kernel.Abi.Descriptor.{Descriptor, get_send_enabled, get_receive_enabled}
use brittle_kernel.Kernel.{Kernel, Do, gets, modify, body}
use brittle_kernel.Kernel.Delivery.{task, irq}
use brittle_kernel.Kernel.Dispatch.{
  reply_depth, ipc_phase, do_ipc, do_key_op, trigger, irq_redirector,
}
use brittle_kernel.Kernel.Events.{
  Event, unprivileged, sv_call, interrupt_entry, pend_sv, perform, sv_call_handler, pend_sv_handler,
  save_registers,
}
use brittle_kernel.Kernel.Objects.{get_irq_entry}
use brittle_kernel.Kernel.Scheduler.{
  do_deferred_switch, do_deferred_switch_from_irq, switch_now, switch_after_interrupt,
}
use brittle_kernel.Kernel.Settled.{
  J, Keeps-gets, Keeps-modify, Keeps-put_body, Keeps-put_interrupt, Settled-put_body,
}
use brittle_kernel.Kernel.Settled.Creation.{Sound, Settled-Sound, live_at}
use brittle_kernel.Kernel.Settled.Delivery.{Keeps-deliver_to}
use brittle_kernel.Kernel.Settled.Dispatch.{Delivers-deliver_from}
use brittle_kernel.Kernel.Settled.Objects.{
  Keeps-disable_interrupt, Handling, Keeps-unshared, Keeps-put_word,
}
use brittle_kernel.Kernel.Settled.Scheduler.{
  keeps, Keeps-get_key, Keeps-set_stack, Keeps-do_deferred_switch, Keeps-switch_from_irq,
  Keeps-switch_now,
}

module _ (n : ℕ) where
  -- A command that keeps the invariant whatever is in use.
  Keeps-Sound :
      {A : Type 0} (m : Do A)
      → ((live : ℕ → Bool) → Leads (J live live n) (Sound n) m)
      → Keeps (Sound n) m
  Keeps-Sound m f = record { at = λ k h. (f (live_at k)).at k h }

  Leads-Sound :
      {A : Type 0} (P : Kernel → Type 0) (m : Do A)
      → ((k : Kernel) → P k → Sound n k)
      → ((live : ℕ → Bool) → Keeps (J live live n) m)
      → Leads P (Sound n) m
  Leads-Sound P m to f = record {
    at = λ k h. (Leads-Keeps _ _ m (Settled-Sound (live_at k) n) (f (live_at k))).at k (to k h);
  }

  Leads-deferred :
      {B : Type 0} (f : Kernel → B) → Leads (Sound n) (Sound n) (do do_deferred_switch; gets f)
  Leads-deferred f =
      Leads-Sound _ _ (λ k h. h)
        λ live.
          Keeps-then _ _ _ (Keeps-do_deferred_switch live live n (λ i u. u))
            (Keeps-gets live live n f)

  Leads-from_irq : Leads (Sound n) (Sound n) do_deferred_switch_from_irq
  Leads-from_irq = Leads-Sound _ _ (λ k h. h) (λ live. Keeps-switch_from_irq live live n)

module _ (live : ℕ → Bool) (n fuel : ℕ) where
  kept : {A : Type 0} (m : Do A) → Keeps (J live live n) m → Leads (J live live n) (Sound n) m
  kept m km = Leads-Keeps _ _ m (Settled-Sound live n) km

  -- The current context is in use.
  current-live :
      (k : Kernel)
      → J live live n k
      → Ensures (λ c t. (live c ≡ true) × J live live n t) (gets (λ k. k.current) k)
  unfolding gets
  current-live k h = (h.current, h)

  Leads-ipc_phase :
      (c : ℕ) (d : Descriptor)
      → live c ≡ true
      → Leads (J live live n) (Sound n) (ipc_phase fuel c d)
  unfolding ipc_phase
  Leads-ipc_phase c d u =
      Leads-if _ _ (get_send_enabled d) _ _
        (Leads-bind _ _ _ _ (Keeps-get_key live live n c _)
          λ key. Delivers-deliver_from reply_depth fuel n live _ _ (task c _) u)
        (kept _ (
          Keeps-if _ (get_receive_enabled d) _ _
            (Keeps-bind _ _ _ (Keeps-get_key live live n c _)
              λ key. Keeps-deliver_to live live n fuel _ _ c u)
            (Keeps-pure _ tt)))

  Leads-do_ipc :
      (c sp : ℕ) (d : Descriptor)
      → live c ≡ true
      → Leads (J live live n) (Sound n) (do_ipc fuel c sp d)
  unfolding do_ipc
  Leads-do_ipc c sp d u =
      Leads-then _ _ (J live live n) _ _
        (Leads-Keeps _ _ _ (λ k h. h) (Keeps-set_stack live live n c sp))
        (Leads-bind _ _ _ _ (Keeps-get_key live live n c 0) λ key0.
          Leads-bind _ _ _ _ (Keeps-gets live live n _) λ kind0.
            Leads-then _ _ (J live live n) _ _
              (Leads-Keeps _ _ _ (λ k h. h) (Keeps-panic_if _ (not (kind0 == 0)) _))
              (Leads-then _ _ (Sound n) _ _ (Leads-ipc_phase c d u) (Leads-deferred n _)))

  Keeps-copied :
      (c i j : ℕ) → Keeps (J live live n) (modify (λ k. put_key c i ((body k c).keys j) k))
  Keeps-copied c i j = Keeps-modify live live n _ (λ k h. Settled-put_body live live n k c _ h)

  Keeps-do_key_op : (c sysnum : ℕ) (d : Descriptor) → Keeps (J live live n) (do_key_op c sysnum d)
  unfolding do_key_op
  Keeps-do_key_op c sysnum d = search (keeps, Keeps-copied) depth 9

  Leads-sv_call_handler :
      (registers : ℕ → ℕ) (sp : ℕ)
      → Leads (J live live n) (Sound n) (sv_call_handler fuel registers sp)
  unfolding sv_call_handler save_registers
  Leads-sv_call_handler registers sp =
      Leads-bind_value _ _ (λ c. live c ≡ true) _ _ current-live
        λ c u.
          Leads-if _ _ (registers 0 / 2 ^ 28 == 0) _ _
            (Leads-then _ _ (J live live n) _ _
              (Leads-Keeps _ _ _ (λ k h. h) (Keeps-put_body live live n c _))
              (Leads-from _ _ (Sound n) _ _ (Leads-do_ipc c sp (registers 0) u)
                λ _. Leads-Keeps _ _ _ (λ k h. h) (Keeps-pure _ tt)))
            (kept _ (Keeps-do_key_op c (registers 0 / 2 ^ 28) (registers 0)))

  Keeps-switch : Keeps (J live live n) switch_now
  Keeps-switch = Keeps-switch_now live live n (λ i u. u)

  Keeps-pend_sv_handler :
      (registers : ℕ → ℕ) (sp : ℕ) → Keeps (J live live n) (pend_sv_handler registers sp)
  unfolding pend_sv_handler switch_after_interrupt save_registers
  Keeps-pend_sv_handler registers sp = search (keeps, Keeps-switch) depth 20

  -- A handler that the table has is in use.
  Ensures-get_irq_entry :
      (x : ℕ) (k : Kernel)
      → J live live n k
      → Ensures (λ o t. Handling live live n o × J live live n t) (get_irq_entry x k)
  unfolding get_irq_entry ◌>>=◌ ◌>>◌ gets panic_if panic_unless
  Ensures-get_irq_entry x k h = elim (Bool-cases (k.irq_count == 0)) [
    | inl e ↦ rw e tt
    | inr e ↦ elim (Bool-cases (ltb x k.irq_count)) [
      | inl f ↦ rw (e, f) (h.handlers x, h)
      | inr f ↦ rw (e, f) tt
    ]
  ]

  Leads-trigger : (i : ℕ) → live i ≡ true → Leads (J live live n) (Sound n) (trigger fuel i)
  unfolding trigger
  Leads-trigger i u =
      Leads-then _ _ (J live live n) _ _
        (Leads-Keeps _ _ _ (λ k h. h) (Keeps-disable_interrupt live live n i))
        (Leads-bind _ _ _ _ (Keeps-gets live live n _) λ linked.
          Leads-if _ _ linked _ _ (kept _ (Keeps-pure _ tt)) (
            Leads-bind _ _ _ _ (Keeps-gets live live n _) λ target.
              Leads-then _ _ (J live live n) _ _
                (Leads-Keeps _ _ _ (λ k h. h) (Keeps-put_interrupt live live n i _))
                (Delivers-deliver_from reply_depth fuel n live _ _ (irq i) u)))

  Leads-handled :
      (o : Option ℕ)
      → Handling live live n o
      → Leads
          (J live live n)
          (Sound n)
          (do i ← require null_irq_entry o; trigger fuel i; do_deferred_switch_from_irq)
  unfolding require ◌>>=◌
  Leads-handled none f = record { at = λ k h. tt }
  Leads-handled (some i) f =
      Leads-then _ _ (Sound n) _ _ (Leads-trigger i (f i refl)) (Leads-from_irq n)

  Leads-irq_redirector : (ipsr : ℕ) → Leads (J live live n) (Sound n) (irq_redirector fuel ipsr)
  unfolding irq_redirector
  Leads-irq_redirector ipsr =
      Leads-then _ _ (J live live n) _ _ (Leads-Keeps _ _ _ (λ k h. h) (Keeps-panic_unless _ _ _))
        (Leads-bind_value _ _ (Handling live live n) _ _ (Ensures-get_irq_entry _) Leads-handled)

  Leads-perform : (e : Event) → Leads (J live live n) (Sound n) (perform fuel e)
  unfolding perform
  Leads-perform (unprivileged address word) = kept _ (
      Keeps-then _ _ _ (Keeps-unshared live live n address 4)
        (Keeps-put_word live live n address word))
  Leads-perform (sv_call registers sp) = Leads-sv_call_handler registers sp
  Leads-perform (interrupt_entry ipsr) = Leads-irq_redirector ipsr
  Leads-perform (pend_sv registers sp) = kept _ (Keeps-pend_sv_handler registers sp)

pub Keeps-perform : (n fuel : ℕ) (e : Event) → Keeps (Sound n) (perform fuel e)
Keeps-perform n fuel e = Keeps-Sound n _ (λ live. Leads-perform live n fuel e)
