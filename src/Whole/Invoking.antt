-- ===== src/Whole/Invoking.antt =====
-- `rt::ipc2` and its check of the error bit, above the kernel.
use brittle_kernel.Prelude.{ℕ, ◌≡◌, refl, false}
use brittle_kernel.Run.{Run, ok, panic, out_of_fuel, panic_unless, pure, ◌>>=◌, ◌>>◌}
use brittle_kernel.Run.Returns.{Returns}
use brittle_kernel.Abi.Descriptor.{get_error}
use brittle_kernel.Abi.Message.{Message}
use brittle_kernel.Kernel.{Kernel, body}
use brittle_kernel.User.{System, Process, assert}
use brittle_kernel.User.Ipc.{ipc2_with_brand, ipc2, invoke}
use brittle_kernel.Whole.{system_call, above_kernel, outcome, state_after}

state_after-Returns :
    (P : Kernel → Type 0) (k : Kernel) (r : Run Kernel (Unit {0}))
    → Returns (λ _. P) r
    → P (state_after k r)
state_after-Returns P k (ok a s) h = h
state_after-Returns P k (panic e) h = elim h [ ]
state_after-Returns P k out_of_fuel h = elim h [ ]

-- The state of the process after a system call that leads to `s`.
abbrev pub back : Process Kernel → Kernel → Process Kernel
back p s = record p { world = s }

-- A call whose reply is not an error returns what the reply's registers hold.
pub invoke-Returns :
    (sys : System Kernel) (fuel c sp : ℕ) (m : Message) (send_map receive_map : ℕ)
    (p : Process Kernel) (P : Kernel → Type 0)
    → Returns
        (λ _ s. (get_error ((body s c).save 0) ≡ false) × P s)
        (system_call fuel c sp m send_map receive_map p.world)
    → Returns
        (λ a q. (a ≡ (outcome c q.world).message) × (q ≡ back p q.world) × P q.world)
        (invoke (above_kernel fuel c sp sys) m send_map receive_map p)
unfolding invoke ipc2 ipc2_with_brand assert panic_unless above_kernel pure ◌>>=◌ ◌>>◌
invoke-Returns sys fuel c sp m send_map receive_map p P h =
    let (e, q) =
      state_after-Returns (λ s. (get_error ((body s c).save 0) ≡ false) × P s) p.world
        (system_call fuel c sp m send_map receive_map p.world) h in
    rw e (refl, refl, q)
