-- ===== src/User/Setup/Balance.antt =====
-- The key registers of a/app/serial/setup.cc: the set-up gives back every register that it takes.
use brittle_kernel.Abi.Sizes.{interrupt_l2_size}
use brittle_kernel.Prelude.{ℕ, ◌≤◌, ◌<◌, ◌≡◌, refl, Bool, true, Option, arith, ◌-◌}
use brittle_kernel.Run.{ok, pure, ref, ◌>>=◌, ◌>>◌}
use brittle_kernel.Run.Keeps.{Ensures-ok}
use brittle_kernel.User.{System, Process, User}
use brittle_kernel.User.Alloc.Balance.{Allocated, alloc_mem-Allocated, alloc_slot-Held}
use brittle_kernel.User.Keys.{drop_key}
use brittle_kernel.User.Keys.Held.{
  Free, Held, Spec, Spec-pure, Spec-drop, Spec-swap, without, specs, Spec-bind-Held, Spec-then,
  Spec-drop_last,
}
use brittle_kernel.User.Load.Balance.{Spec-bind-Allocated, load_program-Allocated}
use brittle_kernel.User.Setup.{
  Images, make_image_key, give_syscall_key, give_interrupt, give_apb, make_uart_driver,
  make_uart_client, app_setup,
}
use brittle_kernel.User.Startup.{make_gate}
use brittle_kernel.User.Stubs.Held.{KeepsKeys, stubs}

module _ {W : Type 0} (free : ℕ → Bool) where
  -- `auto & k = maybe_k.ref()`.
  Spec-bind_ref :
      {A : Type 0} (Q : A → Process W → Type 0) (m : User W (Option ℕ)) (f : ℕ → User W A)
      → Spec (Free free) (Allocated free) m
      → ((k : ℕ) → 1 ≤ k → k < 16 → free k ≡ true → Spec (Free (without free k)) Q (f k))
      → Spec (Free free) Q (m >>= λ o. ref o >>= f)
  unfolding ref ◌>>=◌
  Spec-bind_ref Q m f km kf =
      Spec-bind-Allocated free Q m _ km (record { at = λ p h. tt })
        (λ k le lt e. record { at = (kf k le lt e).at })

  -- Releases the first of two registers, of which the second is the result.
  Spec-drop_inner :
      {A : Type 0} (a b : ℕ) (Q : A → Process W → Type 0) (n : User W A)
      → 1 ≤ a
      → free a ≡ true
      → without free a b ≡ true
      → Spec (Free (without free b)) Q n
      → Spec (Free (without (without free a) b)) Q (drop_key a >> n)
  Spec-drop_inner a b Q n le e e' kn =
      Spec-swap free b a Q _ (Spec-drop (without free b) a Q n le (ground (arith, e, e')) kn)

  Spec-result_inner :
      (a b : ℕ)
      → 1 ≤ b
      → b < 16
      → without free a b ≡ true
      → Spec {W = W} (Free (without free b)) (Held free) (pure b)
  Spec-result_inner a b le lt e =
      Spec-pure _ _ b
        λ p h. record { positive = le; small = lt; was_free = ground (arith, e); rest = h }

module _ {W : Type 0} (sys : System W) (free : ℕ → Bool) where
  make_gate-Held : Spec (Free free) (Held free) (make_gate sys)
  unfolding make_gate
  make_gate-Held = search (specs, stubs, Spec-bind_ref, alloc_mem-Allocated) depth 9

module _ {W : Type 0} (sys : System W) (images : Images) (free : ℕ → Bool) where
  make_image_key-Held :
      (addr size : ℕ) → Spec (Free free) (Held free) (make_image_key sys images addr size)
  unfolding make_image_key
  make_image_key-Held addr size =
      search (specs, stubs, alloc_slot-Held, Spec-drop_inner, Spec-result_inner) depth 20

  give_syscall_key-Free : (k : ℕ) → KeepsKeys free (give_syscall_key sys images k)
  unfolding give_syscall_key
  give_syscall_key-Free k = search (specs, stubs) depth 12

  give_interrupt-Free : (k : ℕ) → KeepsKeys free (give_interrupt sys images k)
  unfolding give_interrupt
  give_interrupt-Free k =
      Spec-bind_ref free _ _ _ (alloc_mem-Allocated sys free (interrupt_l2_size - 1) 0)
        λ k_irq le lt e. search (specs, stubs, make_gate-Held) depth 30

  give_apb-Free : (k : ℕ) → KeepsKeys free (give_apb sys images k)
  unfolding give_apb
  give_apb-Free k = search (specs, stubs) depth 12

module _ {W : Type 0} (sys : System W) (images : Images) (free : ℕ → Bool) where
  -- The end of the scope: the gate is the result, the keys of the program and its image are released.
  keep_gate-Held :
      (img prog gate : ℕ)
      → 1 ≤ img
      → free img ≡ true
      → 1 ≤ prog
      → without free img prog ≡ true
      → 1 ≤ gate
      → gate < 16
      → without (without free img) prog gate ≡ true
      → Spec {W = W}
          (Free (without (without (without free img) prog) gate))
          (Held free)
          (do drop_key prog; drop_key img; pure gate)
  keep_gate-Held img prog gate le e le' e' le'' lt e'' =
      let outer : without free img gate ≡ true = ground (arith, e'') in
      Spec-drop_inner (without free img) prog gate _ _ le' e' e'' (
        Spec-drop_inner free img gate _ _ le e outer
          (Spec-result_inner free img gate le'' lt outer))

module _ {W : Type 0} (sys : System W) (images : Images) (free : ℕ → Bool) where
  -- The gate for requests outlives the keys of the image and the program.
  make_uart_driver-Held : Spec (Free free) (Held free) (make_uart_driver sys images)
  unfolding make_uart_driver
  make_uart_driver-Held =
      Spec-bind-Held free _ _ _ (make_image_key-Held sys images free _ _) λ k_img le lt e.
        Spec-bind_ref (without free k_img) _ _ _ (load_program-Allocated sys _ _ k_img)
          λ k_prog le' lt' e'. Spec-then _ _ _ _ (give_syscall_key-Free sys images _ k_prog) (
            Spec-bind-Held (without (without free k_img) k_prog) _ _ _ (make_gate-Held sys _)
              λ k_gate le'' lt'' e''.
                search (specs, stubs, give_interrupt-Free, give_apb-Free, keep_gate-Held) depth 30)

  make_uart_client-Free : (k : ℕ) → KeepsKeys free (make_uart_client sys images k)
  unfolding make_uart_client
  make_uart_client-Free k =
      Spec-bind-Held free _ _ _ (make_image_key-Held sys images free _ _) λ k_img le lt e.
        Spec-bind_ref (without free k_img) _ _ _ (load_program-Allocated sys _ _ k_img)
          λ k_prog le' lt' e'. search (specs, stubs, give_syscall_key-Free) depth 30

module _ {W : Type 0} (sys : System W) (images : Images) (free : ℕ → Bool) where
  app_setup-Free : KeepsKeys free (app_setup sys images)
  unfolding app_setup
  app_setup-Free = Spec-bind-Held free _ _ _ (make_uart_driver-Held sys images free) λ k le lt e.
      Spec-then _ _ _ _ (make_uart_client-Free sys images (without free k) k)
        (Spec-drop_last free k le e)

-- The application's set-up, where it returns, leaves every key register as free as it was.
pub app_setup-balance :
    {W : Type 0} (sys : System W) (images : Images) (p q : Process W) (i : ℕ)
    → app_setup sys images p ≡ ok tt q
    → q.available i ≡ p.available i
unfolding Free
app_setup-balance sys images p q i e =
    Ensures-ok (λ _. Free p.available) _ tt q
      ((app_setup-Free sys images p.available).at p (λ j. refl)) e i
