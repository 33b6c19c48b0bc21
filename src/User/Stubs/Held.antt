-- ===== src/User/Stubs/Held.antt =====
-- The key registers that the bindings of a/k take: those that return a key take one register for it,
-- the others take none.
use brittle_kernel.Prelude.{ℕ, Bool, ◌==◌}
use brittle_kernel.Run.{pure}
use brittle_kernel.Abi.Message.{Message}
use brittle_kernel.User.{System, User, writes}
use brittle_kernel.User.Ipc.{ipc2_with_brand, ipc2, invoke, copy_key}
use brittle_kernel.User.Keys.Held.{Free, Held, Spec, Spec-pure, Spec-if, specs}
use brittle_kernel.User.Stubs.Context.{
  set_region, get_region, set_register, set_key, make_runnable, set_priority,
}
use brittle_kernel.User.Stubs.Gate.{make_client_key}
use brittle_kernel.User.Stubs.Interrupt.{set_target, enable}
use brittle_kernel.User.Stubs.Memory.{inspect, split, become, peek, poke, make_child}
use brittle_kernel.User.Stubs.ObjectTable.{mint_key, read_key, get_kind, invalidate}

module _ {W : Type 0} (free : ℕ → Bool) where
  -- The command leaves the mask as it finds it.
  abbrev pub KeepsKeys : {A : Type 0} → User W A → Type 0
  KeepsKeys m = Spec (Free free) (λ _. Free free) m

  pub Spec-unit : {A : Type 0} (a : A) → KeepsKeys (pure a)
  Spec-unit a = Spec-pure _ _ a (λ p h. h)

module _ {W : Type 0} (sys : System W) (free : ℕ → Bool) where
  ipc2_with_brand-Free : (m : Message) (s r : ℕ) → KeepsKeys free (ipc2_with_brand sys m s r)
  unfolding ipc2_with_brand Free
  ipc2_with_brand-Free m s r = record { at = λ p h. h }

  ipc2-Free : (m : Message) (s r : ℕ) → KeepsKeys free (ipc2 sys m s r)
  unfolding ipc2
  ipc2-Free m s r = search (specs, ipc2_with_brand-Free, Spec-unit) depth 9

  invoke-Free : (m : Message) (s r : ℕ) → KeepsKeys free (invoke sys m s r)
  unfolding invoke
  invoke-Free m s r = search (specs, ipc2-Free, Spec-unit) depth 9

module _ {W : Type 0} (sys : System W) (free : ℕ → Bool) where
  pub copy_key-Free : (to from : ℕ) → KeepsKeys free (copy_key sys to from)
  unfolding copy_key writes Free pure
  copy_key-Free to from =
      Spec-if _ _ (to == from) _ _ (Spec-unit free tt) (record { at = λ p h. h })

  pub set_region-Free : (k i r : ℕ) → KeepsKeys free (set_region sys k i r)
  unfolding set_region
  set_region-Free k i r = search (specs, invoke-Free, Spec-unit) depth 9

  pub get_region-Held : (k i : ℕ) → Spec (Free free) (Held free) (get_region sys k i)
  unfolding get_region
  get_region-Held k i = search (specs, invoke-Free) depth 9

  pub set_register-Free : (k r v : ℕ) → KeepsKeys free (set_register sys k r v)
  unfolding set_register
  set_register-Free k r v = search (specs, invoke-Free, Spec-unit) depth 9

  pub set_key-Free : (k i s : ℕ) → KeepsKeys free (set_key sys k i s)
  unfolding set_key
  set_key-Free k i s = search (specs, invoke-Free, Spec-unit) depth 9

  pub make_runnable-Free : (k : ℕ) → KeepsKeys free (make_runnable sys k)
  unfolding make_runnable
  make_runnable-Free k = search (specs, invoke-Free, Spec-unit) depth 9

  pub set_priority-Free : (k p : ℕ) → KeepsKeys free (set_priority sys k p)
  unfolding set_priority
  set_priority-Free k p = search (specs, invoke-Free, Spec-unit) depth 9

  pub make_client_key-Held : (k b : ℕ) → Spec (Free free) (Held free) (make_client_key sys k b)
  unfolding make_client_key
  make_client_key-Held k b = search (specs, invoke-Free) depth 9

  pub set_target-Free : (k t : ℕ) → KeepsKeys free (set_target sys k t)
  unfolding set_target
  set_target-Free k t = search (specs, invoke-Free, Spec-unit) depth 9

  pub enable-Free : (k : ℕ) (b : Bool) → KeepsKeys free (enable sys k b)
  unfolding enable
  enable-Free k b = search (specs, invoke-Free, Spec-unit) depth 9

  pub inspect-Free : (k : ℕ) → KeepsKeys free (inspect sys k)
  unfolding inspect
  inspect-Free k = search (specs, invoke-Free, Spec-unit) depth 9

  pub split-Held : (k pos slot : ℕ) → Spec (Free free) (Held free) (split sys k pos slot)
  unfolding split
  split-Held k pos slot = search (specs, invoke-Free) depth 9

  pub become-Free : (k ot arg : ℕ) → KeepsKeys free (become sys k ot arg)
  unfolding become
  become-Free k ot arg = search (specs, invoke-Free, Spec-unit) depth 9

  pub peek-Free : (k i : ℕ) → KeepsKeys free (peek sys k i)
  unfolding peek
  peek-Free k i = search (specs, invoke-Free, Spec-unit) depth 9

  pub poke-Free : (k i w : ℕ) → KeepsKeys free (poke sys k i w)
  unfolding poke
  poke-Free k i w = search (specs, invoke-Free, Spec-unit) depth 9

  pub make_child-Free : (k base size slot : ℕ) → KeepsKeys free (make_child sys k base size slot)
  unfolding make_child
  make_child-Free k base size slot = search (specs, invoke-Free, Spec-unit) depth 9

  pub mint_key-Held : (k i b : ℕ) → Spec (Free free) (Held free) (mint_key sys k i b)
  unfolding mint_key
  mint_key-Held k i b = search (specs, invoke-Free) depth 9

  pub read_key-Free : (k key : ℕ) → KeepsKeys free (read_key sys k key)
  unfolding read_key
  read_key-Free k key = search (specs, invoke-Free, Spec-unit) depth 9

  pub get_kind-Free : (k i : ℕ) → KeepsKeys free (get_kind sys k i)
  unfolding get_kind
  get_kind-Free k i = search (specs, invoke-Free, Spec-unit) depth 9

  pub invalidate-Free : (k i : ℕ) → KeepsKeys free (invalidate sys k i)
  unfolding invalidate
  invalidate-Free k i = search (specs, ipc2-Free, Spec-unit) depth 9

pub ruleset stubs = (
  Spec-unit, copy_key-Free, set_region-Free, get_region-Held, set_register-Free, set_key-Free,
  make_runnable-Free, set_priority-Free, make_client_key-Held, set_target-Free, enable-Free,
  inspect-Free, split-Held, become-Free, peek-Free, poke-Free, make_child-Free, mint_key-Held,
  read_key-Free, get_kind-Free, invalidate-Free,
)
