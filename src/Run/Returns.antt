-- ===== src/Run/Returns.antt =====
-- Code that returns: a rule for each way to build a command.
use brittle_kernel.Prelude.{◌≡◌}
use brittle_kernel.Run.{Run, Cmd, ok, panic, out_of_fuel, and_then, ◌>>=◌, ◌>>◌}

-- The run returns, and its result and state satisfy `P`.
abbrev pub Returns : {S A : Type 0} → (A → S → Type 0) → Run S A → Type 0
Returns P (ok a s) = P a s
Returns P (panic e) = ⊥
Returns P out_of_fuel = ⊥

pub and_then-Returns :
    {S A B : Type 0} (P : A → S → Type 0) (Q : B → S → Type 0) (r : Run S A) (f : A → Cmd S B)
    → Returns P r
    → ((a : A) (s : S) → P a s → Returns Q (f a s))
    → Returns Q (and_then r f)
and_then-Returns P Q (ok a s) f h kf = kf a s h
and_then-Returns P Q (panic e) f h kf = elim h [ ]
and_then-Returns P Q out_of_fuel f h kf = elim h [ ]

pub Returns-map :
    {S A : Type 0} (P Q : A → S → Type 0) (r : Run S A)
    → Returns P r
    → ((a : A) (s : S) → P a s → Q a s)
    → Returns Q r
Returns-map P Q (ok a s) h f = f a s h
Returns-map P Q (panic e) h f = elim h [ ]
Returns-map P Q out_of_fuel h f = elim h [ ]

-- A command that returns, from a state in `P`, its result with a state in `Q`.
pub record Runs {S A : Type 0} (P : S → Type 0) (Q : A → S → Type 0) (m : Cmd S A) : Type 0 where
  pub at : (s : S) → P s → Returns Q (m s)

module _ {S B : Type 0} (P : S → Type 0) (Q : B → S → Type 0) where
  pub Runs-bind :
      {A : Type 0} (R : A → S → Type 0) (m : Cmd S A) (f : A → Cmd S B)
      → Runs P R m
      → ((a : A) → Runs (R a) Q (f a))
      → Runs P Q (m >>= f)
  unfolding ◌>>=◌
  Runs-bind R m f rm rf = record {
    at = λ s h. and_then-Returns R Q (m s) f (rm.at s h) (λ a. (rf a).at);
  }

  pub Runs-then :
      (R : S → Type 0) (m : Cmd S (Unit {0})) (k : Cmd S B)
      → Runs P (λ _. R) m
      → Runs R Q k
      → Runs P Q (m >> k)
  unfolding ◌>>◌
  Runs-then R m k rm rk = Runs-bind (λ _. R) m (λ _. k) rm (λ _. rk)

  -- The result is a known one.
  pub Runs-bind_value :
      {A : Type 0} (R : S → Type 0) (a : A) (m : Cmd S A) (f : A → Cmd S B)
      → Runs P (λ x s. (x ≡ a) × R s) m
      → Runs R Q (f a)
      → Runs P Q (m >>= f)
  Runs-bind_value R a m f rm rf =
      Runs-bind (λ x s. (x ≡ a) × R s) m f rm (λ x. record { at = λ s (e, h). rw e (rf.at s h) })
