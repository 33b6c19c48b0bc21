-- ===== src/Run/Ends.antt =====
-- Code that does not run out of fuel: a rule for each way to build a command.
use brittle_kernel.Prelude.{◌≡◌, refl, Bool, true, false, Option, none, some, if◌then◌else◌, ◌≢◌}
use brittle_kernel.Run.{
  Run, Cmd, Panic, ok, panic, out_of_fuel, pure, and_then, ◌>>=◌, ◌>>◌, panic_if, panic_unless,
  fail, ref, require, maybe,
}
use brittle_kernel.Run.Keeps.{Keeps, Ensures}

-- The run returns and its result and state satisfy `P`, or it panics.
abbrev pub Finishes : {S A : Type 0} → (A → S → Type 0) → Run S A → Type 0
Finishes P (ok a s) = P a s
Finishes P (panic e) = Unit {0}
Finishes P out_of_fuel = ⊥

pub Finishes-fuel :
    {S A : Type 0} (P : A → S → Type 0) (r : Run S A) → Finishes P r → r ≢ out_of_fuel
Finishes-fuel P (ok a s) h e = cc
Finishes-fuel P (panic p) h e = cc
Finishes-fuel P out_of_fuel h e = h

pub Finishes-map :
    {S A : Type 0} (P Q : A → S → Type 0) (r : Run S A)
    → Finishes P r
    → ((a : A) (s : S) → P a s → Q a s)
    → Finishes Q r
Finishes-map P Q (ok a s) h f = f a s h
Finishes-map P Q (panic p) h f = tt
Finishes-map P Q out_of_fuel h f = elim h [ ]

pub Finishes-both :
    {S A : Type 0} (P Q : A → S → Type 0) (r : Run S A)
    → Finishes P r
    → Ensures Q r
    → Finishes (λ a s. P a s × Q a s) r
Finishes-both P Q (ok a s) p q = (p, q)
Finishes-both P Q (panic e) p q = tt
Finishes-both P Q out_of_fuel p q = elim p [ ]

pub Finishes-and_then :
    {S A B : Type 0} (P : A → S → Type 0) (Q : B → S → Type 0) (r : Run S A) (f : A → Cmd S B)
    → Finishes P r
    → ((a : A) (s : S) → P a s → Finishes Q (f a s))
    → Finishes Q (and_then r f)
Finishes-and_then P Q (ok a s) f h kf = kf a s h
Finishes-and_then P Q (panic e) f h kf = tt
Finishes-and_then P Q out_of_fuel f h kf = elim h [ ]

-- The rest of a block may use that it was not left.
pub Finishes-panic_if :
    {S A : Type 0} (P : A → S → Type 0) (b : Bool) (e : Panic) (m : Cmd S A) (s : S)
    → (b ≡ false → Finishes P (m s))
    → Finishes P ((panic_if b e >> m) s)
unfolding ◌>>◌ ◌>>=◌ panic_if
Finishes-panic_if P true e m s f = tt
Finishes-panic_if P false e m s f = f refl

pub Finishes-panic_unless :
    {S A : Type 0} (P : A → S → Type 0) (b : Bool) (e : Panic) (m : Cmd S A) (s : S)
    → (b ≡ true → Finishes P (m s))
    → Finishes P ((panic_unless b e >> m) s)
unfolding ◌>>◌ ◌>>=◌ panic_unless
Finishes-panic_unless P true e m s f = f refl
Finishes-panic_unless P false e m s f = tt

-- A command that, from a state in `P`, returns in a state in `Q`, or panics.
pub record Ends {S A : Type 0} (P Q : S → Type 0) (m : Cmd S A) : Type 0 where
  pub at : (s : S) → P s → Finishes (λ _ t. Q t) (m s)

module _ {S : Type 0} (J : S → Type 0) where
  -- A step between other assertions.
  pub Ends-bind_from :
      {A B : Type 0} (P Q : S → Type 0) (m : Cmd S A) (f : A → Cmd S B)
      → Ends P J m
      → ((a : A) → Ends J Q (f a))
      → Ends P Q (m >>= f)
  unfolding ◌>>=◌
  Ends-bind_from P Q m f km kf = record {
    at = λ s h. Finishes-and_then _ _ (m s) f (km.at s h) (λ a t. (kf a).at t);
  }

  pub Ends-then_from :
      {B : Type 0} (P Q : S → Type 0) (m : Cmd S (Unit {0})) (n : Cmd S B)
      → Ends P J m
      → Ends J Q n
      → Ends P Q (m >> n)
  unfolding ◌>>◌
  Ends-then_from P Q m n km kn = Ends-bind_from P Q m (λ _. n) km (λ _. kn)

  pub Ends-bind :
      {A B : Type 0} (m : Cmd S A) (f : A → Cmd S B)
      → Ends J J m
      → ((a : A) → Ends J J (f a))
      → Ends J J (m >>= f)
  Ends-bind m f = Ends-bind_from J J m f

  pub Ends-then :
      {B : Type 0} (m : Cmd S (Unit {0})) (n : Cmd S B)
      → Ends J J m
      → Ends J J n
      → Ends J J (m >> n)
  unfolding ◌>>◌
  Ends-then m n km kn = Ends-bind m (λ _. n) km (λ _. kn)

  pub Ends-pure : {A : Type 0} (a : A) → Ends J J (pure a)
  unfolding pure
  Ends-pure a = record { at = λ s h. h }

  pub Ends-fail : {A : Type 0} (e : Panic) → Ends J J (fail {A = A} e)
  unfolding fail
  Ends-fail e = record { at = λ s h. tt }

  pub Ends-panic_if : (b : Bool) (e : Panic) → Ends J J (panic_if b e)
  unfolding panic_if
  Ends-panic_if true e = record { at = λ s h. tt }
  Ends-panic_if false e = record { at = λ s h. h }

  pub Ends-panic_unless : (b : Bool) (e : Panic) → Ends J J (panic_unless b e)
  unfolding panic_unless
  Ends-panic_unless true e = record { at = λ s h. h }
  Ends-panic_unless false e = record { at = λ s h. tt }

  pub Ends-ref : {A : Type 0} (o : Option A) → Ends J J (ref o)
  unfolding ref
  Ends-ref (some a) = record { at = λ s h. h }
  Ends-ref none = record { at = λ s h. tt }

  pub Ends-require : {A : Type 0} (e : Panic) (o : Option A) → Ends J J (require e o)
  unfolding require
  Ends-require e (some a) = record { at = λ s h. h }
  Ends-require e none = record { at = λ s h. tt }

  pub Ends-maybe :
      {A B : Type 0} (Q : S → Type 0) (o : Option A) (n : Cmd S B) (f : A → Cmd S B)
      → Ends J Q n
      → ((a : A) → Ends J Q (f a))
      → Ends J Q (maybe o n f)
  unfolding maybe
  Ends-maybe Q none n f kn kf = kn
  Ends-maybe Q (some a) n f kn kf = kf a

  pub Ends-if :
      {A : Type 0} (Q : S → Type 0) (b : Bool) (m n : Cmd S A)
      → Ends J Q m
      → Ends J Q n
      → Ends J Q (if b then m else n)
  Ends-if Q true m n km kn = km
  Ends-if Q false m n km kn = kn

-- An invariant that a command keeps holds where it returns, too.
pub Ends-Keeps :
    {S A : Type 0} (J K : S → Type 0) (m : Cmd S A)
    → ((s : S) → J s → K s)
    → Ends K K m
    → Keeps J m
    → Ends J J m
Ends-Keeps J K m f e k = record {
  at = λ s h.
      Finishes-map _ _ (m s)
        (Finishes-both (λ _ t. K t) (λ _ t. J t) (m s) (e.at s (f s h)) (k.at s h)) (λ a t p. p.1);
}
