-- ===== src/Run/Yields.antt =====
-- What code that may panic returns, whatever the state.
use brittle_kernel.Prelude.{◌≡◌, refl, Bool, true, false, Option, none, some, if◌then◌else◌}
use brittle_kernel.Run.{Run, Cmd, ok, panic, out_of_fuel, pure, and_then, ◌>>=◌, ◌>>◌, maybe}
use brittle_kernel.Run.Keeps.{Ensures, and_then-Ensures_of}

pub record Yields {S A : Type 0} (P : A → Type 0) (m : Cmd S A) : Type 0 where
  pub at : (s : S) → Ensures (λ a _. P a) (m s)

Ensures-any : {S A : Type 0} (r : Run S A) → Ensures (λ _ _. Unit {0}) r
Ensures-any (ok a s) = tt
Ensures-any (panic e) = tt
Ensures-any out_of_fuel = tt

-- Two runs that begin alike are alike if what follows is, on the results that the first ensures.
pub and_then-cong :
    {S A B : Type 0} (Q : A → S → Type 0) (r : Run S A) (f g : A → Cmd S B)
    → Ensures Q r
    → ((a : A) (s : S) → Q a s → f a s ≡ g a s)
    → and_then r f ≡ and_then r g
and_then-cong Q (ok a s) f g h e = e a s h
and_then-cong Q (panic p) f g h e = refl
and_then-cong Q out_of_fuel f g h e = refl

pub Ensures-both :
    {S A : Type 0} (P Q : A → S → Type 0) (r : Run S A)
    → Ensures P r
    → Ensures Q r
    → Ensures (λ a s. P a s × Q a s) r
Ensures-both P Q (ok a s) p q = (p, q)
Ensures-both P Q (panic e) p q = tt
Ensures-both P Q out_of_fuel p q = tt

module _ {S B : Type 0} (P : B → Type 0) where
  pub Yields-bind :
      {A : Type 0} (m : Cmd S A) (f : A → Cmd S B) → ((a : A) → Yields P (f a)) → Yields P (m >>= f)
  unfolding ◌>>=◌
  Yields-bind m f yf = record {
    at = λ s.
        and_then-Ensures_of (λ _ _. Unit {0}) _ (m s) f (Ensures-any (m s)) (λ a t _. (yf a).at t);
  }

  pub Yields-bind_value :
      {A : Type 0} (Q : A → Type 0) (m : Cmd S A) (f : A → Cmd S B)
      → Yields Q m
      → ((a : A) → Q a → Yields P (f a))
      → Yields P (m >>= f)
  unfolding ◌>>=◌
  Yields-bind_value Q m f ym yf = record {
    at = λ s. and_then-Ensures_of (λ a _. Q a) _ (m s) f (ym.at s) (λ a t q. (yf a q).at t);
  }

  pub Yields-then : (m : Cmd S (Unit {0})) (n : Cmd S B) → Yields P n → Yields P (m >> n)
  unfolding ◌>>◌
  Yields-then m n yn = Yields-bind m (λ _. n) (λ _. yn)

  pub Yields-pure : (b : B) → P b → Yields {S = S} P (pure b)
  unfolding pure
  Yields-pure b p = record { at = λ s. p }

  pub Yields-maybe :
      {A : Type 0} (o : Option A) (n : Cmd S B) (f : A → Cmd S B)
      → Yields P n
      → ((a : A) → Yields P (f a))
      → Yields P (maybe o n f)
  unfolding maybe
  Yields-maybe none n f yn yf = yn
  Yields-maybe (some a) n f yn yf = yf a

  pub Yields-if :
      (b : Bool) (m n : Cmd S B) → Yields P m → Yields P n → Yields P (if b then m else n)
  Yields-if true m n ym yn = ym
  Yields-if false m n ym yn = yn
