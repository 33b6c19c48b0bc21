-- ===== src/Run/Keeps.antt =====
-- Invariants of code that may panic: a rule for each way to build a command.
use brittle_kernel.Prelude.{◌≡◌, Bool, true, false, Option, none, some, if◌then◌else◌, refl}
use brittle_kernel.Run.{
  Run, Cmd, Panic, ok, panic, out_of_fuel, pure, and_then, ◌>>=◌, ◌>>◌, panic_if, panic_unless,
  fail, ref, require, maybe, exhausted,
}

-- If the run returns, its result and state satisfy `P`.
abbrev pub Ensures : {S A : Type 0} → (A → S → Type 0) → Run S A → Type 0
Ensures P (ok a s) = P a s
Ensures P (panic e) = Unit {0}
Ensures P out_of_fuel = Unit {0}

-- A command that returns from a state in `J` returns in a state in `J`.
pub record Keeps {S A : Type 0} (J : S → Type 0) (m : Cmd S A) : Type 0 where
  pub at : (s : S) → J s → Ensures (λ _ t. J t) (m s)

-- Two commands in sequence: what the first ensures is what the second starts from.
pub and_then-Ensures_of :
    {S A B : Type 0} (P : A → S → Type 0) (Q : B → S → Type 0) (r : Run S A) (f : A → Cmd S B)
    → Ensures P r
    → ((a : A) (s : S) → P a s → Ensures Q (f a s))
    → Ensures Q (and_then r f)
and_then-Ensures_of P Q (ok a s) f h kf = kf a s h
and_then-Ensures_of P Q (panic e) f h kf = tt
and_then-Ensures_of P Q out_of_fuel f h kf = tt

pub Ensures-ok :
    {S A : Type 0} (P : A → S → Type 0) (r : Run S A) (a : A) (s : S)
    → Ensures P r
    → r ≡ ok a s
    → P a s
Ensures-ok P r a s h e = rw e at h

pub Ensures-map :
    {S A : Type 0} (P Q : A → S → Type 0) (r : Run S A)
    → Ensures P r
    → ((a : A) (s : S) → P a s → Q a s)
    → Ensures Q r
Ensures-map P Q (ok a s) h f = f a s h
Ensures-map P Q (panic e) h f = tt
Ensures-map P Q out_of_fuel h f = tt

module _ {S : Type 0} (J : S → Type 0) where
  pub and_then-Ensures :
      {A B : Type 0} (r : Run S A) (f : A → Cmd S B)
      → Ensures (λ _ t. J t) r
      → ((a : A) → Keeps J (f a))
      → Ensures (λ _ t. J t) (and_then r f)
  and_then-Ensures (ok a s) f h kf = (kf a).at s h
  and_then-Ensures (panic e) f h kf = tt
  and_then-Ensures out_of_fuel f h kf = tt

  pub Keeps-bind :
      {A B : Type 0} (m : Cmd S A) (f : A → Cmd S B)
      → Keeps J m
      → ((a : A) → Keeps J (f a))
      → Keeps J (m >>= f)
  unfolding ◌>>=◌
  Keeps-bind m f km kf = record { at = λ s h. and_then-Ensures (m s) f (km.at s h) kf }

  pub Keeps-then :
      {B : Type 0} (m : Cmd S (Unit {0})) (n : Cmd S B) → Keeps J m → Keeps J n → Keeps J (m >> n)
  unfolding ◌>>◌
  Keeps-then m n km kn = record {
    at = λ s h. and_then-Ensures (m s) (λ _. n) (km.at s h) (λ _. kn);
  }

  pub Keeps-pure : {A : Type 0} (a : A) → Keeps J (pure a)
  unfolding pure
  Keeps-pure a = record { at = λ s h. h }

  pub Keeps-fail : {A : Type 0} (e : Panic) → Keeps J (fail {A = A} e)
  unfolding fail
  Keeps-fail e = record { at = λ s h. tt }

  pub Keeps-exhausted : {A : Type 0} → Keeps J (exhausted {A = A})
  unfolding exhausted
  Keeps-exhausted = record { at = λ s h. tt }

  pub Keeps-panic_if : (b : Bool) (e : Panic) → Keeps J (panic_if b e)
  unfolding panic_if
  Keeps-panic_if true e = record { at = λ s h. tt }
  Keeps-panic_if false e = record { at = λ s h. h }

  pub Keeps-panic_unless : (b : Bool) (e : Panic) → Keeps J (panic_unless b e)
  unfolding panic_unless
  Keeps-panic_unless true e = record { at = λ s h. h }
  Keeps-panic_unless false e = record { at = λ s h. tt }

  pub Keeps-ref : {A : Type 0} (o : Option A) → Keeps J (ref o)
  unfolding ref
  Keeps-ref (some a) = record { at = λ s h. h }
  Keeps-ref none = record { at = λ s h. tt }

  pub Keeps-require : {A : Type 0} (e : Panic) (o : Option A) → Keeps J (require e o)
  unfolding require
  Keeps-require e (some a) = record { at = λ s h. h }
  Keeps-require e none = record { at = λ s h. tt }

  pub Keeps-maybe :
      {A B : Type 0} (o : Option A) (n : Cmd S B) (f : A → Cmd S B)
      → Keeps J n
      → ((a : A) → Keeps J (f a))
      → Keeps J (maybe o n f)
  unfolding maybe
  Keeps-maybe none n f kn kf = kn
  Keeps-maybe (some a) n f kn kf = kf a

  pub Keeps-if :
      {A : Type 0} (b : Bool) (m n : Cmd S A) → Keeps J m → Keeps J n → Keeps J (if b then m else n)
  Keeps-if true m n km kn = km
  Keeps-if false m n km kn = kn

  -- The branches may use the test.
  pub Keeps-if_case :
      {A : Type 0} (b : Bool) (m n : Cmd S A)
      → (b ≡ true → Keeps J m)
      → (b ≡ false → Keeps J n)
      → Keeps J (if b then m else n)
  Keeps-if_case true m n km kn = km refl
  Keeps-if_case false m n km kn = kn refl

  -- The rest of a block may use what the invariant says of the value.
  value-Ensures :
      {A B : Type 0} (P : A → Type 0) (r : Run S A) (f : A → Cmd S B)
      → Ensures (λ a t. P a × J t) r
      → ((a : A) → P a → Keeps J (f a))
      → Ensures (λ _ t. J t) (and_then r f)
  value-Ensures P (ok a s) f h kf = (kf a h.0).at s h.1
  value-Ensures P (panic e) f h kf = tt
  value-Ensures P out_of_fuel f h kf = tt

  pub Keeps-bind_value :
      {A B : Type 0} (P : A → Type 0) (m : Cmd S A) (f : A → Cmd S B)
      → ((s : S) → J s → Ensures (λ a t. P a × J t) (m s))
      → ((a : A) → P a → Keeps J (f a))
      → Keeps J (m >>= f)
  unfolding ◌>>=◌
  Keeps-bind_value P m f km kf = record { at = λ s h. value-Ensures P (m s) f (km s h) kf }

-- A command that returns from a state in `P` returns in a state in `Q`.
pub record Leads {S A : Type 0} (P Q : S → Type 0) (m : Cmd S A) : Type 0 where
  pub at : (s : S) → P s → Ensures (λ _ t. Q t) (m s)

module _ {S : Type 0} (P Q : S → Type 0) where
  pub Leads-Keeps : {A : Type 0} (m : Cmd S A) → ((s : S) → P s → Q s) → Keeps P m → Leads P Q m
  Leads-Keeps m f km = record { at = λ s h. Ensures-map _ _ (m s) (km.at s h) (λ _. f) }

  pub Leads-bind :
      {A B : Type 0} (m : Cmd S A) (f : A → Cmd S B)
      → Keeps P m
      → ((a : A) → Leads P Q (f a))
      → Leads P Q (m >>= f)
  unfolding ◌>>=◌
  Leads-bind m f km kf = record {
    at = λ s h. and_then-Ensures_of (λ _ t. P t) _ (m s) f (km.at s h) (λ a t. (kf a).at t);
  }

  pub Leads-bind_value :
      {A B : Type 0} (R : A → Type 0) (m : Cmd S A) (f : A → Cmd S B)
      → ((s : S) → P s → Ensures (λ a t. R a × P t) (m s))
      → ((a : A) → R a → Leads P Q (f a))
      → Leads P Q (m >>= f)
  unfolding ◌>>=◌
  Leads-bind_value R m f km kf = record {
    at = λ s h.
        and_then-Ensures_of (λ a t. R a × P t) _ (m s) f (km s h) (λ a t p. (kf a p.0).at t p.1);
  }

  pub Leads-from :
      {A B : Type 0} (R : S → Type 0) (m : Cmd S A) (f : A → Cmd S B)
      → Leads P R m
      → ((a : A) → Leads R Q (f a))
      → Leads P Q (m >>= f)
  unfolding ◌>>=◌
  Leads-from R m f km kf = record {
    at = λ s h. and_then-Ensures_of (λ _ t. R t) _ (m s) f (km.at s h) (λ a t. (kf a).at t);
  }

  pub Leads-then :
      {B : Type 0} (R : S → Type 0) (m : Cmd S (Unit {0})) (k : Cmd S B)
      → Leads P R m
      → Leads R Q k
      → Leads P Q (m >> k)
  unfolding ◌>>◌
  Leads-then R m k km kk = Leads-from R m (λ _. k) km (λ _. kk)

  pub Leads-after :
      {B : Type 0} (m : Cmd S (Unit {0})) (k : Cmd S B)
      → Keeps P m
      → Leads P Q k
      → Leads P Q (m >> k)
  unfolding ◌>>◌
  Leads-after m k km kk = Leads-bind m (λ _. k) km (λ _. kk)

  pub Leads-if :
      {A : Type 0} (b : Bool) (m n : Cmd S A)
      → Leads P Q m
      → Leads P Q n
      → Leads P Q (if b then m else n)
  Leads-if true m n km kn = km
  Leads-if false m n km kn = kn
