-- ===== src/User/Keys/Held.antt =====
-- Who holds which key register: the registers that a scope takes are free again behind it.
use brittle_kernel.Prelude.{
  ℕ, zero, suc, ◌+◌, ◌≤◌, ◌<◌, ◌≡◌, refl, Bool, true, false, Option, none, some, arith, ◌==◌,
  if◌then◌else◌, update, Bool-cases, eq_of_==, inl, inr, ne→==-false, fun_ext,
}
use brittle_kernel.Run.{pure, fail, ◌>>=◌, ◌>>◌, panic_unless, maybe, ref}
use mathlib.Core.Path.{subst}
use brittle_kernel.Run.Keeps.{Ensures, and_then-Ensures_of}
use brittle_kernel.User.{Process, User, reads, writes, assert}
use brittle_kernel.User.Keys.{first_available, take_register, auto_key, drop_key}

-- The mask without one register.
abbrev pub without : (ℕ → Bool) → ℕ → ℕ → Bool
without free k = update free k false

-- What the loop of the constructor finds: the first free register of the range, if it has one.
abbrev pub Found : ℕ → ℕ → (ℕ → Bool) → Option ℕ → Type 0
Found n i free none = (j : ℕ) → i ≤ j → j < i + n → free j ≡ false
Found n i free (some k) = (i ≤ k) × ((k < i + n) × (free k ≡ true))

Found-skip :
    (n i : ℕ) (free : ℕ → Bool) (o : Option ℕ)
    → free i ≡ false
    → Found n (i + 1) free o
    → Found (suc n) i free o
Found-skip n i free none e h = λ j le lt. elim (Bool-cases (j == i)) [
  | inl q ↦ rw (eq_of_== j i q, e) refl
  | inr q ↦ h j (ground arith) (omega (arith, lt))
]
Found-skip n i free (some k) e h = (omega (arith, h.0), (omega (arith, h.1), h.1.1))

pub first_available-Found : (n i : ℕ) (free : ℕ → Bool) → Found n i free (first_available n i free)
unfolding first_available
first_available-Found zero i free = λ j le lt. absurd (omega (arith, le, lt))
first_available-Found (suc n) i free = elim (Bool-cases (free i)) [
  | inl e ↦ rw e (omega arith, (omega arith, e))
  | inr e ↦ rw e (Found-skip n i free _ e (first_available-Found n (i + 1) free))
]

module _ {W : Type 0} where
  -- The free registers are those of `free`.
  unfoldable pub Free : (ℕ → Bool) → Process W → Type 0
  Free free p = (i : ℕ) → p.available i ≡ free i

  -- Register `k`, which was free, is taken, and the other registers are as they were.
  pub record Held (free : ℕ → Bool) (k : ℕ) (p : Process W) : Type 0 where
    pub positive : 1 ≤ k
    pub small : k < 16
    pub was_free : free k ≡ true
    pub rest : Free (without free k) p

  -- From a state in `P` the command returns a result and a state in `Q`, or it panics.
  pub record Spec {A : Type 0} (P : Process W → Type 0) (Q : A → Process W → Type 0) (m : User W A)
      : Type 0 where
    pub at : (p : Process W) → P p → Ensures Q (m p)

  take_register-Held :
      (free : ℕ → Bool) (o : Option ℕ) (p : Process W)
      → Free free p
      → Found 15 1 free o
      → Ensures (Held free) (take_register o p)
  unfolding take_register Free writes fail ◌>>◌ pure
  take_register-Held free none p h f = tt
  take_register-Held free (some k) p h f = record {
    positive = f.0;
    small = omega (arith, f.1);
    was_free = f.1.1;
    rest = λ i. ground (arith, h i);
  }

  -- The constructor takes a register from 1 to 15 that was free, and no other.
  pub auto_key-Held : (free : ℕ → Bool) → Spec (Free free) (Held free) auto_key
  unfolding auto_key ◌>>=◌ reads Free
  auto_key-Held free = record {
    at = λ p h. take_register-Held free (first_available 15 1 p.available) p h (
        subst (λ f. Found 15 1 f (first_available 15 1 p.available)) (fun_ext h)
          (first_available-Found 15 1 p.available));
  }

  pub Spec-bind-Held :
      {A : Type 0} (free : ℕ → Bool) (Q : A → Process W → Type 0) (m : User W ℕ) (f : ℕ → User W A)
      → Spec (Free free) (Held free) m
      → ((k : ℕ) → 1 ≤ k → k < 16 → free k ≡ true → Spec (Free (without free k)) Q (f k))
      → Spec (Free free) Q (m >>= f)
  unfolding ◌>>=◌
  Spec-bind-Held free Q m f km kf = record {
    at = λ p h.
        and_then-Ensures_of (Held free) Q (m p) f (km.at p h)
          (λ k q held. (kf k held.positive held.small held.was_free).at q held.rest);
  }

  pub Spec-bind :
      {A B : Type 0} (P : Process W → Type 0) (Q : B → Process W → Type 0) (m : User W A)
      (f : A → User W B)
      → Spec P (λ _. P) m
      → ((a : A) → Spec P Q (f a))
      → Spec P Q (m >>= f)
  unfolding ◌>>=◌
  Spec-bind P Q m f km kf = record {
    at = λ p h. and_then-Ensures_of (λ _. P) Q (m p) f (km.at p h) (λ a q g. (kf a).at q g);
  }

  pub Spec-then :
      {B : Type 0} (P : Process W → Type 0) (Q : B → Process W → Type 0) (m : User W (Unit {0}))
      (n : User W B)
      → Spec P (λ _. P) m
      → Spec P Q n
      → Spec P Q (m >> n)
  unfolding ◌>>◌
  Spec-then P Q m n km kn = Spec-bind P Q m (λ _. n) km (λ _. kn)

  drop_key-Free :
      (free : ℕ → Bool) (k : ℕ) (p : Process W)
      → 1 ≤ k
      → free k ≡ true
      → Free (without free k) p
      → Ensures (λ _. Free free) (drop_key k p)
  unfolding drop_key writes Free
  drop_key-Free free k p le e h = rw (ne→==-false k 0 (λ z. omega arith)) (λ i. ground (arith, h i))

  -- The destructor gives a register back that was free before it was taken.
  pub Spec-drop :
      {B : Type 0} (free : ℕ → Bool) (k : ℕ) (Q : B → Process W → Type 0) (n : User W B)
      → 1 ≤ k
      → free k ≡ true
      → Spec (Free free) Q n
      → Spec (Free (without free k)) Q (drop_key k >> n)
  unfolding ◌>>◌ ◌>>=◌
  Spec-drop free k Q n le e kn = record {
    at = λ p h.
        and_then-Ensures_of (λ _. Free free) Q (drop_key k p) (λ _. n)
          (drop_key-Free free k p le e h) (λ _ q g. kn.at q g);
  }

  pub Spec-drop_last :
      (free : ℕ → Bool) (k : ℕ)
      → 1 ≤ k
      → free k ≡ true
      → Spec (Free (without free k)) (λ _. Free free) (drop_key k)
  Spec-drop_last free k le e = record { at = λ p h. drop_key-Free free k p le e h }

  pub Spec-pure :
      {A : Type 0} (P : Process W → Type 0) (Q : A → Process W → Type 0) (a : A)
      → ((p : Process W) → P p → Q a p)
      → Spec P Q (pure a)
  unfolding pure
  Spec-pure P Q a f = record { at = f }

  -- A register that was taken is the scope's result.
  pub Spec-result :
      (free : ℕ → Bool) (k : ℕ)
      → 1 ≤ k
      → k < 16
      → free k ≡ true
      → Spec (Free (without free k)) (Held free) (pure k)
  Spec-result free k le lt e =
      Spec-pure _ _ k (λ p h. record { positive = le; small = lt; was_free = e; rest = h })

  pub Spec-if :
      {A : Type 0} (P : Process W → Type 0) (Q : A → Process W → Type 0) (b : Bool) (m n : User W A)
      → Spec P Q m
      → Spec P Q n
      → Spec P Q (if b then m else n)
  Spec-if P Q true m n km kn = km
  Spec-if P Q false m n km kn = kn

  pub Spec-maybe :
      {A B : Type 0} (P : Process W → Type 0) (Q : B → Process W → Type 0) (o : Option A)
      (n : User W B) (f : A → User W B)
      → Spec P Q n
      → ((a : A) → Spec P Q (f a))
      → Spec P Q (maybe o n f)
  unfolding maybe
  Spec-maybe P Q none n f kn kf = kn
  Spec-maybe P Q (some a) n f kn kf = kf a

  pub Spec-reads :
      {A : Type 0} (P : Process W → Type 0) (f : Process W → A) → Spec P (λ _. P) (reads f)
  unfolding reads
  Spec-reads P f = record { at = λ p h. h }

  pub Spec-assert : (P : Process W → Type 0) (b : Bool) → Spec P (λ _. P) (assert b)
  unfolding assert panic_unless
  Spec-assert P true = record { at = λ p h. h }
  Spec-assert P false = record { at = λ p h. tt }

  pub Spec-ref : {A : Type 0} (P : Process W → Type 0) (o : Option A) → Spec P (λ _. P) (ref o)
  unfolding ref
  Spec-ref P (some a) = record { at = λ p h. h }
  Spec-ref P none = record { at = λ p h. tt }

pub ruleset specs = (
  Spec-bind-Held, Spec-bind, Spec-then, Spec-drop, Spec-result, Spec-if, Spec-maybe, Spec-reads,
  Spec-assert, Spec-drop_last, Spec-ref, auto_key-Held,
)

-- The order in which two registers were taken does not matter.
pub Spec-swap :
    {W A : Type 0} (free : ℕ → Bool) (a b : ℕ) (Q : A → Process W → Type 0) (m : User W A)
    → Spec (Free (without (without free a) b)) Q m
    → Spec (Free (without (without free b) a)) Q m
unfolding Free
Spec-swap free a b Q m h = record { at = λ p g. h.at p (λ i. ground (arith, g i)) }
