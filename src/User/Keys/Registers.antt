-- ===== src/User/Keys/Registers.antt =====
-- What the allocator of key registers promises to a scope.
use brittle_kernel.Prelude.{
  ap, ℕ, ◌≤◌, ◌<◌, ◌≡◌, refl, true, false, Option, none, some, arith, update, fun_ext, ne→==-false,
}
use brittle_kernel.Run.{ok, pure, fail, ◌>>=◌, ◌>>◌}
use brittle_kernel.Run.Keeps.{Ensures, Ensures-ok}
use brittle_kernel.User.{Process, reads, writes}
use brittle_kernel.User.Keys.{first_available, take_register, auto_key, drop_key}
use brittle_kernel.User.Keys.Held.{Held, Free, Found, first_available-Found, auto_key-Held}

module _ {W : Type 0} where
  drop_key-taken :
      (p : Process W) (o : Option ℕ)
      → Found 15 1 p.available o
      → Ensures (λ k q. drop_key k q ≡ ok tt p) (take_register o p)
  unfolding take_register drop_key writes fail pure ◌>>◌ ◌>>=◌
  drop_key-taken p none f = tt
  drop_key-taken p (some k) f =
      let free : (λ i. update (update p.available k false) k true i) ≡ p.available =
        fun_ext (λ i. ground (arith, f.1.1)) in
      rw (ne→==-false k 0 (λ z. omega (arith, f.0, z)))
        (ap (λ a. ok tt (record p { available = a })) free)

  -- A register that the constructor takes and the destructor gives back leaves everything as it was.
  pub auto_key-drop_key : (p q : Process W) (k : ℕ) → auto_key p ≡ ok k q → drop_key k q ≡ ok tt p
  unfolding auto_key ◌>>=◌ reads
  auto_key-drop_key p q k =
      Ensures-ok _ _ k q (
        drop_key-taken p (first_available 15 1 p.available)
          (first_available-Found 15 1 p.available))

  taken-returns :
      (p : Process W) (o : Option ℕ) (j : ℕ)
      → Found 15 1 p.available o
      → 1 ≤ j
      → j < 16
      → p.available j ≡ true
      → (k : ℕ) × ((q : Process W) × (take_register o p ≡ ok k q))
  unfolding take_register writes pure ◌>>◌ ◌>>=◌
  taken-returns p none j f le lt e = absurd (cc (f j le (omega (arith, lt)), e))
  taken-returns p (some k) j f le lt e = (k, (_, refl))

  -- While one of the registers 1 to 15 is free, the constructor returns: it takes a free one of them,
  -- which is free no more, and leaves the others as they were.
  pub auto_key-returns :
      (p : Process W) (j : ℕ)
      → 1 ≤ j
      → j < 16
      → p.available j ≡ true
      → (k : ℕ) × ((q : Process W) × ((auto_key p ≡ ok k q) × Held p.available k q))
  unfolding auto_key ◌>>=◌ reads Free
  auto_key-returns p j le lt e =
      let (k, (q, eq)) =
        taken-returns p (first_available 15 1 p.available) j
          (first_available-Found 15 1 p.available) le lt e in
      (k, (q, (eq, Ensures-ok _ _ k q ((auto_key-Held p.available).at p (λ i. refl)) eq)))

  take_register-world :
      (p : Process W) (o : Option ℕ) → Ensures (λ _ q. q.world ≡ p.world) (take_register o p)
  unfolding take_register writes fail pure ◌>>◌ ◌>>=◌
  take_register-world p none = tt
  take_register-world p (some k) = refl

  -- The constructor makes no system call.
  pub auto_key-world : (p q : Process W) (k : ℕ) → auto_key p ≡ ok k q → q.world ≡ p.world
  unfolding auto_key ◌>>=◌ reads
  auto_key-world p q k =
      Ensures-ok _ _ k q (take_register-world p (first_available 15 1 p.available))
