-- ===== src/User/Load/Balance.antt =====
-- The key registers of a/sys/load.cc: however a load ends, no register is lost.
use brittle_kernel.Abi.Sizes.{context_l2_size}
use brittle_kernel.Run.Keeps.{and_then-Ensures_of, Ensures, Ensures-ok}
use brittle_kernel.Prelude.{
  ℕ, zero, suc, ◌+◌, ◌-◌, ◌≡◌, ◌≤◌, ◌<◌, Bool, true, not, Option, none, some, arith, refl, ◌^◌, ◌%◌,
}
use brittle_kernel.Run.{◌>>=◌, maybe, ok}
use brittle_kernel.User.{System, Process, User}
use brittle_kernel.User.Alloc.Balance.{
  Allocated, none-Allocated, alloc_mem-Allocated, free_mem-Free,
}
use brittle_kernel.User.Keys.Held.{
  Free, Spec, Spec-pure, Spec-bind, Spec-then, Spec-if, Spec-drop, Spec-swap, specs, without,
}
use brittle_kernel.User.Load.{
  read_header, copy_data, zero_rest, relocate_got, fill_program, load_into, load_image,
  load_program, ram_brand,
}
use brittle_kernel.User.Load.Image.{Header, is_valid, ctz, get_ram_size}
use brittle_kernel.User.Stubs.Held.{KeepsKeys, stubs, become-Free}

module _ {W : Type 0} (sys : System W) (free : ℕ → Bool) where
  read_header-Free : (k o s : ℕ) → KeepsKeys free (read_header sys k o s)
  unfolding read_header
  read_header-Free k o s = search (specs, stubs) depth 20

  copy_data-Free : (n d k s r : ℕ) → KeepsKeys free (copy_data sys n d k s r)
  unfolding copy_data
  copy_data-Free zero d k s r = search stubs depth 3
  copy_data-Free (suc n) d k s r = search (specs, stubs, copy_data-Free n) depth 9

  zero_rest-Free : (n d r : ℕ) → KeepsKeys free (zero_rest sys n d r)
  unfolding zero_rest
  zero_rest-Free zero d r = search stubs depth 3
  zero_rest-Free (suc n) d r = search (specs, stubs, zero_rest-Free n) depth 9

  relocate_got-Free :
      (n d : ℕ) (hdr : Header) (a r k : ℕ) → KeepsKeys free (relocate_got sys n d hdr a r k)
  unfolding relocate_got
  relocate_got-Free zero d hdr a r k = search stubs depth 3
  relocate_got-Free (suc n) d hdr a r k = search (specs, stubs, relocate_got-Free n) depth 9

module _ {W : Type 0} (sys : System W) (free : ℕ → Bool) where
  fill_program-Free :
      (hdr : Header) (a i o r c : ℕ) → KeepsKeys free (fill_program sys hdr a i o r c)
  unfolding fill_program
  fill_program-Free hdr a i o r c =
      search (specs, stubs, copy_data-Free, zero_rest-Free, relocate_got-Free) depth 20

module _ {W : Type 0} (free : ℕ → Bool) where
  -- The result of an allocation, for what follows it.
  pub Spec-bind-Allocated :
      {A : Type 0} (Q : A → Process W → Type 0) (m : User W (Option ℕ)) (f : Option ℕ → User W A)
      → Spec (Free free) (Allocated free) m
      → Spec (Free free) Q (f none)
      → ((k : ℕ) → 1 ≤ k → k < 16 → free k ≡ true → Spec (Free (without free k)) Q (f (some k)))
      → Spec (Free free) Q (m >>= f)
  unfolding ◌>>=◌
  Spec-bind-Allocated Q m f km kn kf = record {
    at = λ p h. and_then-Ensures_of (Allocated free) Q (m p) f (km.at p h) (Spec-case Q f kn kf);
  }
    where
      Spec-case :
          {A : Type 0} (Q : A → Process W → Type 0) (f : Option ℕ → User W A)
          → Spec (Free free) Q (f none)
          → ((k : ℕ) → 1 ≤ k → k < 16 → free k ≡ true → Spec (Free (without free k)) Q (f (some k)))
          → (o : Option ℕ) (q : Process W) → Allocated free o q
          → Ensures Q (f o q)
      Spec-case Q f kn kf none q h = kn.at q h
      Spec-case Q f kn kf (some k) q h = (kf k h.positive h.small h.was_free).at q h.rest

module _ {W : Type 0} (sys : System W) (free : ℕ → Bool) where
  load_into-Allocated :
      (hdr : Header) (a i o k_ram : ℕ)
      → 1 ≤ k_ram
      → free k_ram ≡ true
      → Spec (Free (without free k_ram)) (Allocated free) (load_into sys hdr a i o k_ram)
  unfolding load_into maybe
  load_into-Allocated hdr a i o k_ram le e =
      Spec-bind-Allocated (without free k_ram) _ _ _
        (alloc_mem-Allocated sys _ (context_l2_size - 1) 0)
        (Spec-bind _ _ _ _ (free_mem-Free sys _ k_ram)
          λ _. Spec-drop free k_ram _ _ le e (none-Allocated free))
        λ k le' lt e'. Spec-then _ _ _ _ (become-Free sys _ k _ _) (
          Spec-then _ _ _ _ (fill_program-Free sys _ hdr a i o k_ram k) (
            Spec-swap free k k_ram _ _ (
              Spec-drop (without free k) k_ram _ _ le (ground (arith, e, e')) (
                Spec-pure _ _ _ λ p h. record {
                  positive = le';
                  small = lt;
                  was_free = ground (arith, e');
                  rest = h;
                }))))

  load_image-Allocated : (a i o s : ℕ) → Spec (Free free) (Allocated free) (load_image sys a i o s)
  unfolding load_image maybe
  load_image-Allocated a i o s = Spec-bind _ _ _ _ (read_header-Free sys free i o s) λ hdr.
      Spec-if _ _ (not (is_valid sys.frame_size hdr)) _ _ (none-Allocated free) (
        Spec-bind-Allocated free _ _ _
          (alloc_mem-Allocated sys free ((ctz (get_ram_size hdr) + 2 ^ 32 - 1) % 2 ^ 32)
            (ram_brand sys))
          (none-Allocated free) λ k le lt e. load_into-Allocated hdr a i o k le e)

  pub load_program-Allocated : (a i : ℕ) → Spec (Free free) (Allocated free) (load_program sys a i)
  unfolding load_program
  load_program-Allocated a i = search (specs, stubs, none-Allocated, load_image-Allocated) depth 20

-- Loading a program that returns takes one key register, from 1 to 15 and free before, for the key of
-- the new context, or returns nothing and takes none: every other register is as free as it was.
pub load_program-balance :
    {W : Type 0} (sys : System W) (img_addr img_key : ℕ) (p q : Process W) (o : Option ℕ)
    → load_program sys img_addr img_key p ≡ ok o q
    → Allocated p.available o q
unfolding Free
load_program-balance sys img_addr img_key p q o =
    Ensures-ok _ _ o q ((load_program-Allocated sys p.available img_addr img_key).at p (λ i. refl))
