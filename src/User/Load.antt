-- ===== src/User/Load.antt =====
-- a/sys/load.cc: the loader of programs. A program's image is a header, text and initialized data,
-- which begins with the global offset table; its RAM holds data, BSS and stack.
pub mod Balance
pub mod Fits
pub mod Image
use brittle_kernel.Prelude.{
  ℕ, zero, suc, ◌+◌, ◌-◌, ◌*◌, ◌/◌, ◌%◌, ◌^◌, Bool, true, false, not, Option, none, some, ◌==◌, ltb,
  if◌then◌else◌,
}
use brittle_kernel.Run.{pure, maybe, ◌>>=◌, ◌>>◌}
use brittle_kernel.Abi.Sizes.{context_l2_size}
use brittle_kernel.User.{System, User}
use brittle_kernel.User.Alloc.{alloc_mem, free_mem}
use brittle_kernel.User.Keys.{drop_key}
use brittle_kernel.User.Load.Image.{Header, is_valid, get_ram_size, relocate_got_entry, ctz}
use brittle_kernel.User.Stubs.Context.{set_region, set_register, register_r9, register_sp}
use brittle_kernel.User.Stubs.Memory.{
  Region, inspect, become, peek, poke, contains, get_base, type_context,
}

module _ {W : Type 0} (sys : System W) where
  -- The words of the header after the first, which is `image_size`.
  unfoldable pub read_header : ℕ → ℕ → ℕ → User W Header
  unfolding peek
  read_header img_key img_offset img_size = do
    text_end ← peek sys img_key ((img_offset + 1) % 2 ^ 32)
    got_end ← peek sys img_key ((img_offset + 2) % 2 ^ 32)
    bss_end ← peek sys img_key ((img_offset + 3) % 2 ^ 32)
    stack_size ← peek sys img_key ((img_offset + 4) % 2 ^ 32)
    entry ← peek sys img_key ((img_offset + 5) % 2 ^ 32)
    pure (record {
      image_size = img_size;
      text_end = text_end;
      got_end = got_end;
      bss_end = bss_end;
      stack_size = stack_size;
      entry = entry;
    })

  -- The three loops over the words of the RAM, from `d_off` for the rounds left.
  unfoldable pub copy_data : ℕ → ℕ → ℕ → ℕ → ℕ → User W (Unit {0})
  unfolding peek poke
  copy_data zero d_off img_key source k_ram = pure tt
  copy_data (suc n) d_off img_key source k_ram = do
    word ← peek sys img_key ((source + d_off) % 2 ^ 32)
    poke sys k_ram d_off word
    copy_data n (d_off + 1) img_key source k_ram

  unfoldable pub zero_rest : ℕ → ℕ → ℕ → User W (Unit {0})
  unfolding poke
  zero_rest zero d_off k_ram = pure tt
  zero_rest (suc n) d_off k_ram = do poke sys k_ram d_off 0; zero_rest n (d_off + 1) k_ram

  unfoldable pub relocate_got : ℕ → ℕ → Header → ℕ → ℕ → ℕ → User W (Unit {0})
  unfolding peek poke relocate_got_entry
  relocate_got zero d_off hdr img_addr ram_addr k_ram = pure tt
  relocate_got (suc n) d_off hdr img_addr ram_addr k_ram = do
    entry ← peek sys k_ram d_off
    poke sys k_ram d_off (relocate_got_entry hdr img_addr ram_addr entry)
    relocate_got n (d_off + 1) hdr img_addr ram_addr k_ram

  -- Fills the RAM, and then the context.
  unfoldable pub fill_program : Header → ℕ → ℕ → ℕ → ℕ → ℕ → User W (Unit {0})
  unfolding copy_data zero_rest relocate_got inspect get_base poke set_region set_register
      get_ram_size
  fill_program hdr img_addr img_key img_offset k_ram k_ctx = do
    let ram_bytes = get_ram_size hdr
    let text_words = hdr.text_end / 4
    let data_words = hdr.image_size / 4 - text_words
    copy_data data_words 0 img_key (img_offset + text_words) k_ram
    let ram_words = ram_bytes / 4
    zero_rest (ram_words - data_words) data_words k_ram
    let got_words = hdr.got_end / 4 - text_words
    ram_region ← inspect sys k_ram
    relocate_got got_words 0 hdr img_addr (get_base ram_region) k_ram
    poke sys k_ram ((ram_words + 2 ^ 32 - 1) % 2 ^ 32) (2 ^ 24)
    poke sys k_ram ((ram_words + 2 ^ 32 - 2) % 2 ^ 32) ((hdr.entry + img_addr) % 2 ^ 32)
    set_region sys k_ctx 0 img_key
    set_region sys k_ctx 1 k_ram
    set_register sys k_ctx register_r9 (get_base ram_region)
    set_register sys k_ctx register_sp
        ((get_base ram_region + ram_bytes + 2 ^ 32 - sys.frame_size) % 2 ^ 32)

  -- `uint32_t(Rasr().with_ap(p_write_u_write)) >> 8`.
  abbrev pub ram_brand : ℕ
  ram_brand = sys.platform.with_ap sys.platform.p_write_u_write 0 / 2 ^ 8

  -- From the RAM on. `k_ram` is released at the end of its scope; `k_ctx` is moved to the result.
  unfoldable pub load_into : Header → ℕ → ℕ → ℕ → ℕ → User W (Option ℕ)
  unfolding alloc_mem free_mem become fill_program drop_key context_l2_size
  load_into hdr img_addr img_key img_offset k_ram = do
    maybe_k_ctx ← alloc_mem sys (context_l2_size - 1) 0
    maybe maybe_k_ctx (do _ ← free_mem sys k_ram; drop_key k_ram; pure none)
        λ k_ctx. do
          become sys k_ctx type_context 0
          fill_program hdr img_addr img_key img_offset k_ram k_ctx
          drop_key k_ram
          pure (some k_ctx)

  -- The image lies in the memory object.
  unfoldable pub load_image : ℕ → ℕ → ℕ → ℕ → User W (Option ℕ)
  unfolding read_header is_valid get_ram_size ctz alloc_mem load_into
  load_image img_addr img_key img_offset img_size = do
    hdr ← read_header img_key img_offset img_size
    if not (is_valid sys.frame_size hdr) then pure none else do
      maybe_k_ram ← alloc_mem sys ((ctz (get_ram_size hdr) + 2 ^ 32 - 1) % 2 ^ 32) ram_brand
      maybe maybe_k_ram (pure none) (λ k_ram. load_into hdr img_addr img_key img_offset k_ram)

  unfoldable pub load_program : ℕ → ℕ → User W (Option ℕ)
  unfolding inspect contains get_base peek load_image
  load_program img_addr img_key = if not (img_addr % 4 == 0) then pure none else do
    img_region ← inspect sys img_key
    if not (contains img_region img_addr) then pure none else do
      let img_offset = (img_addr + 2 ^ 32 - get_base img_region) % 2 ^ 32 / 4
      img_size ← peek sys img_key img_offset
      if not (contains img_region ((img_addr + img_size) % 2 ^ 32))
          then pure none
          else do load_image img_addr img_key img_offset img_size
