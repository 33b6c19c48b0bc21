-- ===== src/User/Startup.antt =====
-- a/sys/main.cc and a/sys/idle.cc: how the system program starts.
use brittle_kernel.Prelude.{ℕ, zero, suc, ◌+◌, ◌-◌, ◌*◌, ◌%◌, ◌^◌, Option, update}
use brittle_kernel.Run.{pure, ref, ◌>>=◌, ◌>>◌}
use brittle_kernel.Abi.Message.{Message}
use brittle_kernel.Abi.Sizes.{
  well_known_object_count, oi_first_context, context_l2_size, gate_l2_size,
}
use brittle_kernel.User.{System, User, writes, assert}
use brittle_kernel.User.Alloc.{alloc_mem, free_mem, ki_ot, ki_self, ki_syscall_gate}
use brittle_kernel.User.Ipc.{copy_key}
use brittle_kernel.User.Keys.{reserve_key, drop_key}
use brittle_kernel.User.Server.{serve_syscalls}
use brittle_kernel.User.Stubs.Context.{
  get_region, set_region, set_register, set_priority, make_runnable, register_sp,
}
use brittle_kernel.User.Stubs.Memory.{become, type_context, type_gate}
use brittle_kernel.User.Stubs.ObjectTable.{mint_key}

abbrev pub oi_sys_rom : ℕ
oi_sys_rom = well_known_object_count + 0

abbrev pub oi_app_ram : ℕ
oi_app_ram = well_known_object_count + 2

abbrev pub oi_apb : ℕ
oi_apb = well_known_object_count + 3

module _ {W : Type 0} (sys : System W) where
  unfoldable pub make_gate : User W ℕ
  unfolding alloc_mem become gate_l2_size
  make_gate = do
    maybe_k ← alloc_mem sys (gate_l2_size - 1) 0
    k ← ref maybe_k
    become sys k type_gate 0
    pure k

  unfoldable pub feed_allocator : User W (Unit {0})
  unfolding mint_key free_mem assert drop_key
  feed_allocator = do
    k_app_ram ← mint_key sys ki_ot oi_app_ram 0
    freed ← free_mem sys k_app_ram
    assert freed
    drop_key k_app_ram

  unfoldable pub make_self_key : User W (Unit {0})
  unfolding mint_key copy_key drop_key
  make_self_key = do
    k_self ← mint_key sys ki_ot oi_first_context 0
    copy_key sys ki_self k_self
    drop_key k_self

  -- The loop of `prepare_idle_task` over the two regions, for the rounds left.
  unfoldable pub share_regions : ℕ → ℕ → ℕ → User W (Unit {0})
  unfolding get_region set_region drop_key
  share_regions zero i k_ctx = pure tt
  share_regions (suc n) i k_ctx = do
    k_reg ← get_region sys ki_self i
    set_region sys k_ctx i k_reg
    drop_key k_reg
    share_regions n (i + 1) k_ctx

  abbrev idle_stack_words : ℕ
  idle_stack_words = 16

  unfoldable pub prepare_idle_task : ℕ → User W (Unit {0})
  unfolding share_regions set_register set_priority
  prepare_idle_task k_ctx = do
    share_regions 2 0 k_ctx
    writes (λ p. record p { idle_stack = update p.idle_stack (idle_stack_words - 1) (2 ^ 24) })
    writes (λ p. record p {
      idle_stack = update p.idle_stack (idle_stack_words - 2) sys.idle_main_address;
    })
    set_register sys k_ctx register_sp
        ((sys.idle_stack_address + 4 * (idle_stack_words - 8)) % 2 ^ 32)
    set_priority sys k_ctx 1

  unfoldable pub make_idle_task : User W (Unit {0})
  unfolding alloc_mem become prepare_idle_task make_runnable drop_key context_l2_size
  make_idle_task = do
    maybe_k ← alloc_mem sys (context_l2_size - 1) 0
    k_ctx ← ref maybe_k
    become sys k_ctx type_context 0
    prepare_idle_task k_ctx
    make_runnable sys k_ctx
    drop_key k_ctx

  unfoldable pub make_syscall_gate : User W (Unit {0})
  unfolding make_gate copy_key drop_key
  make_syscall_gate = do k ← make_gate; copy_key sys ki_syscall_gate k; drop_key k

  -- `main`, for a number of rounds of the server; `app_setup` is the application's.
  unfoldable pub main : User W (Unit {0}) → ℕ → User W (Option Message)
  unfolding reserve_key feed_allocator make_self_key make_syscall_gate make_idle_task serve_syscalls
  main app_setup n = do
    reserve_key ki_ot
    reserve_key ki_self
    reserve_key ki_syscall_gate
    feed_allocator
    make_self_key
    make_syscall_gate
    make_idle_task
    app_setup
    serve_syscalls sys n
