-- ===== src/Kernel/Scheduler/Switch.antt =====
-- Which context runs after a switch: switch_now of k/scheduler.cc, and Context::apply_to_mpu.
use brittle_kernel.Prelude.{ℕ, zero, suc, ◌+◌, ◌≡◌, refl, none, some, true, false, ◌∷◌}
use brittle_kernel.Run.{ok, panic, require, no_runnable_contexts, pure, ◌>>=◌, ◌>>◌}
use brittle_kernel.Abi.Sizes.{n_task_regions}
use brittle_kernel.Links.Queue.{Queue, Holds, front}
use brittle_kernel.Links.Remove.{peek-front}
use brittle_kernel.Kernel.{Kernel, gets, modify, emit, owner, runnable_list}
use brittle_kernel.Kernel.Hardware.{mpu_enable}
use brittle_kernel.Kernel.Keys.{get_region}
use brittle_kernel.Kernel.Scheduler.{
  load_region, load_regions, apply_to_mpu, apply_current, switch_now,
}

-- Loading regions returns, and leaves the current context and the run queue alone.
load_regions-current :
    (c n i : ℕ) (k : Kernel)
    → (l : Kernel) × (load_regions c n i k ≡ ok tt l) × (l.current ≡ k.current)
unfolding load_regions load_region get_region emit gets ◌>>=◌ ◌>>◌ pure
load_regions-current c zero i k = (k, refl, refl)
load_regions-current c (suc n) i k = load_regions-current c n (i + 1) _

apply_to_mpu-current :
    (c : ℕ) (k : Kernel) → (l : Kernel) × (apply_to_mpu c k ≡ ok tt l) × (l.current ≡ k.current)
unfolding apply_to_mpu emit ◌>>=◌ ◌>>◌
apply_to_mpu-current c k =
    let r = load_regions-current c n_task_regions 0 (record k { hw = mpu_enable false ∷ k.hw }) in
    (record r.0 { hw = mpu_enable true ∷ r.0.hw }, rw r.1, r.2)

-- Where the run queue is in good shape and not empty, a switch returns, and the current context is
-- then the oldest one of the most urgent priority that has one.
pub switch_now-front :
    (k : Kernel) (q : Queue) (it : ℕ)
    → Holds k.links runnable_list q
    → front q ≡ some it
    → (l : Kernel) × (switch_now k ≡ ok tt l) × (l.current ≡ owner it)
unfolding switch_now apply_current require gets modify ◌>>=◌ ◌>>◌
switch_now-front k q it h e =
    let r = apply_to_mpu-current (owner it) (record k { current = owner it }) in
    (r.0, rw (peek-front k.links runnable_list q h, e) r.1, r.2)

-- Where the run queue is in good shape and empty, a switch panics for want of a context to run.
pub switch_now-empty :
    (k : Kernel) (q : Queue)
    → Holds k.links runnable_list q
    → front q ≡ none
    → switch_now k ≡ panic no_runnable_contexts
unfolding switch_now require gets ◌>>=◌
switch_now-empty k q h e = rw (peek-front k.links runnable_list q h, e)
