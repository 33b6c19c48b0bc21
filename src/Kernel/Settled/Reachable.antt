-- ===== src/Kernel/Settled/Reachable.antt =====
-- The invariant of Kernel/Settled in every state that the kernel reaches from boot, and what it gives:
-- lists in good order, and entries that end.
use brittle_kernel.Prelude.{ℕ, ◌+◌, ◌*◌, ◌≤◌, ◌<◌, ◌≡◌, ◌≢◌, false, arith, zero, suc, refl}
use brittle_kernel.Run.{ok, out_of_fuel}
use brittle_kernel.Run.Keeps.{Ensures-ok}
use brittle_kernel.Links.Laid.Operations.{Laid-Woven}
use brittle_kernel.Links.Woven.{Woven, blocked}
use brittle_kernel.Kernel.{Kernel}
use brittle_kernel.Kernel.Boot.{AppInfo, BootLibrary, reset, start_app, table_size}
use brittle_kernel.Kernel.Events.{Event, perform, Reaches, here, step}
use brittle_kernel.Kernel.Fuel.Events.{perform-fuel}
use brittle_kernel.Kernel.Hardware.{Platform}
use brittle_kernel.Kernel.Safety.Events.{reachable-null_key}
use brittle_kernel.Kernel.Settled.{settled}
use brittle_kernel.Kernel.Settled.Boot.{Leads-start_app, reset-Settled}
use brittle_kernel.Kernel.Settled.Creation.{Sound, Settled-Sound, live_at}
use brittle_kernel.Kernel.Settled.Entries.{Keeps-perform}

Reaches-Sound : (n fuel : ℕ) (j k : Kernel) → Sound n j → Reaches fuel j k → Sound n k
Reaches-Sound n fuel j k h here = h
Reaches-Sound n fuel j k h (step {k = i} e r eq) =
    Ensures-ok _ _ tt k ((Keeps-perform n fuel e).at i (Reaches-Sound n fuel j i h r)) eq

-- After the kernel has booted an application, in every state that a sequence of entries reaches: the
-- table has the size that booting gave it, and no object beyond it; `next` and `prev` undo each
-- other, no list runs into another, and only the nodes of contexts, gates and interrupts are
-- linked; and the current context and the handlers of interrupts are among these objects. An entry
-- that uses the kernel's own memory, through a Memory object or by a store, leads to no state.
pub reachable-Sound :
    (lib : BootLibrary) (app : AppInfo) (p : Platform) (fuel : ℕ) (j k : Kernel)
    → start_app lib app (reset p) ≡ ok tt j
    → Reaches fuel j k
    → Sound (table_size lib app) k
reachable-Sound lib app p fuel j k boot r =
    Reaches-Sound (table_size lib app) fuel j k
      (Settled-Sound _ _ j
        (Ensures-ok _ _ tt j ((Leads-start_app lib app).at (reset p) (reset-Settled p)) boot))
      r

module _ (n : ℕ) (k : Kernel) (h : Sound n k) where
  beyond-live : (i : ℕ) → n ≤ i → live_at k i ≡ false
  unfolding settled
  beyond-live i le = rw (h.beyond i le) refl

  Sound-Woven : Woven (8 * n + 8) k.links
  Sound-Woven = Laid-Woven (live_at k) n k.links beyond-live h.lists

blocked-bound : (n : ℕ) (k : Kernel) → blocked n k.links ≤ n
unfolding blocked
blocked-bound zero k = omega arith
blocked-bound (suc n) k = ground (arith, blocked-bound n k)

-- After the kernel has booted an application with a table of n objects, in every state that a
-- sequence of entries reaches, every entry returns or panics on any fuel above 8 n + 8. An entry that
-- uses the kernel's own memory, through a Memory object or by a store, counts as one that panics.
pub reachable-perform :
    (lib : BootLibrary) (app : AppInfo) (p : Platform) (fuel : ℕ) (j k : Kernel)
    → start_app lib app (reset p) ≡ ok tt j
    → Reaches fuel j k
    → (more : ℕ) (e : Event) → 8 * table_size lib app + 8 < more
    → perform more e k ≢ out_of_fuel
reachable-perform lib app p fuel j k boot r more e lt =
    perform-fuel (8 * table_size lib app + 8) more e k
      (reachable-null_key lib app p fuel j k boot r)
      (Sound-Woven _ k (reachable-Sound lib app p fuel j k boot r))
      (omega (arith, lt, blocked-bound (8 * table_size lib app + 8) k))
