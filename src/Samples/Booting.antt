-- ===== src/Samples/Booting.antt =====
-- The image of the serial application on a machine whose arena holds no more than its donated RAM.
use brittle_kernel.Prelude.{◌+◌, ◌≡◌, refl, some, none, leb, if◌then◌else◌}
use brittle_kernel.Run.{ok, ◌>>◌}
use brittle_kernel.Links
use brittle_kernel.Kernel.{Kernel, gets, modify, on_lists, emit}
use brittle_kernel.Kernel.Boot.{BootLibrary, reset, start_app}
use brittle_kernel.Kernel.Scheduler.{load_region}
use brittle_kernel.Samples.Machine.{armv7m, library, state_or}
use brittle_kernel.User.Image.{Symbols, app_info, kernel_donation}

abbrev symbols : Symbols
symbols = record {
  sys_initial_stack = 0x20001000;
  reset_handler = 0x08008201;
  sys_rom_start = 0x08008000;
  sys_rom_end = 0x08010000;
  sys_ram0_start = 0x20000000;
  sys_ram0_end = 0x20001000;
  app_ram1_start = 0x20010000;
  app_ram1_end = 0x20020000;
}

abbrev donated : BootLibrary
donated = record library {
  allocate =
      λ used size. if leb (used + size) (kernel_donation 4) then some (used + size) else none;
}

unfoldable image_booted : Kernel
unfolding start_app app_info kernel_donation
image_booted = state_or (reset armv7m) (start_app donated (app_info armv7m symbols) (reset armv7m))

image_boots : start_app donated (app_info armv7m symbols) (reset armv7m) ≡ ok tt image_booted
unfolding start_app reset image_booted app_info kernel_donation ◌>>◌ modify gets on_lists emit
    load_region Links.peek
image_boots = refl
