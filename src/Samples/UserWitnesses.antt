-- ===== src/Samples/UserWitnesses.antt =====
-- The theorems on the programs under a/, at a kernel that answers every call: the image at 0x8000 is a
-- header with a few words of text and data.
use brittle_kernel.User.Driver.Replies.{Responds, arrival, driver_round-Responds}
use brittle_kernel.User.Driver.{Board, driver_round, sent_reply}
use brittle_kernel.Abi.Exceptions.{bad_operation}
use brittle_kernel.Prelude.{
  ℕ, ◌+◌, ◌-◌, ◌*◌, ◌/◌, ◌≤◌, ◌<◌, ◌≡◌, refl, false, none, some, inr, arith, ◌==◌, if◌then◌else◌,
  leb,
}
use brittle_kernel.Run.{Run, ok, panic, out_of_fuel, ◌>>=◌, ◌>>◌}
use brittle_kernel.Abi.Descriptor.{get_selector, get_error}
use brittle_kernel.Abi.Message.{Message, zero_message}
use brittle_kernel.User.{System, Process, reads, writes}
use brittle_kernel.User.Alloc.{alloc_slot_int, fixed_slot_count, alloc_mem}
use brittle_kernel.User.Alloc.Balance.{Allocated, alloc_mem-balance}
use brittle_kernel.User.Alloc.Slots.{alloc_slot_int-distinct, alloc_mem-refused}
use brittle_kernel.User.Keys.{initially_available, auto_key, drop_key}
use brittle_kernel.User.Keys.Held.{Held}
use brittle_kernel.User.Keys.Registers.{auto_key-returns, auto_key-drop_key}
use brittle_kernel.User.Load.{load_program}
use brittle_kernel.User.Load.Balance.{load_program-balance}
use brittle_kernel.User.Load.Fits.{get_ram_size-fits}
use brittle_kernel.User.Load.Image.{Header, is_valid, get_ram_size}
use brittle_kernel.User.Server.{serve_round, make_error_reply}
use brittle_kernel.User.Server.Replies.{Answers, request, serve_round-Answers}
use brittle_kernel.User.Setup.{Images, app_setup}
use brittle_kernel.User.Setup.Balance.{app_setup-balance}
use brittle_kernel.Samples.Machine.{armv7m}

-- The words of the header; every word behind it is 7.
abbrev image : ℕ → ℕ
image i =
    if i == 0
    then 32
    else if i == 1
    then 16
    else if i == 2
    then 24
    else if i == 3
    then 48
    else if i == 4
    then 64
    else if i == 5
    then 0
    else 7

-- `peek` reads the image; the other answers describe a region of 2^10 bytes at 0x8000.
abbrev answer : Message → Message
answer m =
    if get_selector m.desc == 5
    then record zero_message { d0 = image m.d0 }
    else record zero_message { d0 = 0x8000; d1 = 18 }

-- The world counts the calls.
abbrev system : System ℕ
system = record {
  svc = λ m s r w. record { message = answer m; brand = 5; world = w + 1 };
  svc_copy_key = λ d w. w + 1;
  memory_map_count = 4;
  device_map_count = 0;
  extra_slot_count = 5;
  frame_size = 32;
  idle_stack_address = 0x20000000;
  idle_main_address = 0x100;
  platform = armv7m;
}

-- Key registers 1 to 3 are taken, and there are blocks of 2^8 and 2^9 bytes.
abbrev started : Process ℕ
started = record {
  available = λ i. if leb i 3 then false else initially_available i;
  slots_used = 0;
  mem_roots = λ l. if l == 7 then 20 else if l == 8 then 21 else 0;
  idle_stack = λ i. 0;
  receive_count = 0;
  send_count = 0;
  world = 0;
}

abbrev state_of : {A : Type 0} → Process ℕ → Run (Process ℕ) A → Process ℕ
state_of p (ok a q) = q
state_of p (panic e) = p
state_of p out_of_fuel = p

-- A block of 2^5 bytes is split off one of 2^8.
unfoldable after_alloc : Process ℕ
unfolding alloc_mem
after_alloc = state_of started (alloc_mem system 4 0 started)

alloc_returns : alloc_mem system 4 0 started ≡ ok (some 4) after_alloc
unfolding alloc_mem after_alloc ◌>>=◌ reads ◌>>◌ writes get_selector
alloc_returns = refl

alloc_mem-balance_example : Allocated started.available (some 4) after_alloc
alloc_mem-balance_example = alloc_mem-balance system 4 0 started after_alloc (some 4) alloc_returns

alloc_mem-refused_example : alloc_mem system 9 0 started ≡ ok none started
alloc_mem-refused_example =
    alloc_mem-refused system 9 0 started (inr (λ j le lt. ground (arith, le)))

abbrev after_key : Process ℕ
after_key = record started { available = λ i. if i == 4 then false else started.available i }

key_returns : auto_key started ≡ ok 4 after_key
unfolding auto_key ◌>>=◌ reads ◌>>◌ writes
key_returns = refl

auto_key-drop_key_example : drop_key 4 after_key ≡ ok tt started
auto_key-drop_key_example = auto_key-drop_key started after_key 4 key_returns

auto_key-returns_example :
    (k : ℕ) × ((q : Process ℕ) × ((auto_key started ≡ ok k q) × Held started.available k q))
auto_key-returns_example = auto_key-returns started 15 (omega arith) (omega arith) refl

abbrev after_slot : Process ℕ
after_slot = record started { slots_used = 1 }

first_slot : alloc_slot_int system started ≡ ok (some 8) after_slot
unfolding alloc_slot_int
first_slot = refl

second_slot : alloc_slot_int system after_slot ≡ ok (some 9) (record started { slots_used = 2 })
unfolding alloc_slot_int
second_slot = refl

alloc_slot_int-distinct_example : (fixed_slot_count system ≤ 8) × (8 < 9)
alloc_slot_int-distinct_example =
    alloc_slot_int-distinct system started after_slot after_slot (record started { slots_used = 2 })
      8 9 (record { used = omega arith; fits = omega arith }) first_slot (omega arith)
      (record { used = omega arith; fits = omega arith }) second_slot

unfoldable after_load : Process ℕ
unfolding load_program
after_load = state_of started (load_program system 0x8000 2 started)

load_returns : load_program system 0x8000 2 started ≡ ok (some 5) after_load
unfolding load_program after_load ◌>>=◌ reads ◌>>◌ writes get_selector
load_returns = refl

load_program-balance_example : Allocated started.available (some 5) after_load
load_program-balance_example =
    load_program-balance system 0x8000 2 started after_load (some 5) load_returns

abbrev header : Header
header = record {
  image_size = 32;
  text_end = 16;
  got_end = 24;
  bss_end = 48;
  stack_size = 64;
  entry = 0;
}

get_ram_size-fits_example :
    (24 / 4 - 16 / 4 ≤ 32 / 4 - 16 / 4)
    × ((4 * (32 / 4 - 16 / 4) ≤ header.bss_end - 16)
        × (header.bss_end - 16 + header.stack_size ≤ get_ram_size header)
        × (32 ≤ header.stack_size))
unfolding is_valid
get_ram_size-fits_example = get_ram_size-fits 32 header refl (omega arith)

abbrev images : Images
images = record { drv_stm32f4_uart = 0x8000; srv_ascii = 0x8000; usart2 = 38 }

-- Every list has a block.
abbrev stocked : Process ℕ
stocked = record started { mem_roots = λ l. 20 }

unfoldable after_setup : Process ℕ
unfolding app_setup
after_setup = state_of stocked (app_setup system images stocked)

setup_returns : app_setup system images stocked ≡ ok tt after_setup
unfolding app_setup after_setup ◌>>=◌ reads ◌>>◌ writes get_selector
setup_returns = refl

app_setup-balance_example : after_setup.available 7 ≡ stocked.available 7
app_setup-balance_example = app_setup-balance system images stocked after_setup 7 setup_returns

-- A round of the server that gets a request with an unknown selector.
unfoldable refusal : Message
unfolding make_error_reply
refusal = make_error_reply 4 bad_operation

round_returns :
    serve_round system 4 5 zero_message started ≡ ok (some refusal) (record started { world = 1 })
unfolding serve_round refusal ◌>>=◌ get_selector
round_returns = refl

serve_round-Answers_example :
    Answers 4 (get_error (request system 4 5 zero_message started).desc) refusal
serve_round-Answers_example =
    serve_round-Answers system 4 5 zero_message refusal started (record started { world = 1 })
      (omega arith) round_returns

-- A board whose registers the world does not keep.
abbrev board : Board ℕ
board = record {
  enable_apb1_clock = λ n w. w;
  enable_ahb1_clock = λ n w. w;
  write_cr1_ue = λ w. w;
  write_brr = λ v w. w;
  set_two_stop_bits = λ w. w;
  set_te_re = λ w. w;
  set_mode_alternate = λ w. w;
  set_alternate_function = λ f w. w;
  read_cr1 = λ w. 0;
  write_cr1 = λ v w. w;
  write_dr = λ c w. w;
  with_txeie = λ e v. v;
}

-- The driver gets a request to send a character.
abbrev sender : System ℕ
sender = record system {
  svc = λ m s r w. record {
    message = record zero_message { desc = 1; d0 = 65 };
    brand = 0;
    world = w + 1;
  };
}

unfoldable after_round : Process ℕ
unfolding driver_round
after_round = state_of started (driver_round sender board zero_message started)

driver_returns : driver_round sender board zero_message started ≡ ok sent_reply after_round
unfolding driver_round after_round sent_reply ◌>>=◌ ◌>>◌ writes get_selector
driver_returns = refl

driver_round-Responds_example :
    Responds
      (get_error (arrival sender zero_message started).desc)
      (get_selector (arrival sender zero_message started).desc == 1)
      sent_reply
unfolding get_error get_selector
driver_round-Responds_example =
    driver_round-Responds sender board zero_message sent_reply started after_round refl
      driver_returns
