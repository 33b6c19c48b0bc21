-- ===== src/Kernel.antt =====
-- k/: the state of the kernel. An `Object *` is the object's index in the object table, in which
-- every object's head lives; a body in donated RAM is kept with the head that refers to it. The list
-- items and list roots of object `i` stand at fixed addresses of `Links`.
pub mod Boot
pub mod Delivery
pub mod Dispatch
pub mod Events
pub mod Fuel
pub mod Hardware
pub mod Keys
pub mod Memory
pub mod Objects
pub mod Protocol
pub mod Safety
pub mod Scheduler
pub mod Settled
use brittle_kernel.Prelude.{
  ℕ, ◌+◌, ◌-◌, ◌*◌, ◌/◌, ◌%◌, ◌^◌, Bool, true, false, Option, none, some, List, [], ◌∷◌, update,
}
use brittle_kernel.Run.{Cmd, Run, ok, panic, out_of_fuel, pure}
use brittle_kernel.Abi.Message.{Message, ReceivedMessage}
use brittle_kernel.Links.{Links}
use Hardware.{Platform, HwOp}

-- k/key.h. `ptr` is `none` for nullptr.
pub record Key : Type 0 where
  pub brand : ℕ
  pub generation : ℕ
  pub ptr : Option ℕ

-- A value-initialised key, `Key{}`.
abbrev pub empty_key : Key
empty_key = record { brand = 0; generation = 0; ptr = none }

-- Context::State.
pub data State : Type 0 where
  stopped runnable sending receiving : State

-- Context::Body without its list items. `save` is the union SavedRegisters, seen as words.
pub record ContextBody : Type 0 where
  pub save : ℕ → ℕ
  pub keys : ℕ → Key
  pub priority : ℕ
  pub state : State
  pub saved_brand : ℕ
  pub memory_regions : ℕ → Key
  pub expected_reply_brand : ℕ

-- The members of Memory.
pub record MemoryHead : Type 0 where
  pub base : ℕ
  pub size_bytes : ℕ
  pub attributes : ℕ
  pub parent : Option ℕ
  pub child_count : ℕ

-- Interrupt::Body without its list item.
pub record InterruptBody : Type 0 where
  pub saved_brand : ℕ
  pub target : Key
  pub priority : ℕ
  pub identifier : ℕ

-- Object::Kind, with what an object of each kind holds.
pub data Object : Type 0 where
  null : Object
  object_table : Object
  slot : Object
  memory : MemoryHead → Object
  context : ContextBody → Object
  gate : Object
  interrupt : InterruptBody → Object

-- `get_kind`, as the number of the enumerator.
abbrev pub kind : Object → ℕ
kind null = 0
kind object_table = 1
kind slot = 2
kind (memory m) = 3
kind (context b) = 4
kind gate = 5
kind (interrupt b) = 6

-- An object table entry: the object, and the generation of its base class.
pub record Entry : Type 0 where
  pub generation : ℕ
  pub object : Object

pub record Kernel : Type 0 where
  pub count : ℕ
  pub objects : ℕ → Entry
  pub links : Links
  pub current : ℕ
  pub switch_pending : Bool
  pub irq_count : ℕ
  pub irq_table : ℕ → Option ℕ
  pub words : ℕ → ℕ
  -- The byte addresses that hold the data of the kernel, bodies of its objects included.
  pub own : ℕ → Bool
  pub hw : List HwOp
  pub platform : Platform

-- Addresses: the runnable list, and the items and lists of object `i`.
abbrev pub runnable_list : ℕ
runnable_list = 0

abbrev pub ctx_item : ℕ → ℕ
ctx_item i = 8 * i + 8

abbrev pub sender_item : ℕ → ℕ
sender_item i = 8 * i + 9

abbrev pub senders : ℕ → ℕ
senders i = 8 * i + 10

abbrev pub receivers : ℕ → ℕ
receivers i = 8 * i + 12

-- The member `owner` of an item.
unfoldable pub owner : ℕ → ℕ
owner a = a / 8 - 1

abbrev pub blank_context : ContextBody
blank_context = record {
  save = λ _. 0;
  keys = λ _. empty_key;
  priority = 0;
  state = stopped;
  saved_brand = 0;
  memory_regions = λ _. empty_key;
  expected_reply_brand = 0;
}

abbrev pub blank_interrupt : ℕ → InterruptBody
blank_interrupt id = record { saved_brand = 0; target = empty_key; priority = 0; identifier = id }

abbrev blank_memory : MemoryHead
blank_memory = record { base = 0; size_bytes = 0; attributes = 0; parent = none; child_count = 0 }

-- The static_casts of the source. An object of another kind reads as a blank one and is not
-- written; the source casts only where the kind is known.
abbrev pub as_context : Object → ContextBody
as_context (context b) = b
as_context _ = blank_context

abbrev pub as_memory : Object → MemoryHead
as_memory (memory m) = m
as_memory _ = blank_memory

abbrev pub as_interrupt : Object → InterruptBody
as_interrupt (interrupt b) = b
as_interrupt _ = blank_interrupt 0

abbrev pub on_context : (ContextBody → ContextBody) → Object → Object
on_context f (context b) = context (f b)
on_context f o = o

abbrev pub on_memory : (MemoryHead → MemoryHead) → Object → Object
on_memory f (memory m) = memory (f m)
on_memory f o = o

abbrev pub on_interrupt : (InterruptBody → InterruptBody) → Object → Object
on_interrupt f (interrupt b) = interrupt (f b)
on_interrupt f o = o

abbrev pub object_at : Kernel → ℕ → Object
object_at k i = (k.objects i).object

abbrev pub body : Kernel → ℕ → ContextBody
body k i = as_context (object_at k i)

abbrev pub Do : Type 0 → Type 0
Do A = Cmd Kernel A

unfoldable pub gets : {A : Type 0} → (Kernel → A) → Do A
gets f k = ok (f k) k

-- A virtual call: the function that the object's kind selects.
unfoldable pub dispatch : {A : Type 0} → ℕ → (Object → Do A) → Do A
dispatch i f k = f (object_at k i) k

unfoldable pub modify : (Kernel → Kernel) → Do (Unit {0})
modify f k = ok tt (f k)

abbrev pub with_lists : {A : Type 0} → Kernel → Run Links A → Run Kernel A
with_lists k (ok a s) = ok a (record k { links = s })
with_lists k (panic e) = panic e
with_lists k out_of_fuel = out_of_fuel

-- An operation on the lists, as one on the kernel.
unfoldable pub on_lists : {A : Type 0} → Cmd Links A → Do A
on_lists c k = with_lists k (c k.links)

abbrev pub put_object : ℕ → Entry → Kernel → Kernel
put_object i e k = record k { objects = update k.objects i e }

abbrev pub put_body : ℕ → (ContextBody → ContextBody) → Kernel → Kernel
put_body i f k =
    put_object i
      (record { generation = (k.objects i).generation; object = on_context f (object_at k i) }) k

abbrev pub put_memory : ℕ → (MemoryHead → MemoryHead) → Kernel → Kernel
put_memory i f k =
    put_object i
      (record { generation = (k.objects i).generation; object = on_memory f (object_at k i) }) k

abbrev pub put_interrupt : ℕ → (InterruptBody → InterruptBody) → Kernel → Kernel
put_interrupt i f k =
    put_object i
      (record { generation = (k.objects i).generation; object = on_interrupt f (object_at k i) }) k

unfoldable pub emit : HwOp → Do (Unit {0})
emit op k = ok tt (record k { hw = op ∷ k.hw })

-- The union SavedRegisters: named registers, and `sys` as a ReceivedMessage.
abbrev pub r10 : ℕ
r10 = 6

abbrev pub r11 : ℕ
r11 = 7

abbrev pub stack_register : ℕ
stack_register = 9

abbrev pub n_saved_registers : ℕ
n_saved_registers = 10

abbrev pub sys_message : (ℕ → ℕ) → Message
sys_message save = record {
  desc = save 0;
  d0 = save 1;
  d1 = save 2;
  d2 = save 3;
  d3 = save 4;
  d4 = save 5;
}

unfoldable pub put_message : Message → (ℕ → ℕ) → ℕ → ℕ
put_message m save =
    update (update (update (update (update (update save 0 m.desc) 1 m.d0) 2 m.d1) 3 m.d2) 4 m.d3) 5
      m.d4

unfoldable pub put_brand : ℕ → (ℕ → ℕ) → ℕ → ℕ
put_brand brand save = update (update save 6 (brand % 2 ^ 32)) 7 (brand / 2 ^ 32 % 2 ^ 32)

abbrev pub put_received : ReceivedMessage → (ℕ → ℕ) → ℕ → ℕ
put_received r save = put_brand r.brand (put_message r.m save)
