-- ===== src/Samples/WholeWitnesses.antt =====
-- Calls from their start to their end, by the first context of the sample application.
use brittle_kernel.Kernel.Memory.{ap_is_unpredictable}
use brittle_kernel.Prelude.{
  ◌≡◌, refl, arith, true, false, leb, ◌<◌, ◌%◌, ◌^◌, ◌/◌, if◌then◌else◌, ◌==◌,
}
use brittle_kernel.Run.{Run, ok, pure, ◌>>=◌, ◌>>◌}
use brittle_kernel.Run.Returns.{Returns}
use brittle_kernel.Abi.Descriptor.{
  call, is_call, get_receive_enabled, get_source, get_selector, sanitized,
}
use brittle_kernel.Abi.Message.{Message, zero_message, sanitized_message}
use brittle_kernel.Kernel.{
  Kernel, ContextBody, context, null, object_table, body, gets, kind, object_at, receiving,
  put_body, sys_message, modify, on_lists, emit, owner, dispatch,
}
use brittle_kernel.Kernel.Boot.{reset, start_app}
use brittle_kernel.Kernel.Delivery.{ReplySender, task, has_top_bit}
use brittle_kernel.Kernel.Dispatch.{deliver_from, reply_depth, handler}
use brittle_kernel.Kernel.Dispatch.Calls.{waiting, call_keys}
use brittle_kernel.Kernel.Dispatch.Calls.Accepted.{delivered, renewed}
use brittle_kernel.Kernel.Dispatch.Calls.Answers.{Waits}
use brittle_kernel.Kernel.Dispatch.Calls.Conversed.{deliver_from-delivered}
use brittle_kernel.Kernel.Keys.{resolve, pointee, filled}
use brittle_kernel.Kernel.Protocol.{empty_reply}
use brittle_kernel.Kernel.Protocol.ObjectTable.{object_table_handler, do_invalidate}
use brittle_kernel.Kernel.Objects.{invalidate}
use brittle_kernel.Kernel.Scheduler.{load_region, is_mappable}
use brittle_kernel.Links
use brittle_kernel.User.{System, Process}
use brittle_kernel.User.Keys.{initially_available}
use brittle_kernel.User.Keys.Held.{Held}
use brittle_kernel.User.Stubs.ObjectTable.{mint_key, get_kind, read_key}
use brittle_kernel.Whole.{above_kernel, system_call, call_registers}
use brittle_kernel.Whole.Calling.{CanCall}
use brittle_kernel.Whole.Switched.{sv_call_handler-returns}
use brittle_kernel.Kernel.Events.{sv_call_handler}
use brittle_kernel.Whole.Asking.{get_kind-kind, read_key-key}
use brittle_kernel.Whole.Minting.{mint_key-minted, minted_keys, is_valid_brand}
use brittle_kernel.Samples.Machine.{armv7m, booted, state_or}

abbrev first : ContextBody
first = body booted 2

first_context : object_at booted 2 ≡ context first
unfolding booted start_app reset ◌>>◌ ◌>>=◌ modify gets on_lists emit load_region Links.peek owner
first_context = refl

-- Key register 1 leads to the object table.
first_table : object_at booted (pointee (resolve booted (first.keys 1))) ≡ object_table
unfolding booted start_app reset ◌>>◌ ◌>>=◌ modify gets on_lists emit load_region Links.peek owner
    resolve filled
first_table = refl

first_top : has_top_bit first.expected_reply_brand ≡ true
unfolding booted start_app reset ◌>>◌ ◌>>=◌ modify gets on_lists emit load_region Links.peek owner
    has_top_bit
first_top = refl

first_priority : first.priority < 2
unfolding booted start_app reset ◌>>◌ ◌>>=◌ modify gets on_lists emit load_region Links.peek owner
first_priority = omega arith

six_objects : booted.count ≡ 6
unfolding booted start_app reset ◌>>◌ modify gets on_lists emit load_region Links.peek owner
six_objects = refl

abbrev system : System Kernel
system = record {
  svc = λ m s r k. record { message = m; brand = 0; world = k };
  svc_copy_key = λ d k. k;
  memory_map_count = 1;
  device_map_count = 0;
  extra_slot_count = 2;
  frame_size = 32;
  idle_stack_address = 0x20000000;
  idle_main_address = 0x100;
  platform = armv7m;
}

-- The program of the first context, before its first call.
abbrev started : Process Kernel
started = record {
  available = λ i. if leb i 3 then false else initially_available i;
  slots_used = 0;
  mem_roots = λ l. 0;
  idle_stack = λ i. 0;
  receive_count = 0;
  send_count = 0;
  world = booted;
}

first_null : object_at booted (pointee (resolve booted (first.keys 0))) ≡ null
unfolding booted start_app reset ◌>>◌ ◌>>=◌ modify gets on_lists emit load_region Links.peek owner
    resolve filled
first_null = refl

first-CanCall : CanCall 2 1 booted first
first-CanCall = record {
  here = first_context;
  null_key = first_null;
  table = first_table;
  positive = omega arith;
  small = omega arith;
  in_range = first_priority;
  top = first_top;
}

valid_brand : is_valid_brand booted.platform (object_at booted 3) 7 ≡ true
unfolding is_valid_brand is_mappable ap_is_unpredictable booted start_app reset ◌>>◌ ◌>>=◌ modify
    gets on_lists emit load_region Links.peek owner
valid_brand = refl

-- A key to the memory, object 3, with the brand 7.
mint_key-minted_example :
    Returns
      (λ to q.
        Held started.available to q × ((body q.world 2).keys ≡ minted_keys booted first 1 3 7 to))
      (mint_key (above_kernel 1 2 0x20000f00 system) 1 3 7 started)
mint_key-minted_example =
    mint_key-minted 0 2 0x20000f00 1 3 7 booted first first-CanCall (rw six_objects (omega arith))
      (omega arith) system started 4 refl (omega arith) (omega arith) refl valid_brand

get_kind-kind_example :
    Returns
      (λ n q. n ≡ kind (object_at booted 3))
      (get_kind (above_kernel 1 2 0x20000f00 system) 1 3 started)
get_kind-kind_example =
    get_kind-kind system 0 2 0x20000f00 1 booted first first-CanCall 3 started refl
      (rw six_objects (omega arith))

read_key-key_example :
    Returns
      (λ info q.
        (info.index ≡ pointee (resolve booted (first.keys 1)) % 2 ^ 32)
        × (info.brand ≡ (resolve booted (first.keys 1)).brand % 2 ^ 64))
      (read_key (above_kernel 1 2 0x20000f00 system) 1 1 started)
read_key-key_example =
    read_key-key system 0 2 0x20000f00 1 booted first first-CanCall 1 started refl (omega arith)

abbrev question : Message
question = record zero_message { desc = call 3 1; d0 = 2 }

unfoldable answered : Kernel
unfolding sv_call_handler call_registers
answered = state_or booted (sv_call_handler 4 (call_registers question 0 0) 0x20000f00 booted)

question_returns :
    sv_call_handler 4 (call_registers question 0 0) 0x20000f00 booted ≡ ok tt answered
unfolding sv_call_handler call_registers answered ◌>>=◌ gets call ◌>>◌ modify booted on_lists emit
    load_region Links.peek reset dispatch
question_returns = refl

first_runs : booted.current ≡ 2
unfolding booted start_app reset ◌>>◌ ◌>>=◌ modify gets on_lists emit load_region Links.peek owner
first_runs = refl

question_number : question.desc / 2 ^ 28 ≡ 0
unfolding call
question_number = refl

sv_call_handler-returns_example :
    (t : Kernel) × (system_call 4 2 0x20000f00 question 0 0 booted ≡ ok tt t)
    × ((body answered 2).save ≡ (body t 2).save)
    × ((body answered 2).keys ≡ (body t 2).keys)
sv_call_handler-returns_example =
    sv_call_handler-returns 4 2 0x20000f00 question 0 0 booted answered first_runs question_number
      question_returns

-- The first context calls the object table to invalidate object 4, a slot.
abbrev calling : Kernel
calling =
    put_body 2 (λ b. record b { save = λ i. if i == 0 then call 4 1 else if i == 1 then 4 else 0 })
      booted

abbrev invalidation : Run Kernel ReplySender
invalidation =
    handler object_table 1 0 (sanitized_message (sys_message (body calling 2).save))
      (call_keys 2 (body calling 2) calling) (waiting 2 calling)

unfoldable invalidated : Kernel
unfolding handler
invalidated = state_or calling invalidation

invalidates : invalidation ≡ ok empty_reply invalidated
unfolding invalidated handler object_table_handler do_invalidate invalidate get_selector call
    sanitized_message sanitized booted start_app reset ◌>>◌ ◌>>=◌ modify gets on_lists emit
    load_region Links.peek owner dispatch pure
invalidates = refl

abbrev caller : ContextBody
caller = record (body calling 2) { state = receiving }

calling_context : object_at calling 2 ≡ context (body calling 2)
unfolding booted start_app reset ◌>>◌ ◌>>=◌ modify gets on_lists emit load_region Links.peek owner
calling_context = refl

calls : is_call ((body calling 2).save 0) ≡ true
unfolding booted start_app reset ◌>>◌ ◌>>=◌ modify gets on_lists emit load_region Links.peek owner
    is_call get_receive_enabled get_source call
calls = refl

calls_table : object_at calling 1 ≡ object_table
unfolding booted start_app reset ◌>>◌ ◌>>=◌ modify gets on_lists emit load_region Links.peek owner
calls_table = refl

caller-Waits : Waits 2 caller invalidated
unfolding invalidated handler object_table_handler do_invalidate invalidate get_selector call
    sanitized_message sanitized booted start_app reset ◌>>◌ ◌>>=◌ modify gets on_lists emit
    load_region Links.peek owner dispatch pure Links.unlink
caller-Waits = record { here = refl; unlinked = refl; next = refl; prev = refl }

caller_stays : (invalidated.objects 2).generation ≡ (calling.objects 2).generation
unfolding invalidated handler object_table_handler do_invalidate invalidate get_selector call
    sanitized_message sanitized booted start_app reset ◌>>◌ ◌>>=◌ modify gets on_lists emit
    load_region Links.peek owner dispatch pure Links.unlink
caller_stays = refl

caller_top : has_top_bit caller.expected_reply_brand ≡ true
unfolding booted start_app reset ◌>>◌ ◌>>=◌ modify gets on_lists emit load_region Links.peek owner
    has_top_bit
caller_top = refl

caller_priority : caller.priority < 2
unfolding booted start_app reset ◌>>◌ ◌>>=◌ modify gets on_lists emit load_region Links.peek owner
caller_priority = omega arith

caller_held : ((body calling 2).keys 1).brand ≡ 0
unfolding booted start_app reset ◌>>◌ ◌>>=◌ modify gets on_lists emit load_region Links.peek owner
caller_held = refl

deliver_from-delivered_example :
    Returns
      (λ _ s.
        object_at s 2
        ≡ context (delivered empty_reply caller.expected_reply_brand (renewed caller)))
      (deliver_from reply_depth 1 1 0 (task 2 1) calling)
deliver_from-delivered_example =
    deliver_from-delivered 0 1 0 2 1 calling invalidated empty_reply caller calling_context calls
      caller_held (rw calls_table refl) (rw calls_table invalidates) caller-Waits refl
      caller_priority refl caller_top caller_stays
