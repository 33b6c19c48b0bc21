-- ===== src/Lib.antt =====
-- The Brittle kernel: a capability microkernel for ARMv7-M processors (k/ and common/), and the system
-- program that runs on it (a/), modelled as functions on their states, with theorems on them.
--
-- Parts. Objects live in a table, each with a generation; keys designate objects by address, brand
-- and generation, and are revoked by advancing the generation. Contexts hold keys in registers and
-- send messages through them. A Gate lets two contexts meet; other objects answer messages by a
-- protocol of their own. Blocked senders, receivers and runnable contexts wait in lists that are
-- sorted by priority. The system enters the kernel by a supervisor call, an interrupt or PendSV.
--
-- Files. Prelude and Run are shared: Run has the panics of k/panic.h as an error result, and
-- Run/Keeps the rules for invariants of such code.
-- - Abi: common/descriptor.h, message.h, exceptions.h, selectors.h, sysnums.h, abi_sizes.h and
--   k/config.h. A descriptor is its 32 bits.
-- - Links: k/list.h. A node is an address; `Links` holds the next and prev pointers of all nodes and
--   the container of all items. Links/Queue states what a list is as two queues; the lemmas on the operations
--   are in Links/Queue, Links/Remove and Links/Order.
-- - Kernel: the state. An object is its kind with its body (k/context.h, k/memory.h, k/interrupt.h,
--   k/gate.h, k/registers.h); `Kernel` has the table, the links, `current`, `switch_pending` and the
--   redirection table. Object i has its list items and list roots at the addresses 8i + 8 to 8i + 15;
--   the run queue is at 0 and 1.
--   The source constructs an object's body in the memory that a Memory object stood for. Here the state of
--   objects and the words of memory are apart, and `own` has the addresses that hold the kernel's data:
--   its image and donated RAM, and each body that `become` builds. A run that reads, writes or builds in
--   them through a Memory object, or stores to them from a program, ends by `shared_storage`, which is no panic of the source, and leaves
--   what is modelled. So the invariants hold for as long as Memory
--   objects and the kernel's memory are kept apart, which splitting a child can end (k/memory.cc).
-- - Kernel/Hardware: parameters for the hardware library, whose source is not in the repository, and
--   the log of writes to device registers.
-- - Kernel/Keys: k/key.cc, k/keys.h. `resolve` is Key::get, `set_key` is KeysRef::set.
-- - Kernel/Scheduler: k/scheduler.cc and Context::apply_to_mpu, make_runnable.
-- - Kernel/Delivery: the rendezvous of k/context.cc, k/interrupt.cc, k/reply_sender.cc, k/gate.cc.
-- - Kernel/Objects: k/object.cc with the invalidation hooks, k/irq_redirector.cc.
-- - Kernel/Memory: construction, destruction and permissions of k/memory.cc.
-- - Kernel/Protocol and its children: the protocols of k/context.cc, k/memory.cc, k/become.cc and
--   k/object_table.cc. A handler returns the reply, which ScopedReplySender sends at its scope's end.
-- - Kernel/Dispatch: Object::deliver_from of every kind, Context::do_ipc and do_key_op, k/irq_entry.cc.
-- - Kernel/Boot: k/app.cc and common/app_info.h. Kernel/Events: the calls of k/entry.S.
-- - Kernel/Dispatch/Calls and its children: a call from the message to the reply. Run/Returns has the rules for
--   code that returns.
-- - Kernel/Safety and its children: the invariant behind key register 0, and the depth of replies.
-- - Kernel/Settled and its children: the invariant of all lists, through every operation of the kernel;
--   Links/Laid has the part on the links alone. Run/Keeps has its rules.
-- - Kernel/Fuel and its children: the runs that end. Run/Ends has the rules for such code, Links/Woven
--   the links of all nodes at once and the number of senders that wait.
-- - User and its children: the programs above the kernel under a/. A program runs on its static variables
--   and a `World`, the kernel and the other programs, which a system call changes by a parameter.
--   User/Keys, User/Ipc: a/rt. User/Stubs: a/k. User/Alloc, User/Load, User/Startup, User/Server: a/sys.
--   User/Setup: a/app/serial. User/Image: what the kernel boots from, in a/sys/main.cc and a/app/serial.
--   User/Driver: a/drv/stm32f4/uart. User/Ascii: a/srv/ascii. User/Keys/Held says who holds which key
--   register.
-- - Whole and its children: a program under a/ with the kernel as its system call (a/rt/ipc.S), for the
--   operations of the object table. Its system call is the kernel's entry up to the switch.
-- - Sim, Sim/Keys, Sim/Uart: sim/uart.cc, the calls of sim/stubs.cc, and the task model of sim/task.cc that
--   answers them. The test at the other side of a message is a parameter; Sim/Mock is the one of
--   sim/mock.cc, and Sim/UartTest has the tests of sim/uart_test.cc.
-- - Samples: an application on a concrete machine, and the theorems at concrete inputs.
--
-- Bounds and fuel. Words are natural numbers with their wrap-around written out. A reply is itself a
-- delivery, so deliver_from takes a depth, which the kernel's entries set to 2: one for the message
-- and one for the reply, which asks for no reply. A receive phase may wake a blocked sender that
-- receives in turn, so deliver_to takes fuel, of which one unit is used for each sender that is woken:
-- a fuel above the number of waiting senders is enough, by Kernel/Fuel, and so is one that the size of
-- the object table gives, by Kernel/Settled. Statements on runs that return hold for any.
--
-- Not modelled: unprivileged accesses and memory faults (k/unprivileged.cc, k/mm_fault.cc), the
-- traps and vectors, the return sequence of k/entry.S, the programs of demo, and of sim/ the
-- pipes, the processes and the printing.
pub mod Abi
pub mod Kernel
pub mod Links
pub mod Prelude
pub mod Run
pub mod Samples
pub mod Sim
pub mod User
pub mod Whole
