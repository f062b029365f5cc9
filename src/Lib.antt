-- ===== src/Lib.antt =====
-- Verification library of runact, an actor runtime in Rust.
--
-- The program. A `Runtime` (src/runtime.rs) gives each actor an id and a bounded channel as its
-- mailbox, keeps the senders in a map, and hands the loop of the actor to the work-stealing scheduler
-- (src/scheduler). `send` and `request` look the sender up and put an envelope into the channel; the
-- loop takes envelopes out and calls the handler. A timer thread (src/timer) sends messages through the
-- same map at their times. The supervisors (src/supervision) answer crashes of children by a strategy;
-- the `Mailbox` of src/mailbox is a queue with a choice of backpressure policies, which the runtime
-- itself does not use. A handler gets a context (src/actor/context.rs), through which it sends,
-- replies, and hands jobs to the pool of threads of src/compute.
--
-- Which file models what:
--   Prelude            lists, Boolean tests, sums, and `HashMap` as an association list
--   Any                `Box<dyn Any + Send>`: a value with its type, and `downcast`
--   Channel            the operations of `crossbeam_channel` that the code calls, with the behaviour
--                      that its documentation states, as the interface `Channels` and `IsLawful`;
--                      Channel/Fifo is a list that meets it; Channel/Unbounded is the same for the
--                      unbounded channel with several ends
--   Actor              src/actor/id.rs, src/actor/error.rs, src/error.rs, src/actor/context.rs
--   Mailbox            src/mailbox/queue.rs: senders and receivers interleave at their accesses
--   Scheduler          src/scheduler: RunQueue, Reduction, Worker, and WorkStealing with the loop of
--                      `worker_loop` as one access for each step of a thread
--   Supervision        src/supervision: Strategy, Supervisor, SupervisorActor
--   Timer              src/timer/service.rs; Clock is every order of calls and steps of the thread, with
--                      the counter of the ids and the panics under the lock; Values is src/timer/types.rs
--   Resource           src/resource: capabilities and their registry, with `TypeId` as a parameter
--   Compute            src/compute: Tasks, the pool with the loop of `worker_loop` as one access for
--                      each step of a thread, Handle; Events is every order of calls
--   Runtime            src/runtime.rs: the state and the methods; Events is every order of calls,
--                      Runtime/ActorLoop the loop that `spawn` starts, Runtime/Requests the handle of a
--                      request, Runtime/System the runtime with its timers and its compute pool;
--                      Runtime/World is one machine in which the calls of the runtime, the workers,
--                      the loops of the actors with what their handlers ask for, and the timer thread
--                      interleave at their accesses
--   CounterExample     examples/counter.rs: the counter actor, and `main` over Runtime/System
--   SupervisorTests    the tests of src/supervision/supervisor_actor.rs, as runs of Runtime/World
-- Under each of them stand the modules of its proofs, and Tests with runs on small inputs.
--
-- Conventions. Numbers are natural numbers, and machine arithmetic keeps its wrap-around (`% 2 ^ 64`).
-- `&mut self` is a state that is passed on; a method with several lock accesses is split where other
-- threads may come between and do matter (`finish_supervisor`, `begin_shutdown` and `finish_shutdown`,
-- `poll` and `fire_next`). A poisoned lock is a flag of the state, with the branch of the source. A
-- panic of a task is an event of the scheduler model, and a result of a job of the compute pool.
--
-- Fuel. `collect` in Timer runs its loop for the length of the list, and each turn lowers the distance
-- from the index to the end by one. `drain` in Runtime/ActorLoop is a number of turns of a loop that
-- need not end; the theorem about it names a number that is enough.
--
-- Not modelled: logging and Display; the memory orderings of atomics (each access is one step); the
-- time that a call blocks; the limits in the configuration of the compute pool, which nothing reads.
-- In Runtime/World the timer thread is what it sends, with any message to any actor at any time, and
-- timers and compute jobs of a handler are calls with any answer: their own machines are Timer/Clock and
-- Compute/Events. There the write lock of the senders waits for the readers that wait for room, and
-- for no other; the lock that a writer has asked for does not turn new readers away.
pub mod Prelude
pub mod Actor
pub mod Mailbox
pub mod Scheduler
pub mod Supervision
pub mod Timer
pub mod Channel
pub mod Runtime
pub mod Compute
pub mod Resource
pub mod CounterExample
pub mod SupervisorTests
pub mod Any
