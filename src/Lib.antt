-- ===== src/Lib.antt =====
-- The verification of vosp, the error, logging and worker-pool library of include/vosp.
--
-- The program's parts, and the files that model them.
-- * Error values (include/vosp/error.hpp): `Error`, `Category`, `Result`, `attempt`, the text, the
--   hash and the formatter. File Error. `std::hash` is a parameter. An invocation is its outcome: a
--   value, an exception with or without a message, or an exception of an unknown type.
-- * The register of one category (`Register` of include/vosp/error.hpp): a map from codes to errors
--   with a capacity. File Register, with `add`, `remove`, `remove_code` (the second overload of
--   `remove`), `contains_error` and `contains_code` (the overloads of `contains`), `find`, `snapshot`,
--   `clear`, `size` and `reserve`. The mutex of a register makes each call one step, so that what
--   several threads do is a list of calls. The order of the map's entries is that of insertion here;
--   Register.Catalog is the view without order.
-- * The handler (`BasicHandler` of include/vosp/error.hpp): routes an error to the first register of
--   its category. File Handler. The registers are an interface, `RegisterMethods`, and live in a
--   store outside the handler, which holds places of the store, as the source holds references.
-- * The error systems (`ErrorSystem` of include/vosp/error.hpp): the handler at once, or as jobs of
--   an executor, which is a parameter. File Systems. Jobs run in any order, each as one step;
--   Systems.Pooled has runs of the worker pool as the executor. The outcome with which a job's task stands
--   in the pool is what the job returns when it is run.
-- * The worker pool (`IndustrialWorkerPool` of include/vosp/worker_pool.hpp): a ring of slots, one
--   atomic word for the counts and the stopping bit, and threads that claim tasks one at a time or,
--   of `dispatch_bulk`, up to sixteen. Files Pool.Word (the word, in 64-bit arithmetic), Pool.Slots
--   (the ring), Pool.Task (items and their execution), Pool and Pool.Shutdown (the sections that a
--   mutex or an atomic operation makes indivisible), Pool.Bulk (`dispatch_bulk` and its rounds),
--   Pool.Overlap (a producer under `producer_mutex_` and a consumer under `consumer_mutex_` at the
--   same time, access by access, against a queue) and Threads (workers and callers as a step
--   relation over the sections, in any interleaving). Threads.Order has the order in which tasks
--   are accepted, taken and run, Threads.Shutdown `shutdown`, Threads.Blocking and Threads.WakeUps
--   the threads that block on `queue_state_`, and Threads.Waiting the threads in `wait`, which
--   block on `completion_epoch_`. Threads takes each queue section as one step. A claim there takes
--   what the worker has seen when it loads the word, which may be fewer tasks than are queued when
--   it writes it; in Pool.Overlap producers come in between the two.
-- * The log records (include/vosp/logger.hpp): levels, the filter and metadata policies, records, and
--   the text of a record, of which a buffer of 512 bytes holds the start or all. Files Logger and
--   Logger.Lines.
-- * The logger (`Logger` of include/vosp/logger.hpp): broadcasts a record to its sinks, and keeps the
--   one sink that it may call without the lock. File Sync, and Sync.Facade for `capture`, `publish`
--   and `error` of `ILogger`. A sink is an address; what the sinks do with a record is a parameter, a
--   function on a world that they share, which may refuse or throw. A write reads the fast path and
--   takes the lock at two moments; the model has the logger at both.
-- * The asynchronous logger (`Logger<Policy, AsyncSinkDispatch, Metadata>`): a queue of 1,024 records
--   and a worker that takes it as a batch. File Async: a function for each section, and a step
--   relation over them.
-- * The stream sinks (`Sink<Immediate>` and `Sink<Buffered>` of include/vosp/logger.hpp): files Sinks
--   (the operations, over a stream that may fill up), Sinks.Output, Sinks.Shards, Sinks.Select,
--   Sinks.Flush and Sinks.Steps (threads that write to and flush the buffered sink).
-- * The fuzz target (fuzz/vosp_error_fuzzer.cpp): file Fuzz, its whole run over three registers and a
--   synchronous system. A byte is a number.
-- * The main program (main.cpp): file Program, down to the standard output and the exit status.
-- The asynchronous logger delivers through a `Logger`, with its own policy. A sink writes the text of
-- Logger.Lines. The worker pool and the handler use the error values and the codes of `Error`.
-- Numbers are natural numbers; the pool's word wraps at 2 ^ 64, its indices at the capacity. The
-- decimal text of a code recurses on fuel, one more than the number, which always exceeds the number
-- of digits. The loop of `write_view` recurses on the length of its text, which it shortens in each
-- round. No other definition has fuel: the loops of the workers, of the pool and of the logger, are
-- step relations.
--
-- Not modelled: vosp/contracts (another library, concepts only), allocation failure, the failure to
-- start a thread, hashing order, the memory order of atomics (each access is one step of a sequential
-- interleaving), exceptions that a stream is told to throw, the time at which a thread reads the
-- clock, condition variables (a blocked thread takes no step). Threads.Blocking has the producers and
-- the workers that block on `queue_state_`, with lists in place of the two counters, and a step and its
-- wake-up are one; Threads.WakeUps has the workers alone, with `waiting_workers_` and each access apart.
-- `signal_shutdown` as a function ends before its `notify_all`, which changes no field of the pool and is
-- a step of Threads.Blocking and of Threads.WakeUps. A task is its outcome, and a cancellable one sees
-- the stop token once, when it starts. The flush of the stream at the end of the flush of a buffered sink
-- is not a step of Sinks.Steps.
pub mod Prelude
pub mod Error
pub mod Register
pub mod Handler
pub mod Pool
pub mod Threads
pub mod Logger
pub mod Sync
pub mod Async
pub mod Sinks
pub mod Systems
pub mod Fuzz
pub mod Program
