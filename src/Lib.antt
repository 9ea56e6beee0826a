-- ===== src/Lib.antt =====
-- qmt-execution-core: the execution of one stock order at a time against a broker, with a journal
-- that survives a crash and a database through which processes share an account.
--
-- The parts and how they interact. A strategy calls `ExecutionSession`. The session holds a snapshot
-- of the state machine, advances it by events, and writes each step to its journal file before it
-- goes on. Around an order it calls a guard (is the order allowed), the coordinator (is the symbol
-- free, is there cash), a project's hooks, and the broker. What the broker reports is mapped to
-- events; an order that can not be told apart is in doubt until it is found again. How far an
-- execution is from its end (its finality) decides whether it keeps its claim on the symbol.
--
-- Which file models what:
--   Common              lists, rows of a table, tests on numbers and text.
--   Errors              the exceptions of src/qmt_execution_core/exceptions.py and of the modules
--                       that define their own, and results.
--   Domain              src/qmt_execution_core/domain.py: states, events, evidence, orders.
--   Table, Machine      src/qmt_execution_core/state_machine.py: `TRANSITIONS` is `transitions`,
--                       `advance` and `assert_invariants` keep their names. Machine.Safety states
--                       the safety contract, Machine.Reach what runs reach, Machine.Runs sequences.
--   Finality            src/qmt_execution_core/finality.py.
--   Recovery            src/qmt_execution_core/recovery.py.
--   Coordination        src/qmt_execution_core/coordination.py: Tables has the rows and the SQL
--                       statements, Transactions the methods of `SQLiteExecutionCoordinator`, Ops
--                       histories of them, Estimates the conservative cash estimator.
--   Exec                methods over an object's state that may raise; Keeps and Triple are their
--                       proof rules.
--   Journal             src/qmt_execution_core/journal.py: the payload and the changes to it.
--   Session             src/qmt_execution_core/session.py: State has the object and what it calls,
--                       Observe polling and recovery, Submit orders and cancellations, Life opening,
--                       closing and new cycles, Calls sequences of calls.
--   Coordinated         src/qmt_execution_core/coordinated_session.py: the same session over a world
--                       that holds the database. Hooks is about the hook before an order and the
--                       broker port, Estimated about the hook with that estimator, Sync about `_sync`.
--   Guards              src/qmt_execution_core/guards.py.
--   Status              src/qmt_execution_core/miniqmt/status.py.
--   Gate                src/qmt_execution_core/miniqmt/runtime_gate.py; the hash is a parameter.
--   Formal              src/qmt_execution_core/formal.py: Shared has the claims and the cash of the
--                       three processes, Moves `_global_successors`, Checks
--                       `_assert_global_invariants`, Explore `_verify_scenario`; the others are the
--                       invariant (Facts, Submitted, Global, Steps, Assertions), progress
--                       (Progress, Deadlock), what both give (Verified, Terminates, Search), and
--                       what the search finds (Codes, Recorded, Complete). Deployments has
--                       `verify_three_process_coordination`; Runs and Passes are about it.
--   Surface             src/qmt_execution_core/formal.py: syntax trees, Extract what is read off
--                       them, Refinement `verify_runtime_transition_refinement`; Inside and Writes
--                       are about it.
--   Verifier            src/qmt_execution_core/verifier.py: the forward loop, Backward the other one,
--                       Report `verify_state_machine`, Hashes and Sources what is hashed,
--                       Release `verify_release_model`; Canonical, Explored, Paths and
--                       Verified are about the check.
--   Query               the bounded repetition of a query, in both of its copies.
--   Adapter             src/qmt_execution_core/miniqmt/adapter.py: orders, and in Payloads and Orders
--                       what the SDK's objects become.
--   Binding             src/qmt_execution_core/miniqmt/binding.py: Digest has the digests, Select the
--                       choice of the account.
--   Authority           src/qmt_execution_core/authority.py: Store has `resolve` and the files,
--                       Database the identity of a database in
--                       src/qmt_execution_core/coordination.py (`create`, `_initialize`);
--                       Resolved, Certified and Opening are about them.
--   EventQueue          src/qmt_execution_core/event_queue.py: Threads interleaves its sections.
--   SessionId           src/qmt_execution_core/miniqmt/session_id.py.
--   Callbacks           src/qmt_execution_core/miniqmt/callbacks.py: what a callback becomes.
--   Runtime             src/qmt_execution_core/miniqmt/runtime.py: Recovery has the
--                       recovery after a disconnection and the end, Blocked when orders can go out,
--                       Config the tests of the configuration and of the gate's part of it,
--                       Connect the loop over the candidate session ids, Acquire the rest of what
--                       `connect` acquires and gives back; Held is about it.
--   Examples            in each part, the properties at concrete inputs.
--
-- How it is modelled. A method is a function from the object's state to a result and a state, since
-- what was changed before an exception stays changed. The broker, the guard, the hooks, the file
-- system, the locks and SQLite, its connection included, are parameters (`Env`, `Sqlite`,
-- `LockFile`, `Locking`), each call of which returns or raises as it likes; a property that assumes
-- something of them says so. A transaction that raises is rolled back, and SQLite runs one at a
-- time; that a rollback or the closing of a connection fails is not modelled. In a coordinated
-- session only the session itself changes the database; the transactions of other processes are in
-- the histories of Coordination.Ops. The trace in a session's state lists what it did to the world,
-- for the properties; no method reads it. `submit`, `cancel` and `reconcile` take `poll` as an
-- argument, since a subclass overrides it.
--
-- Bounds. Money is in whole units of 10⁻⁹, which is `_EPSILON`, so the rounding of floats is not
-- modelled. The history is cut to 1000 entries and the used names to 10000 as the code cuts them.
-- The search of Formal takes the number of global states as its fuel, of which there are at most
-- 2^51, and comes to its end within it; a query's loop runs at most as often as it is told to. The
-- loops of Verifier end within 53 passes. No other recursion needs fuel: lists are finite and no
-- other method loops.
--
-- Not modelled: the texts of messages, time stamps and free-form details; how the runtime finds
-- its binding and its coordinator, and callbacks that come while one of its methods runs; the
-- command line; the look-up of folders in the operating system. An estimator of the project's own,
-- the product of an amount and a rate, SHA-256, the resolution of paths and JSON text are parameters.
-- The order in which the local graph of Formal numbers its snapshots is left out: a snapshot stands
-- for its id, and its edges are computed where they are used.
pub mod Common
pub mod Errors
pub mod Domain
pub mod Table
pub mod Machine
pub mod Finality
pub mod Recovery
pub mod Coordination
pub mod Exec
pub mod Journal
pub mod Session
pub mod Coordinated
pub mod Guards
pub mod Status
pub mod Gate
pub mod Formal
pub mod Query
pub mod Adapter
pub mod Binding
pub mod Authority
pub mod EventQueue
pub mod SessionId
pub mod Callbacks
pub mod Runtime
pub mod Verifier
pub mod Surface
