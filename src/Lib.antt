-- ===== src/Lib.antt =====
-- Verification library of the OpenFabric core: the parts of the Go program that decide, keep state
-- and recover, each as definitions that follow the source and theorems about them.
--
-- The program lets the machines of a home share work. A scheduler (internal/scheduler) reads the
-- needs of a task off its command (Scheduler/Classifier), chooses a node for it (Scheduler/Select),
-- keeps the tasks and the goroutines that run them (Scheduler/Tasks) and guards all this with one
-- mutex (Scheduler/Locks); it keeps a circuit breaker per node (Breaker), a memory of which node
-- has run what (Affinity) and the count of tasks in flight (Admission), and the policy engine
-- (internal/policy) can hold a task back (Policy). Commands, environments and WASM files pass a
-- gate first (Sandbox). A flow (internal/flow: Flow) is a graph of steps that is checked when it is
-- saved and run in the order of its dependencies. The dashboard behind the tunnel asks for a PIN
-- (internal/tunnel/pin.go: Tunnel). A node writes its operations to a write-ahead log
-- first and reads it after a crash (internal/reliability/wal: Wal), retries what fails
-- (internal/reliability/retry: Retry), takes its services through one lifecycle
-- (internal/reliability/lifecycle: Lifecycle) and checks their health (internal/reliability/health:
-- Health). On a GPU, tasks reserve memory before they run (internal/gpu/budget: Gpu/Budget), give
-- way to others (internal/gpu/preempt: Gpu/Preempt), are evicted when memory runs out
-- (internal/gpu/recovery: Gpu/Recovery) and are held back by heat (internal/gpu/thermal:
-- Gpu/Thermal). The planner of internal/llm/shard.go spreads the layers of a model over nodes
-- (Shard), and internal/storage/crdt.go merges file metadata (Storage).
--
-- How the code is read. A method that changes its receiver is a function that returns the new
-- record, in one piece where the source holds its lock throughout; the clock, fresh identifiers,
-- the answers of a backend and of the operating system are arguments. Where a method calls out
-- without its lock, the calls of others in that time are an argument too (Gpu/Preempt) or it is cut
-- in two steps (Lifecycle). A history is a list of calls in the order in which they take the lock.
-- An int64 is a ℤ with its wrap-around written out (Common/Int), a uint64 a ℕ taken modulo 2 ^ 64.
-- A map is an association list in the order in which `range` meets it, and theorems hold for every
-- such order. A float64 is a whole number where it is only compared (Gpu/Thermal) and a parameter
-- elsewhere. Go's libraries are parameters: JSON and CRC in a record of codecs with its laws
-- (Wal/Entry), the functions of `strings`, and the sort and the floating-point share of the
-- planner. The mutex of the scheduler is the exception: Scheduler/Locks has each method as its list
-- of operations on s.mu and lets any number of goroutines take turns. Scheduler/Tasks takes each
-- critical section as one step, as if the choice of a node, which the source makes inside one, came
-- back; Scheduler/Locks shows what happens there. Goroutines of runLocally and the results of a
-- flow's steps are interleaved in every order by histories of events. Where a gate reads a command,
-- a text is the list of its code points and the functions of `strings` are definitions
-- (Common/Text).
--
-- Files. Breaker.antt models internal/scheduler/circuit_breaker.go, its registry in
-- Breaker/Registry.antt, with pointers to the breakers. Wal/Entry.antt, Wal/Scan.antt, Wal/Recovery.antt and Wal/Log.antt model
-- the files of internal/reliability/wal: the entries and their checksum, the line scanner,
-- RecoverPending, and Open, Append, Commit, Abort, Close and checkpoint; Wal/Ledger.antt has the
-- ledger that the log is compared with. Gpu/Budget.antt, Gpu/Preempt.antt, Gpu/Recovery.antt and
-- Gpu/Thermal.antt model the packages of those names below internal/gpu. Storage.antt, Retry.antt,
-- Lifecycle.antt, Shard.antt, Policy.antt, Affinity.antt, Admission.antt and Health.antt model the
-- files named above, Admission.antt internal/scheduler/admission.go. Scheduler/Locks.antt,
-- Scheduler/Tasks/Store.antt, Scheduler/Tasks/Runs.antt and Scheduler/Tasks/History.antt model
-- internal/scheduler/scheduler.go, Scheduler/Classifier.antt classifier.go, and
-- Scheduler/Select.antt scorer.go and the choice of a node in scheduler.go; Sandbox/Segments.antt,
-- Sandbox/Gates.antt and Sandbox/Env.antt model sandbox.go and the command parser of wasm.go.
-- Flow/Graph.antt models the check of internal/flow/flow.go and Flow/Run.antt the coordination in
-- internal/flow/engine.go, and Tunnel.antt internal/tunnel/pin.go. A module below one of these
-- holds proofs and is named for what they show; the modules named Tests hold concrete runs.
-- Common.antt passes on the libraries' names and holds lists, maps, int64 and Boolean tests.
--
-- Bounds. Two definitions run on fuel: the loop of `Do`, whose fuel is the number of attempts left,
-- as in the source, and the search for cycles in Flow/Graph, whose fuel is one more than the number
-- of steps and is enough, since each visit that goes deeper colours a step. Sizes and durations are
-- assumed to be small enough, where a theorem says so, not to overflow an int64. A line of the log
-- is at most 1 MiB, as the scanner has it.
--
-- Not modelled: logging and metrics, the texts of messages, the waits between retries, saving the
-- metadata registry, the planner that uses measured speeds (PlanShardsDynamic, whose answer is an
-- argument of plan_shards), the floating-point scores of a node, the priority queue that the
-- scheduler does not use, the storage, triggers and templates of flows, and the rest of the
-- program: its network, agents, interfaces and platform code.
pub mod Common
pub mod Scheduler
pub mod Sandbox
pub mod Flow
pub mod Tunnel
pub mod Breaker
pub mod Wal
pub mod Gpu
pub mod Storage
pub mod Retry
pub mod Lifecycle
pub mod Shard
pub mod Policy
pub mod Affinity
pub mod Admission
pub mod Health
