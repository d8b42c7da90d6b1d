-- ===== src/Scheduler/Locks.antt =====
-- internal/scheduler/scheduler.go: what each method does to the mutex `s.mu`, as the list of its calls
-- of sync.RWMutex in program order, and the goroutines that run the methods side by side.
pub mod Invariant
pub mod Deadlock
pub mod Progress
mod Tests
use open_fabric.Common.{
  ℕ, zero, suc, ◌+◌, ◌-◌, ◌≡◌, ◌<◌, Bool, true, false, List, [], ◌∷◌, ◌++◌, Option, none, some,
  ℕ_discrete,
}
use mathlib.Core.Logic.{ite}

pub data Op : Type 0 where
  rlock runlock lock unlock : Op

-- A sync.RWMutex: who holds it for writing, and how many hold it for reading. Go also makes a new
-- reader wait behind a waiting writer; the model lets it in, and so has more runs.
pub record Mutex : Type 0 where
  pub writer : Option ℕ
  pub readers : ℕ

-- One operation of goroutine `i`, none where it blocks or panics.
unfoldable pub fire : ℕ → Mutex → Op → Option Mutex
fire i m rlock = elim m.writer [
  | none ↦ some (record m { readers = suc m.readers })
  | some _ ↦ none
]
fire i m runlock = elim m.readers [ zero ↦ none | suc r ↦ some (record m { readers = r }) ]
fire i m lock = elim m.writer [
  | none ↦ elim m.readers [ zero ↦ some (record m { writer = some i }) | suc _ ↦ none ]
  | some _ ↦ none
]
fire i m unlock = elim m.writer [ none ↦ none | some _ ↦ some (record m { writer = none }) ]

-- What a method call does, as far as its locking depends on it: whether `Submit` accepts the task, how
-- many tasks `HandleNodeEvicted` moves, and how far `runLocally` gets.
pub data RunPath : Type 0 where
  cancelled_before refused ran : RunPath

pub data Call : Type 0 where
  submit : Bool → Call
  evict : ℕ → Call
  run_locally : RunPath → Call
  get list stats : Call
  cancel shutdown setter : Call

abbrev pub read_section : List Op
read_section = rlock ∷ runlock ∷ []

abbrev pub write_section : List Op
write_section = lock ∷ unlock ∷ []

-- `selectNode` reads `s.remoteNodesFunc` under the lock.
abbrev pub select_node : List Op
select_node = rlock ∷ runlock ∷ []

-- The body of the loop of `HandleNodeEvicted`, once for each task it moves, then the release.
unfoldable pub reselect : ℕ → List Op
reselect zero = unlock ∷ []
reselect (suc n) = select_node ++ reselect n

unfoldable pub run_ops : RunPath → List Op
run_ops cancelled_before = write_section
run_ops refused = write_section ++ write_section
run_ops ran = write_section ++ write_section ++ read_section ++ write_section

-- `Submit`, which reads the policy engine first; a task that is not accepted ends there.
abbrev pub submit_ops : Bool → List Op
submit_ops false = read_section
submit_ops true = read_section ++ lock ∷ select_node ++ unlock ∷ []

unfoldable pub program : Call → List Op
program (submit accepted) = submit_ops accepted
program (evict n) = lock ∷ reselect n
program (run_locally path) = run_ops path
program get = read_section
program list = read_section
program stats = read_section
program cancel = write_section
program shutdown = write_section
program setter = write_section

-- The goroutines, each with what is left of its call.
pub record System : Type 0 where
  pub mutex : Mutex
  pub pc : ℕ → List Op

abbrev pub set_pc : (ℕ → List Op) → ℕ → List Op → ℕ → List Op
set_pc f i ops j = ite (ℕ_discrete i j) ops (f j)

abbrev pub idle : System
idle = record { mutex = record { writer = none; readers = 0 }; pc = λ _. [] }

-- One of `n` goroutines starts a call, or does the next operation of its call.
pub data Step (n : ℕ) (Allowed : Call → Type 0) (s : System) : System → Type 0 where
  starts :
      (i : ℕ) (c : Call)
      → i < n
      → Allowed c
      → s.pc i ≡ []
      → Step n Allowed s (record { mutex = s.mutex; pc = set_pc s.pc i (program c) })
  moves :
      (i : ℕ) (op : Op) (rest : List Op) (m : Mutex)
      → i < n
      → s.pc i ≡ op ∷ rest
      → fire i s.mutex op ≡ some m
      → Step n Allowed s (record { mutex = m; pc = set_pc s.pc i rest })

pub data Reach (n : ℕ) (Allowed : Call → Type 0) (s : System) : System → Type 0 where
  here : Reach n Allowed s s
  later : {t u : System} → Reach n Allowed s t → Step n Allowed t u → Reach n Allowed s u

abbrev pub Any : Call → Type 0
Any c = Unit
