-- ===== src/Scheduler/Locks/Tests.antt =====
-- One goroutine that submits a task, and one that cancels another.
use open_fabric.Common.{◌≡◌, ◌≢◌, refl, true, [], ◌∷◌, none, some, arith, ℕ_discrete}
use open_fabric.Scheduler.Locks.{
  rlock, runlock, lock, unlock, Mutex, fire, program, System, idle, set_pc, starts, moves, Reach,
  here, later, submit, cancel, Any,
}
use open_fabric.Scheduler.Locks.Deadlock.{nests, nested_never_returns, stuck_blocks_all}
use open_fabric.Scheduler.Locks.Progress.{CanAdvance, unnested_never_blocked}

abbrev free : Mutex
free = record { writer = none; readers = 0 }

abbrev submitting : System
submitting = record { mutex = free; pc = set_pc (λ _. []) 0 (program (submit true)) }

to_submitting : Reach 2 Any idle submitting
to_submitting = later here (starts 0 (submit true) (omega arith) tt refl)

abbrev locked : System
locked = record {
  mutex = record { writer = some 0; readers = 0 };
  pc =
      set_pc
        (set_pc (set_pc submitting.pc 0 (runlock ∷ lock ∷ rlock ∷ runlock ∷ unlock ∷ [])) 0
          (lock ∷ rlock ∷ runlock ∷ unlock ∷ []))
        0 (rlock ∷ runlock ∷ unlock ∷ []);
}

to_locked : Reach 2 Any submitting locked
unfolding fire program ℕ_discrete
to_locked =
    later
      (later
        (later here
          (moves 0 rlock _ (record { writer = none; readers = 1 }) (omega arith) refl refl))
        (moves 0 runlock _ free (omega arith) refl refl))
      (moves 0 lock _ (record { writer = some 0; readers = 0 }) (omega arith) refl refl)

from_start : Reach 2 Any idle locked
unfolding fire program ℕ_discrete
from_start =
    later
      (later
        (later to_submitting
          (moves 0 rlock _ (record { writer = none; readers = 1 }) (omega arith) refl refl))
        (moves 0 runlock _ free (omega arith) refl refl))
      (moves 0 lock _ (record { writer = some 0; readers = 0 }) (omega arith) refl refl)

nested_never_returns_example : rlock ∷ runlock ∷ unlock ∷ [] ≢ []
unfolding nests program ℕ_discrete
nested_never_returns_example =
    nested_never_returns 2 0 (submit true) submitting locked refl to_submitting refl to_locked

stuck_blocks_all_example : (fire 1 locked.mutex lock ≡ none) × (fire 1 locked.mutex rlock ≡ none)
unfolding ℕ_discrete
stuck_blocks_all_example = stuck_blocks_all 2 0 locked locked from_start refl here 1

unnested_never_blocked_example :
    CanAdvance 2 (record { mutex = free; pc = set_pc (λ _. []) 1 (program cancel) })
unfolding nests program ℕ_discrete
unnested_never_blocked_example =
    unnested_never_blocked 2 1 _ (later here (starts 1 cancel (omega arith) refl refl))
      (λ e. ground arith)
