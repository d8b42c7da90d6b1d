-- ===== src/Gpu/Preempt.antt =====
-- internal/gpu/preempt/preempt.go: preemption of the active task of lowest priority. Go functions that a
-- task registers are numbers here; which of them are called is part of the result.
pub mod Eviction
use open_fabric.Common.{
  ℕ, String, Bool, true, false, if◌then◌else◌, Option, none, some, List, [], ◌∷◌, Dict, lookup,
  insert, delete, string_eq,
}
use open_fabric.Common.Int.{ℤ, leb_ℤ}
use open_fabric.Gpu.Budget.{Manager, Reservation, lowest_priority_active, release, Call, run}

-- `PreemptRequest`.
pub record PreemptRequest : Type 0 where
  pub required_bytes : ℤ
  pub requester_task_id : String
  pub requester_priority : ℤ
  pub device_index : ℕ

pub data Method : Type 0 where
  suspended cancelled : Method

-- `PreemptResult`.
pub record PreemptResult : Type 0 where
  pub preempted_task_id : String
  pub freed_bytes : ℤ
  pub method : Method

pub data PreemptError : Type 0 where
  no_active not_greater no_fallback no_function : PreemptError

pub record Preemptor : Type 0 where
  pub cancel_funcs : Dict String ℕ
  pub suspend_funcs : Dict String ℕ

-- `RegisterTask`; a `nil` suspend function leaves the one that stood there.
unfoldable pub register_task : Preemptor → String → ℕ → Option ℕ → Preemptor
register_task p task cancel none = record p { cancel_funcs = insert task cancel p.cancel_funcs }
register_task p task cancel (some suspend) = record p {
  cancel_funcs = insert task cancel p.cancel_funcs;
  suspend_funcs = insert task suspend p.suspend_funcs;
}

-- `DeregisterTask`.
unfoldable pub deregister_task : Preemptor → String → Preemptor
deregister_task p task = record p {
  cancel_funcs = delete task p.cancel_funcs;
  suspend_funcs = delete task p.suspend_funcs;
}

pub data Effect : Type 0 where
  calls_suspend calls_cancel : ℕ → Effect

pub data Outcome : Type 0 where
  preempted : PreemptResult → Outcome
  refused : PreemptError → Outcome

-- The functions called, and how the task was stopped.
pub data Stopped : Type 0 where
  stopped : List Effect → Method → Stopped
  not_stopped : List Effect → PreemptError → Stopped

-- `works` says which suspend functions return no error.
unfoldable pub stop_task : (ℕ → Bool) → Option ℕ → Option ℕ → Stopped
stop_task works (some suspend) none =
    if works suspend
    then stopped (calls_suspend suspend ∷ []) suspended
    else not_stopped (calls_suspend suspend ∷ []) no_fallback
stop_task works (some suspend) (some cancel) =
    if works suspend
    then stopped (calls_suspend suspend ∷ []) suspended
    else stopped (calls_suspend suspend ∷ calls_cancel cancel ∷ []) cancelled
stop_task works none (some cancel) = stopped (calls_cancel cancel ∷ []) cancelled
stop_task works none none = not_stopped [] no_function

pub record Preemption : Type 0 where
  pub manager : Manager
  pub effects : List Effect
  pub outcome : Outcome

unfoldable pub finish : Manager → Reservation → ℕ → Stopped → Preemption
finish m r now (stopped effects method) = record {
  manager = release m r.id now;
  effects = effects;
  outcome =
      preempted
        (record { preempted_task_id = r.task_id; freed_bytes = r.bytes_reserved; method = method });
}
finish m r now (not_stopped effects e) = record {
  manager = m;
  effects = effects;
  outcome = refused e;
}

unfoldable pub preempt_candidate :
    Preemptor
    → Manager
    → PreemptRequest
    → (ℕ → Bool)
    → List Call
    → ℕ
    → Option Reservation
    → Preemption
unfolding stop_task finish
preempt_candidate p m q works meanwhile now none = record {
  manager = m;
  effects = [];
  outcome = refused no_active;
}
preempt_candidate p m q works meanwhile now (some r) =
    if leb_ℤ q.requester_priority r.priority
    then record { manager = m; effects = []; outcome = refused not_greater }
    else finish (run m meanwhile) r now
        (stop_task works (lookup r.task_id p.suspend_funcs) (lookup r.task_id p.cancel_funcs))

-- `Preempt`. The manager's lock is free between the choice of the candidate and its release:
-- `meanwhile` holds the calls of others in that time, those of the called functions among them.
unfoldable pub preempt :
    Preemptor → Manager → PreemptRequest → (ℕ → Bool) → List Call → ℕ → Preemption
unfolding preempt_candidate
preempt p m q works meanwhile now =
    preempt_candidate p m q works meanwhile now (lowest_priority_active m)
