-- ===== src/Gpu/Preempt/Eviction.antt =====
-- What a preemption does to the reservations, and which functions of the task it calls.
use open_fabric.Common.{
  ℕ, ◌+◌, ◌≡◌, refl, sym, ap, ◌∙◌, String, Bool, true, false, Option, none, some, List, [], ◌∷◌,
  Dict, lookup, lookup-insert_self, string_eq, arith, Bool-cases, Option-cases, inl, inr, ◌⊎◌,
  ==-eq, ◌==◌,
}
use mathlib.Core.List.{Memᴰ}
use mathlib.Core.Option.{some-ne-none}
use open_fabric.Common.Int.{◌<ℤ◌, leb_ℤ}
use open_fabric.Gpu.Budget.{
  Manager, Reservation, active, released, lowest_priority_active, release, Call, run,
}
use open_fabric.Gpu.Budget.Live.{live_sum, weight, live_sum-insert_old}
use open_fabric.Gpu.Budget.Lowest.{NoneBelow, lowest_priority_active-least}
use open_fabric.Gpu.Budget.Lifecycle.{release_live}
use open_fabric.Gpu.Preempt.{
  Preemptor, PreemptRequest, PreemptResult, PreemptError, preempt, preempted, refused, Effect,
  calls_suspend, calls_cancel, Method, suspended, cancelled, stop_task, finish, Stopped, stopped,
  not_stopped,
}

-- Each entry stands under its own identifier, and once.
abbrev pub Keyed : Dict String Reservation → Type 0
Keyed [] = Unit
Keyed ((k, r) ∷ rs) = (r.id ≡ k) × (lookup k rs ≡ none) × Keyed rs

pub Keyed-lookup :
    (k : String) (r : Reservation) (rs : Dict String Reservation)
    → Keyed rs
    → Memᴰ (k, r) rs
    → lookup r.id rs ≡ some r
unfolding lookup
Keyed-lookup k r [] h there = elim there [ ]
Keyed-lookup k r ((j, x) ∷ rs) h (Memᴰ.head e) =
    let same : r ≡ x = ap (λ (y : String × Reservation). y.1) e in
    let hit : (j == r.id) ≡ true =
      (string_eq.same_iff j r.id).1 (sym (ap (λ (y : Reservation). y.id) same ∙ h.0)) in
    rw hit (ap some (sym same))
Keyed-lookup k r ((j, x) ∷ rs) h (Memᴰ.tail there) =
    let rest = Keyed-lookup k r rs h.2 there in
    elim (Bool-cases (j == r.id)) [
      | inl hit ↦
          absurd (some-ne-none r (sym rest ∙ sym (ap (λ i. lookup i rs) (==-eq j r.id hit)) ∙ h.1))
      | inr miss ↦ rw miss rest
    ]

finish-preempted :
    (m : Manager) (r : Reservation) (now : ℕ) (s : Stopped) (result : PreemptResult)
    → (finish m r now s).outcome ≡ preempted result
    → (result.preempted_task_id ≡ r.task_id)
      × (result.freed_bytes ≡ r.bytes_reserved)
      × ((finish m r now s).manager ≡ release m r.id now)
      × (s ≡ stopped (finish m r now s).effects result.method)
unfolding finish
finish-preempted m r now (stopped effects method) result h =
    (ground arith, ground arith, refl, ground arith)
finish-preempted m r now (not_stopped effects e) result h = absurd (ground arith)

finish-refused :
    (m : Manager) (r : Reservation) (now : ℕ) (s : Stopped) (e : PreemptError)
    → (finish m r now s).outcome ≡ refused e
    → (finish m r now s).manager ≡ m
unfolding finish
finish-refused m r now (stopped effects method) e h = absurd (ground arith)
finish-refused m r now (not_stopped effects e') e h = refl

module _ (p : Preemptor) (m : Manager) (q : PreemptRequest) (works : ℕ → Bool)
    (meanwhile : List Call) (now : ℕ) where
  -- The candidate of a preemption that succeeded, and how it was stopped.
  pub record Evicted (result : PreemptResult) : Type 0 where
    pub victim : Reservation
    pub lowest : lowest_priority_active m ≡ some victim
    pub outranked : victim.priority <ℤ q.requester_priority
    pub task : result.preempted_task_id ≡ victim.task_id
    pub freed : result.freed_bytes ≡ victim.bytes_reserved
    pub left : (preempt p m q works meanwhile now).manager ≡ release (run m meanwhile) victim.id now
    pub how :
        stop_task works
          (lookup victim.task_id p.suspend_funcs)
          (lookup victim.task_id p.cancel_funcs)
        ≡ stopped (preempt p m q works meanwhile now).effects result.method

  evicted :
      (result : PreemptResult)
      → (preempt p m q works meanwhile now).outcome ≡ preempted result
      → Evicted result
  unfolding preempt
  evicted result h = elim (Option-cases (lowest_priority_active m)) [
    | inl e ↦ absurd (ground arith)
    | inr (r, e) ↦ elim (Bool-cases (leb_ℤ q.requester_priority r.priority)) [
      | inl outranks ↦ absurd (ground arith)
      | inr below ↦
          let stop =
            stop_task works (lookup r.task_id p.suspend_funcs) (lookup r.task_id p.cancel_funcs) in
          let same : (preempt p m q works meanwhile now ≡ finish (run m meanwhile) r now stop) =
            rw e (rw below) in
          let (task, freed, left, how) =
            finish-preempted (run m meanwhile) r now stop result (rw same at h) in
          record {
            victim = r;
            lowest = e;
            outranked = ground arith;
            task = task;
            freed = freed;
            left = rw same left;
            how = rw same how;
          }
    ]
  ]

-- A preemption that succeeds, with no other call of the manager meanwhile, on a map that holds each
-- reservation once under its identifier: the victim is active, its priority is below the
-- requester's and above no active one's, it is released at that time, and the live bytes fall by
-- exactly its weight.
pub preempt_frees :
    (p : Preemptor) (m : Manager) (q : PreemptRequest) (works : ℕ → Bool) (now : ℕ)
    (result : PreemptResult)
    → Keyed m.reservations
    → (preempt p m q works [] now).outcome ≡ preempted result
    → let m' = (preempt p m q works [] now).manager in
      (victim : Reservation) × (result.preempted_task_id ≡ victim.task_id)
      × (result.freed_bytes ≡ victim.bytes_reserved)
      × (victim.status ≡ active)
      × (victim.priority <ℤ q.requester_priority)
      × NoneBelow victim m.reservations
      × (lookup victim.id m'.reservations
          ≡ some (record victim { status = released; released_at = now }))
      × (live_sum m'.reservations + weight victim ≡ live_sum m.reservations)
unfolding run
preempt_frees p m q works now result keyed h =
    let e = evicted p m q works [] now result h in
    let r = e.victim in
    let (below, (k, there, on)) = (lowest_priority_active-least m).0 r e.lowest in
    let found = Keyed-lookup k r m.reservations keyed there in
    let r' = record r { status = released; released_at = now } in
    let gone = e.left ∙ release_live m r.id now r found (ground arith) in
    (
      r,
      e.task,
      e.freed,
      on,
      e.outranked,
      below,
      rw gone (lookup-insert_self r.id r' m.reservations),
      rw gone (ground (arith, live_sum-insert_old r.id r r' m.reservations found)),
    )

-- Whatever other calls run meanwhile, a preemption that is refused releases nothing of its own: the
-- manager is the one given or the one that those calls leave.
pub preempt_refused :
    (p : Preemptor) (m : Manager) (q : PreemptRequest) (works : ℕ → Bool) (meanwhile : List Call)
    (now : ℕ) (e : PreemptError)
    → (preempt p m q works meanwhile now).outcome ≡ refused e
    → ((preempt p m q works meanwhile now).manager ≡ m)
      ⊎ ((preempt p m q works meanwhile now).manager ≡ run m meanwhile)
unfolding preempt
preempt_refused p m q works meanwhile now e h = elim (Option-cases (lowest_priority_active m)) [
  | inl o ↦ inl (rw o)
  | inr (r, o) ↦ elim (Bool-cases (leb_ℤ q.requester_priority r.priority)) [
    | inl outranks ↦ inl (rw o (rw outranks))
    | inr below ↦
        let stop =
          stop_task works (lookup r.task_id p.suspend_funcs) (lookup r.task_id p.cancel_funcs) in
        let same : (preempt p m q works meanwhile now ≡ finish (run m meanwhile) r now stop) =
          rw o (rw below) in
        inr (rw same (finish-refused (run m meanwhile) r now stop e (rw same at h)))
  ]
]

stop_task-cancels :
    (works : ℕ → Bool) (suspend cancel : Option ℕ) (effects : List Effect) (method : Method)
    → stop_task works suspend cancel ≡ stopped effects method
    → ((method ≡ suspended)
        × ((s : ℕ) × (suspend ≡ some s) × (works s ≡ true) × (effects ≡ calls_suspend s ∷ [])))
      ⊎ ((method ≡ cancelled)
          × ((c : ℕ) × (cancel ≡ some c)
              × (((suspend ≡ none) × (effects ≡ calls_cancel c ∷ []))
                  ⊎ ((s : ℕ) × (suspend ≡ some s)
                      × (works s ≡ false)
                      × (effects ≡ calls_suspend s ∷ calls_cancel c ∷ [])))))
unfolding stop_task
stop_task-cancels works none none effects method h = absurd (ground arith)
stop_task-cancels works none (some c) effects method h =
    inr (ground arith, (c, refl, inl (refl, ground arith)))
stop_task-cancels works (some s) none effects method h = elim (Bool-cases (works s)) [
  | inl w ↦ inl (ground arith, (s, refl, w, ground arith))
  | inr w ↦ absurd (ground arith)
]
stop_task-cancels works (some s) (some c) effects method h = elim (Bool-cases (works s)) [
  | inl w ↦ inl (ground arith, (s, refl, w, ground arith))
  | inr w ↦ inr (ground arith, (c, refl, inr (s, refl, w, ground arith)))
]

-- How a task was stopped by a preemption that succeeds: by its suspend function alone, which
-- worked; or by its cancel function, called only because no suspend function is registered or the
-- one called failed.
pub preempt_cancels_last :
    (p : Preemptor) (m : Manager) (q : PreemptRequest) (works : ℕ → Bool) (meanwhile : List Call)
    (now : ℕ) (result : PreemptResult)
    → (preempt p m q works meanwhile now).outcome ≡ preempted result
    → let task = result.preempted_task_id in
      let effects = (preempt p m q works meanwhile now).effects in
      ((result.method ≡ suspended)
        × ((s : ℕ) × (lookup task p.suspend_funcs ≡ some s)
            × (works s ≡ true)
            × (effects ≡ calls_suspend s ∷ [])))
      ⊎ ((result.method ≡ cancelled)
          × ((c : ℕ) × (lookup task p.cancel_funcs ≡ some c)
              × (((lookup task p.suspend_funcs ≡ none) × (effects ≡ calls_cancel c ∷ []))
                  ⊎ ((s : ℕ) × (lookup task p.suspend_funcs ≡ some s)
                      × (works s ≡ false)
                      × (effects ≡ calls_suspend s ∷ calls_cancel c ∷ [])))))
preempt_cancels_last p m q works meanwhile now result h =
    let e = evicted p m q works meanwhile now result h in
    stop_task-cancels works (lookup result.preempted_task_id p.suspend_funcs)
      (lookup result.preempted_task_id p.cancel_funcs) _ result.method
      (ap (λ t. stop_task works (lookup t p.suspend_funcs) (lookup t p.cancel_funcs)) e.task
        ∙ e.how)
