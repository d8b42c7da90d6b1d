-- ===== src/Scheduler/Locks/Deadlock.antt =====
-- The calls that run `selectNode` while they hold `s.mu`, and what becomes of them.
use open_fabric.Common.{
  ℕ, zero, suc, ◌≡◌, ◌≢◌, refl, Bool, true, false, ◌||◌, List, [], ◌∷◌, none, some, arith,
}
use open_fabric.Scheduler.Locks.{
  Op, rlock, runlock, lock, unlock, Mutex, fire, Call, program, reselect, System, set_pc, idle,
  starts, moves, Reach, here, later, submit, evict, Any,
}
use open_fabric.Scheduler.Locks.Invariant.{writes, Inv, Inv-idle, Fired, fire-Fired, Reach-Inv}

-- `Submit` of an accepted task, and `HandleNodeEvicted` with a task to move.
unfoldable pub nests : Call → Bool
nests (submit accepted) = accepted
nests (evict (suc n)) = true
nests _ = false

-- About to take the read lock inside a write section.
abbrev pub stuck : List Op → Bool
stuck (rlock ∷ ops) = writes ops
stuck _ = false

abbrev doomed : List Op → Bool
doomed [] = false
doomed (lock ∷ ops) = stuck ops || doomed ops
doomed (_ ∷ ops) = doomed ops

abbrev IsDoomed : List Op → Type 0
IsDoomed ops = (stuck ops || doomed ops) ≡ true

writes-reselect : (n : ℕ) → writes (reselect n) ≡ true
unfolding reselect
writes-reselect zero = refl
writes-reselect (suc n) = writes-reselect n

program-IsDoomed : (c : Call) → nests c ≡ true → IsDoomed (program c)
unfolding nests program reselect
program-IsDoomed (submit true) h = refl
program-IsDoomed (evict (suc n)) h = ground (arith, writes-reselect n)
program-IsDoomed (submit false) h = ground arith
program-IsDoomed c h = ground arith

-- Goroutine `i` waits for a read lock that only it could make free.
abbrev Waits : ℕ → List Op → System → Type 0
Waits i ops s = (s.pc i ≡ rlock ∷ ops) × (s.mutex.writer ≡ some i)

Fired-Waits :
    (i : ℕ) (ops : List Op) (s : System) (n j : ℕ) (op : Op) (rest : List Op) (m : Mutex)
    → Waits i ops s
    → Inv n s
    → s.pc j ≡ op ∷ rest
    → Fired j s.mutex op m
    → Waits i ops (record { mutex = m; pc = set_pc s.pc j rest })
Fired-Waits i ops s n j rlock rest m w v e f = ground arith
Fired-Waits i ops s n j runlock rest m w v e f = ground (arith, v.exclusive)
Fired-Waits i ops s n j lock rest m w v e f = ground arith
Fired-Waits i ops s n j unlock rest m w v e f = ground (arith, v.writer j)

Reach-Waits :
    {n i : ℕ} {ops : List Op} {s u : System}
    → Inv n s
    → Waits i ops s
    → Reach n Any s u
    → Waits i ops u
Reach-Waits v w here = w
Reach-Waits {n} {i} {ops} v w (later {t} r (starts j c lt a e)) =
    let w' = Reach-Waits v w r in ground arith
Reach-Waits {n} {i} {ops} v w (later {t} r (moves j op rest m lt e h)) =
    Fired-Waits i ops t n j op rest m (Reach-Waits v w r) (Reach-Inv r v) e
      (fire-Fired j t.mutex op m h)

Fired-IsDoomed :
    (i : ℕ) (s : System) (n j : ℕ) (op : Op) (rest : List Op) (m : Mutex)
    → IsDoomed (s.pc i)
    → Inv n s
    → s.pc j ≡ op ∷ rest
    → Fired j s.mutex op m
    → IsDoomed (set_pc s.pc j rest i)
Fired-IsDoomed i s n j rlock rest m w v e f = ground (arith, v.writer i)
Fired-IsDoomed i s n j runlock rest m w v e f = ground arith
Fired-IsDoomed i s n j lock rest m w v e f = ground arith
Fired-IsDoomed i s n j unlock rest m w v e f = ground arith

Reach-IsDoomed :
    {n : ℕ} (i : ℕ) {s u : System}
    → Inv n s
    → IsDoomed (s.pc i)
    → Reach n Any s u
    → IsDoomed (u.pc i)
Reach-IsDoomed i v w here = w
Reach-IsDoomed {n} i v w (later {t} r (starts j c lt a e)) =
    let w' = Reach-IsDoomed i v w r in ground arith
Reach-IsDoomed {n} i v w (later {t} r (moves j op rest m lt e h)) =
    Fired-IsDoomed i t n j op rest m (Reach-IsDoomed i v w r) (Reach-Inv r v) e
      (fire-Fired j t.mutex op m h)

stuck-cases :
    (p : List Op) → stuck p ≡ true → (ops : List Op) × (p ≡ rlock ∷ ops) × (writes ops ≡ true)
stuck-cases (rlock ∷ ops) h = (ops, refl, h)
stuck-cases (runlock ∷ ops) h = ground arith
stuck-cases (lock ∷ ops) h = ground arith
stuck-cases (unlock ∷ ops) h = ground arith
stuck-cases [] h = ground arith

-- An accepted Submit, and a HandleNodeEvicted that has a task to move, never returns: in every run of any number of goroutines after one starts it, it has operations left.
pub nested_never_returns :
    (n i : ℕ) (c : Call) (s u : System)
    → nests c ≡ true
    → Reach n Any idle s
    → s.pc i ≡ program c
    → Reach n Any s u
    → u.pc i ≢ []
nested_never_returns n i c s u h r e q x =
    let start : IsDoomed (s.pc i) = rw e (program-IsDoomed c h) in
    let last = Reach-IsDoomed i (Reach-Inv r (Inv-idle n)) start q in ground arith

-- Once a goroutine is about to run selectNode with s.mu held for writing, no goroutine takes s.mu again, for reading or for writing, in any run from there.
pub stuck_blocks_all :
    (n i : ℕ) (s u : System)
    → Reach n Any idle s
    → stuck (s.pc i) ≡ true
    → Reach n Any s u
    → (j : ℕ) → (fire j u.mutex lock ≡ none) × (fire j u.mutex rlock ≡ none)
unfolding fire
stuck_blocks_all n i s u r h q j =
    let (ops, e, w) = stuck-cases (s.pc i) h in
    let v = Reach-Inv r (Inv-idle n) in
    let last = Reach-Waits v (e, (v.writer i).0 (rw e w)) q in ground arith
