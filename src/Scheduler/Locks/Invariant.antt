-- ===== src/Scheduler/Locks/Invariant.antt =====
-- The bracketing of the lock operations in every program, and the mutex it keeps.
use open_fabric.Common.{
  ℕ, zero, suc, ◌+◌, ◌≡◌, refl, ◌<◌, Bool, true, false, List, [], ◌∷◌, none, some, arith, ◌↔◌, ◌≢◌,
  dec_lt, ◌≤◌,
}
use open_fabric.Scheduler.Locks.{
  Op, rlock, runlock, lock, unlock, Mutex, fire, Call, program, reselect, run_ops, System, set_pc,
  idle, Step, starts, moves, Reach, here, later, cancelled_before, refused, ran, submit, evict,
  run_locally, get, list, stats, cancel, shutdown, setter,
}

-- What is left of a call says which lock it holds: the first release without its acquisition.
abbrev pub writes : List Op → Bool
writes [] = false
writes (lock ∷ _) = false
writes (unlock ∷ _) = true
writes (_ ∷ ops) = writes ops

abbrev pub reads : List Op → Bool
reads [] = false
reads (rlock ∷ _) = false
reads (runlock ∷ _) = true
reads (_ ∷ ops) = reads ops

-- Every operation is followed by what it calls for.
abbrev pub IsBracketed : List Op → Type 0
IsBracketed [] = Unit
IsBracketed (rlock ∷ ops) = (reads ops ≡ true) × IsBracketed ops
IsBracketed (runlock ∷ ops) = (reads ops ≡ false) × IsBracketed ops
IsBracketed (lock ∷ ops) = (writes ops ≡ true) × IsBracketed ops
IsBracketed (unlock ∷ ops) = (writes ops ≡ false) × IsBracketed ops

reselect-IsBracketed :
    (n : ℕ) → (writes (reselect n) ≡ true) × (reads (reselect n) ≡ false) × IsBracketed (reselect n)
unfolding reselect
reselect-IsBracketed zero = ground arith
reselect-IsBracketed (suc n) = ground (arith, reselect-IsBracketed n)

pub program-IsBracketed :
    (c : Call)
    → (writes (program c) ≡ false) × (reads (program c) ≡ false) × IsBracketed (program c)
unfolding program run_ops
program-IsBracketed (submit false) = ground arith
program-IsBracketed (submit true) = ground arith
program-IsBracketed (evict n) = ground (arith, reselect-IsBracketed n)
program-IsBracketed (run_locally cancelled_before) = ground arith
program-IsBracketed (run_locally refused) = ground arith
program-IsBracketed (run_locally ran) = ground arith
program-IsBracketed get = ground arith
program-IsBracketed list = ground arith
program-IsBracketed stats = ground arith
program-IsBracketed cancel = ground arith
program-IsBracketed shutdown = ground arith
program-IsBracketed setter = ground arith

-- How many of the first `n` goroutines are in a read section.
abbrev pub bit : Bool → ℕ
bit true = 1
bit false = 0

abbrev pub count : ℕ → (ℕ → List Op) → ℕ
count zero f = 0
count (suc n) f = count n f + bit (reads (f n))

count-set_above :
    (n i : ℕ) (f : ℕ → List Op) (ops : List Op) → n ≤ i → count n (set_pc f i ops) ≡ count n f
count-set_above zero i f ops h = refl
count-set_above (suc n) i f ops h = ground (arith, count-set_above n i f ops)

pub count-set :
    (n i : ℕ) (f : ℕ → List Op) (ops : List Op)
    → i < n
    → count n (set_pc f i ops) + bit (reads (f i)) ≡ count n f + bit (reads ops)
count-set zero i f ops h = absurd (omega arith)
count-set (suc n) i f ops h = elim (dec_lt i n) [
  | yes below ↦ ground (arith, count-set n i f ops below)
  | no last ↦ ground (arith, count-set_above n i f ops)
]

count-idle : (n : ℕ) → count n idle.pc ≡ 0
count-idle zero = refl
count-idle (suc n) = omega (arith, count-idle n)

-- What an operation that does not block makes of the mutex.
abbrev pub Fired : ℕ → Mutex → Op → Mutex → Type 0
Fired i m rlock m' = (m.writer ≡ none) × (m'.writer ≡ none) × (m'.readers ≡ suc m.readers)
Fired i m runlock m' = (m'.writer ≡ m.writer) × (suc m'.readers ≡ m.readers)
Fired i m lock m' = (m.writer ≡ none) × (m.readers ≡ 0) × (m'.writer ≡ some i) × (m'.readers ≡ 0)
Fired i m unlock m' = (m.writer ≢ none) × (m'.writer ≡ none) × (m'.readers ≡ m.readers)

pub fire-Fired :
    (i : ℕ) (m : Mutex) (op : Op) (m' : Mutex) → fire i m op ≡ some m' → Fired i m op m'
unfolding fire
fire-Fired i m rlock m' h = ground arith
fire-Fired i m runlock m' h = ground arith
fire-Fired i m lock m' h = ground arith
fire-Fired i m unlock m' h = ground arith

pub record Inv (n : ℕ) (s : System) : Type 0 where
  pub bracketed : (i : ℕ) → IsBracketed (s.pc i)
  pub writer : (i : ℕ) → (writes (s.pc i) ≡ true) ↔ (s.mutex.writer ≡ some i)
  pub readers : count n s.pc ≡ s.mutex.readers
  pub exclusive : s.mutex.writer ≢ none → s.mutex.readers ≡ 0
  pub bounded : (i : ℕ) → n ≤ i → s.pc i ≡ []

pub Inv-idle : (n : ℕ) → Inv n idle
Inv-idle n = record {
  bracketed = λ i. tt;
  writer = λ i. (λ e. cc, λ e. cc);
  readers = count-idle n;
  exclusive = λ h. refl;
  bounded = λ i h. refl;
}

starts-Inv :
    (n : ℕ) (s : System) (i : ℕ) (c : Call)
    → i < n
    → s.pc i ≡ []
    → Inv n s
    → Inv n (record { mutex = s.mutex; pc = set_pc s.pc i (program c) })
starts-Inv n s i c lt e v = record {
  bracketed = λ j. ground (arith, program-IsBracketed c, v.bracketed j);
  writer = λ j. ground (arith, program-IsBracketed c, v.writer j);
  readers = ground (arith, program-IsBracketed c, count-set n i s.pc (program c) lt, v.readers);
  exclusive = v.exclusive;
  bounded = λ j h. ground (arith, v.bounded j);
}

moves-Inv :
    (n : ℕ) (s : System) (i : ℕ) (op : Op) (rest : List Op) (m : Mutex)
    → i < n
    → s.pc i ≡ op ∷ rest
    → Fired i s.mutex op m
    → Inv n s
    → Inv n (record { mutex = m; pc = set_pc s.pc i rest })
moves-Inv n s i rlock rest m lt e h v = record {
  bracketed = λ j. ground (arith, v.bracketed i, v.bracketed j);
  writer = λ j. ground (arith, v.writer i, v.writer j);
  readers = ground (arith, count-set n i s.pc rest lt, v.readers, v.bracketed i);
  exclusive = λ w. ground arith;
  bounded = λ j p. ground (arith, v.bounded j);
}
moves-Inv n s i runlock rest m lt e h v = record {
  bracketed = λ j. ground (arith, v.bracketed i, v.bracketed j);
  writer = λ j. ground (arith, v.writer i, v.writer j);
  readers = ground (arith, count-set n i s.pc rest lt, v.readers, v.bracketed i);
  exclusive = λ w. ground (arith, v.exclusive);
  bounded = λ j p. ground (arith, v.bounded j);
}
moves-Inv n s i lock rest m lt e h v = record {
  bracketed = λ j. ground (arith, v.bracketed i, v.bracketed j);
  writer = λ j. ground (arith, v.writer i, v.writer j, v.bracketed i);
  readers = ground (arith, count-set n i s.pc rest lt, v.readers, v.bracketed i);
  exclusive = λ w. ground (arith, v.exclusive);
  bounded = λ j p. ground (arith, v.bounded j);
}
moves-Inv n s i unlock rest m lt e h v = record {
  bracketed = λ j. ground (arith, v.bracketed i, v.bracketed j);
  writer = λ j. ground (arith, v.writer i, v.writer j, v.bracketed i);
  readers = ground (arith, count-set n i s.pc rest lt, v.readers, v.bracketed i);
  exclusive = λ w. ground (arith, v.exclusive);
  bounded = λ j p. ground (arith, v.bounded j);
}

pub Step-Inv :
    {n : ℕ} {Allowed : Call → Type 0} {s t : System} → Step n Allowed s t → Inv n s → Inv n t
Step-Inv {n} {Allowed} {s} (starts i c lt a e) v = starts-Inv n s i c lt e v
Step-Inv {n} {Allowed} {s} (moves i op rest m lt e h) v =
    moves-Inv n s i op rest m lt e (fire-Fired i s.mutex op m h) v

pub Reach-Inv :
    {n : ℕ} {Allowed : Call → Type 0} {s t : System} → Reach n Allowed s t → Inv n s → Inv n t
Reach-Inv here v = v
Reach-Inv (later r st) v = Step-Inv st (Reach-Inv r v)
