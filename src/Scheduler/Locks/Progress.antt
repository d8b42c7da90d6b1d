-- ===== src/Scheduler/Locks/Progress.antt =====
-- The calls that take one lock at a time.
use mathlib.Core.Logic.{ite}
use open_fabric.Common.{
  ℕ, zero, suc, subst, ◌≡◌, ◌≢◌, refl, ◌<◌, Bool, true, false, List, [], ◌∷◌, none, some, arith,
  ℕ_discrete, inl, inr, Bool-cases, Option-cases, List-cases, ℕ-cases,
}
use open_fabric.Scheduler.Locks.{
  Op, rlock, runlock, lock, unlock, Mutex, fire, cancelled_before, refused, ran, Call, program,
  reselect, run_ops, System, set_pc, idle, starts, moves, Reach, here, later, submit, evict,
  run_locally, get, list, stats, cancel, shutdown, setter,
}
use open_fabric.Scheduler.Locks.Invariant.{
  writes, reads, count, Inv, Inv-idle, IsBracketed, Reach-Inv,
}
use open_fabric.Scheduler.Locks.Deadlock.{nests}

abbrev opens_with : Op → List Op → Bool
opens_with unlock (unlock ∷ _) = true
opens_with runlock (runlock ∷ _) = true
opens_with _ _ = false

abbrev IsFlat : List Op → Type 0
IsFlat [] = Unit
IsFlat (lock ∷ ops) = (opens_with unlock ops ≡ true) × IsFlat ops
IsFlat (rlock ∷ ops) = (opens_with runlock ops ≡ true) × IsFlat ops
IsFlat (_ ∷ ops) = IsFlat ops

-- A goroutine that holds a lock is about to give it back.
record IsTight (ops : List Op) : Type 0 where
  writing : writes ops ≡ true → opens_with unlock ops ≡ true
  reading : reads ops ≡ true → opens_with runlock ops ≡ true
  flat : IsFlat ops

program-IsTight : (c : Call) → nests c ≡ false → IsTight (program c)
unfolding nests program run_ops reselect
program-IsTight (submit true) h = ground arith
program-IsTight (submit false) h = ground arith
program-IsTight (evict zero) h = ground arith
program-IsTight (evict (suc n)) h = ground arith
program-IsTight (run_locally cancelled_before) h = ground arith
program-IsTight (run_locally refused) h = ground arith
program-IsTight (run_locally ran) h = ground arith
program-IsTight get h = ground arith
program-IsTight list h = ground arith
program-IsTight stats h = ground arith
program-IsTight cancel h = ground arith
program-IsTight shutdown h = ground arith
program-IsTight setter h = ground arith

rest-IsTight :
    (op : Op) (rest : List Op) → IsBracketed (op ∷ rest) → IsTight (op ∷ rest) → IsTight rest
rest-IsTight rlock rest b t = record {
  writing = λ w. ground (arith, t.writing);
  reading = λ w. t.flat.0;
  flat = t.flat.1;
}
rest-IsTight runlock rest b t = record {
  writing = λ w. ground (arith, t.writing);
  reading = λ w. ground arith;
  flat = t.flat;
}
rest-IsTight lock rest b t = record {
  writing = λ w. t.flat.0;
  reading = λ w. ground (arith, t.reading);
  flat = t.flat.1;
}
rest-IsTight unlock rest b t = record {
  writing = λ w. ground arith;
  reading = λ w. ground (arith, t.reading);
  flat = t.flat;
}

abbrev pub Flat : Call → Type 0
Flat c = nests c ≡ false

set_pc-rule {κ} :
    (P : List Op → Type κ) (f : ℕ → List Op) (i : ℕ) (ops : List Op) (j : ℕ)
    → P ops
    → P (f j)
    → P (set_pc f i ops j)
set_pc-rule P f i ops j p q = elim (ℕ_discrete i j) as (λ d. P (ite d ops (f j))) [
  | yes _ ↦ p
  | no _ ↦ q
]

Reach-IsTight : {n : ℕ} {s : System} → Reach n Flat idle s → (i : ℕ) → IsTight (s.pc i)
Reach-IsTight here i = ground arith
Reach-IsTight {n} (later {t} r (starts j c lt a e)) i =
    set_pc-rule IsTight t.pc j (program c) i (program-IsTight c a) (Reach-IsTight r i)
Reach-IsTight {n} (later {t} r (moves j op rest m lt e h)) i =
    set_pc-rule IsTight t.pc j rest i
      (rest-IsTight op rest (subst IsBracketed e ((Reach-Inv r (Inv-idle n)).bracketed j))
        (subst IsTight e (Reach-IsTight r j)))
      (Reach-IsTight r i)

reader : (n : ℕ) (f : ℕ → List Op) → 0 < count n f → (j : ℕ) × (j < n) × (reads (f j) ≡ true)
reader zero f h = absurd (omega arith)
reader (suc n) f h = elim (Bool-cases (reads (f n))) [
  | inl e ↦ (n, omega arith, e)
  | inr e ↦ let (j, lt, r) = reader n f (ground arith) in (j, omega arith, r)
]

count-pos : (n i : ℕ) (f : ℕ → List Op) → i < n → reads (f i) ≡ true → 0 < count n f
count-pos zero i f h e = absurd (omega arith)
count-pos (suc n) i f h e = elim (ℕ_discrete i n) [
  | yes p ↦ ground arith
  | no p ↦ omega (arith, count-pos n i f (omega arith) e)
]

opens_with-unlock :
    (p : List Op) → opens_with unlock p ≡ true → (rest : List Op) × (p ≡ unlock ∷ rest)
opens_with-unlock (unlock ∷ rest) h = (rest, refl)
opens_with-unlock (lock ∷ rest) h = ground arith
opens_with-unlock (rlock ∷ rest) h = ground arith
opens_with-unlock (runlock ∷ rest) h = ground arith
opens_with-unlock [] h = ground arith

opens_with-runlock :
    (p : List Op) → opens_with runlock p ≡ true → (rest : List Op) × (p ≡ runlock ∷ rest)
opens_with-runlock (runlock ∷ rest) h = (rest, refl)
opens_with-runlock (lock ∷ rest) h = ground arith
opens_with-runlock (rlock ∷ rest) h = ground arith
opens_with-runlock (unlock ∷ rest) h = ground arith
opens_with-runlock [] h = ground arith

-- A step by which some goroutine does an operation of its call.
pub record CanAdvance (n : ℕ) (s : System) : Type 0 where
  who : ℕ
  op : Op
  rest : List Op
  mutex : Mutex
  valid : who < n
  todo : s.pc who ≡ op ∷ rest
  fires : fire who s.mutex op ≡ some mutex

advance-written :
    (n : ℕ) (s : System) (w : ℕ)
    → Inv n s
    → ((i : ℕ) → IsTight (s.pc i))
    → s.mutex.writer ≡ some w
    → CanAdvance n s
unfolding fire
advance-written n s w v t e =
    let writing = (v.writer w).1 e in
    let (rest, p) = opens_with-unlock (s.pc w) ((t w).writing writing) in
    record {
      who = w;
      op = unlock;
      rest = rest;
      mutex = record s.mutex { writer = none };
      valid = ground (arith, v.bounded w);
      todo = p;
      fires = ground arith;
    }

advance-read :
    (n : ℕ) (s : System) (r : ℕ)
    → Inv n s
    → ((i : ℕ) → IsTight (s.pc i))
    → s.mutex.readers ≡ suc r
    → CanAdvance n s
unfolding fire
advance-read n s r v t e =
    let (j, lt, reading) = reader n s.pc (omega (arith, v.readers)) in
    let (rest, p) = opens_with-runlock (s.pc j) ((t j).reading reading) in
    record {
      who = j;
      op = runlock;
      rest = rest;
      mutex = record s.mutex { readers = r };
      valid = lt;
      todo = p;
      fires = ground arith;
    }

advance-free :
    (n : ℕ) (s : System) (i : ℕ) (op : Op) (rest : List Op)
    → Inv n s
    → s.pc i ≡ op ∷ rest
    → s.mutex.writer ≡ none
    → s.mutex.readers ≡ 0
    → i < n
    → CanAdvance n s
unfolding fire
advance-free n s i rlock rest v e w r lt = record {
  who = i;
  op = rlock;
  rest = rest;
  mutex = record s.mutex { readers = 1 };
  valid = lt;
  todo = e;
  fires = rw (w, r) refl;
}
advance-free n s i lock rest v e w r lt = record {
  who = i;
  op = lock;
  rest = rest;
  mutex = record s.mutex { writer = some i };
  valid = lt;
  todo = e;
  fires = ground arith;
}
advance-free n s i unlock rest v e w r lt = absurd (ground (arith, v.writer i))
advance-free n s i runlock rest v e w r lt =
    absurd (ground (arith, v.readers, count-pos n i s.pc lt))

-- Without an accepted Submit and without a HandleNodeEvicted that has a task to move, s.mu never deadlocks: in every reachable state with a goroutine in the middle of a call, some goroutine can do the next operation of its call.
pub unnested_never_blocked :
    (n i : ℕ) (s : System) → Reach n Flat idle s → s.pc i ≢ [] → CanAdvance n s
unnested_never_blocked n i s r h =
    let v = Reach-Inv r (Inv-idle n) in
    elim (Option-cases s.mutex.writer) [
      | inr (w, e) ↦ advance-written n s w v (Reach-IsTight r) e
      | inl e ↦ elim (ℕ-cases s.mutex.readers) [
        | inr (k, q) ↦ advance-read n s k v (Reach-IsTight r) q
        | inl q ↦ elim (List-cases (s.pc i)) [
          | inl none_left ↦ absurd (h none_left)
          | inr (op, rest, p) ↦ advance-free n s i op rest v p e q (ground (arith, v.bounded i))
        ]
      ]
    ]
