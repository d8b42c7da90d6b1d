-- ===== src/Flow/Run/Unfinished.antt =====
-- The steps of a run that have not completed.
use open_fabric.Common.{
  ℕ, zero, suc, ◌≤◌, ◌<◌, ◌≡◌, ◌≢◌, refl, true, false, some, List, [], ◌∷◌, All, arith, inl, inr,
  String, Dict, lookup, delete, lookup-delete, string_eq, length, Bool-cases,
}
use mathlib.Core.List.{Memᴰ}
use mathlib.Core.List.Memᴰ
use open_fabric.Flow.Graph.{Step, is_known, ids}
use open_fabric.Flow.Graph.Sound.{rank}
use open_fabric.Flow.Graph.Names.{IsDistinct, All-both}
use open_fabric.Flow.Run.{
  DagState, has_key, all_completed, may_start, scan, some_failed, and_ready, round_end, stalled,
  accounted,
}
use open_fabric.Flow.Run.Dispatch.{uncascaded}

-- A dependency that is missing where not all are completed.
missing :
    (d : DagState) (deps : List String)
    → all_completed d deps ≡ false
    → (dep : String) × Memᴰ dep deps × (has_key dep d.completed ≡ false)
unfolding all_completed
missing d [] h = absurd (ground arith)
missing d (dep ∷ deps) h = elim (Bool-cases (has_key dep d.completed)) [
  | inr e ↦ (dep, Memᴰ.head refl, e)
  | inl e ↦ let (x, m, q) = missing d deps (ground arith) in (x, Memᴰ.tail m, q)
]

All-member {κ} : (P : String → Type κ) (l : List String) (x : String) → All P l → Memᴰ x l → P x
All-member P [] x h m = absurd (Memᴰ.not-nil m)
All-member P (y ∷ l) x h (Memᴰ.head e) = rw e h.0
All-member P (y ∷ l) x h (Memᴰ.tail m) = All-member P l x h.1 m

-- A step of the list by its name.
step_named {κ} :
    (P : Step → Type κ) (steps : List Step) (id : String)
    → All P steps
    → Memᴰ id (ids steps)
    → (s : Step) × P s × (s.id ≡ id)
unfolding ids
step_named P [] id h m = absurd (Memᴰ.not-nil m)
step_named P (s ∷ steps) id h (Memᴰ.head e) = (s, h.0, ground arith)
step_named P (s ∷ steps) id h (Memᴰ.tail m) = step_named P steps id h.1 m

-- Where nothing may start, runs or has failed, a step that has not completed waits for one.
idle_step :
    (d : DagState) (s : Step)
    → d.running ≡ []
    → d.failed ≡ []
    → may_start d s ≡ false
    → has_key s.id d.completed ≡ false
    → all_completed d s.depends_on ≡ false
unfolding is_known lookup
idle_step d s r f m c = ground arith

abbrev Settled : List Step → DagState → Type 0
Settled steps d = All (λ s. has_key s.id d.completed ≡ true) steps

-- By the ranks, no step is left.
pub below_rank :
    (steps : List Step) (d : DagState) (order : List String) (n : ℕ)
    → All
        (λ s.
          (may_start d s ≡ false)
          × All (λ x. Memᴰ x (ids steps)) s.depends_on
          × All (λ x. rank order x < rank order s.id) s.depends_on)
        steps
    → d.running ≡ []
    → d.failed ≡ []
    → (id : String) → Memᴰ id (ids steps)
    → rank order id < n
    → has_key id d.completed ≡ true
below_rank steps d order zero all r f id m lt = absurd (omega arith)
below_rank steps d order (suc n) all r f id m lt = elim (Bool-cases (has_key id d.completed)) [
  | inl e ↦ e
  | inr e ↦
      let (s, q, same) = step_named _ steps id all m in
      let (dep, member, absent) = missing d s.depends_on (idle_step d s r f q.0 (rw same e)) in
      let low = All-member (λ x. rank order x < rank order s.id) s.depends_on dep q.2 member in
      let here =
        below_rank steps d order n all r f dep
          (All-member (λ x. Memᴰ x (ids steps)) s.depends_on dep q.1 member) (ground arith) in
      absurd (ground arith)
]

length-delete_le : (k : String) (d : Dict String String) → length (delete k d) ≤ length d
unfolding delete
length-delete_le k [] = omega arith
length-delete_le k ((i, v) ∷ d) = ground (arith, length-delete_le k d)

length-delete :
    (k : String) (d : Dict String String) → has_key k d ≡ true → length (delete k d) < length d
unfolding lookup delete
length-delete k [] h = absurd (ground arith)
length-delete k ((i, v) ∷ d) h = elim (Bool-cases (has_key k d)) [
  | inl e ↦ ground (arith, length-delete k d e)
  | inr e ↦ ground (arith, length-delete_le k d)
]

-- Different steps with entries of their own: there are at least as many entries as steps.
pub pigeonhole :
    (steps : List Step) (d : Dict String String)
    → IsDistinct steps
    → All (λ s. has_key s.id d ≡ true) steps
    → length steps ≤ length d
pigeonhole [] d apart h = omega arith
pigeonhole (s ∷ steps) d apart h =
    let rest = pigeonhole steps (delete s.id d) apart.1 (
      All-both (λ t. t.id ≢ s.id) (λ t. has_key t.id d ≡ true)
        (λ t. has_key t.id (delete s.id d) ≡ true) steps
        (λ t ne k. ground (arith, lookup-delete s.id t.id d, string_eq.same_iff s.id t.id)) apart.0
        h.1) in
    omega (arith, length-delete s.id d h.0)

pub All-named :
    (steps : List Step) (P : String → Type 0)
    → ((id : String) → Memᴰ id (ids steps) → P id)
    → All (λ s. P s.id) steps
unfolding ids
All-named [] P f = tt
All-named (s ∷ steps) P f =
    (f s.id (Memᴰ.head refl), All-named steps P (λ id m. f id (Memᴰ.tail m)))

ready_nonempty : (s : Step) (r : DagState × List Step) → (and_ready s r).1 ≢ []
ready_nonempty s r e = ground arith

-- Nothing is ready: no step may start.
pub scan-empty :
    (d : DagState) (steps : List Step)
    → ((id : String) → has_key id d.completed ≡ true → has_key id d.failed ≡ false)
    → (scan d steps).1 ≡ []
    → All (λ s. may_start d s ≡ false) steps
unfolding scan
scan-empty d [] a h = tt
scan-empty d (s ∷ steps) a h = elim (Bool-cases (may_start d s)) [
  | inr e ↦ (e, scan-empty d steps a (rw (e, scan) at h))
  | inl e ↦
      let f : some_failed d s.depends_on ≡ false = uncascaded d s.depends_on a (ground arith) in
      absurd (ready_nonempty s (scan d steps) (rw (e, f, scan) at h))
]

empty_of_length {ℓ} : {A : Type ℓ} (xs : List A) → length xs ≡ 0 → xs ≡ []
empty_of_length [] h = refl
empty_of_length (x ∷ xs) h = absurd (omega arith)

pub round_end-stalled :
    (steps : List Step) (d : DagState) (ready : List Step)
    → round_end steps d ready ≡ some stalled
    → (d.running ≡ []) × (ready ≡ []) × (accounted d < length steps)
round_end-stalled steps d ready h =
    (empty_of_length d.running (ground arith), empty_of_length ready (ground arith), ground arith)

pub All-trivial : (steps : List Step) → All (λ s. s.id ≡ s.id) steps
All-trivial [] = tt
All-trivial (s ∷ steps) = (refl, All-trivial steps)

pub All-three :
    (P Q R : Step → Type 0) (steps : List Step)
    → All P steps
    → All Q steps
    → All R steps
    → All (λ s. P s × Q s × R s) steps
All-three P Q R [] p q r = tt
All-three P Q R (s ∷ steps) p q r = ((p.0, q.0, r.0), All-three P Q R steps p.1 q.1 r.1)
