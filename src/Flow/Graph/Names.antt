-- ===== src/Flow/Graph/Names.antt =====
-- The names of steps in the checks of validateDependencies.
use open_fabric.Common.{
  ◌≡◌, ◌≢◌, sym, true, false, not, ◌&&◌, none, List, [], ◌∷◌, All, All-map, arith, inl, inr, String,
  Dict, lookup, insert, string_eq, ◌==◌, Bool-cases, Option-cases,
}
use mathlib.Core.List.{Memᴰ}
use open_fabric.Flow.Graph.{
  Step, save_path, writes_file, is_known, check_ids, check_dependencies, check_references,
  dependencies,
}

-- No later step has the identifier of an earlier one.
abbrev pub IsDistinct : List Step → Type 0
IsDistinct [] = Unit
IsDistinct (s ∷ steps) = All (λ t. t.id ≢ s.id) steps × IsDistinct steps

-- The steps that are still to come are not known yet.
check_ids-cases :
    (known : List String) (targets : Dict String String) (s : Step) (steps : List Step)
    → check_ids known targets (s ∷ steps) ≡ none
    → (s.id ≢ "")
      × (is_known s.id known ≡ false)
      × ((t : Dict String String) × (check_ids (s.id ∷ known) t steps ≡ none))
unfolding check_ids
check_ids-cases known targets s steps h =
    elim (Bool-cases (not (save_path s == "") && writes_file s.kind)) [
      | inr e ↦ (ground (arith, string_eq.same_iff s.id ""), ground arith, (targets, ground arith))
      | inl e ↦ elim (Option-cases (lookup (save_path s) targets)) [
        | inl free ↦ (
          ground (arith, string_eq.same_iff s.id ""),
          ground arith,
          (insert (save_path s) s.id targets, ground arith),
        )
        | inr (first, taken) ↦ absurd (ground arith)
      ]
    ]

pub check_ids-IsDistinct :
    (known : List String) (targets : Dict String String) (steps : List Step)
    → check_ids known targets steps ≡ none
    → All (λ s. s.id ≢ "") steps × IsDistinct steps × All (λ s. is_known s.id known ≡ false) steps
unfolding is_known
check_ids-IsDistinct known targets [] h = (tt, tt, tt)
check_ids-IsDistinct known targets (s ∷ steps) h =
    let (named, fresh, more) = check_ids-cases known targets s steps h in
    let (names, apart, unknown) = check_ids-IsDistinct (s.id ∷ known) more.0 steps more.1 in
    (
      (named, names),
      (
        All-map (λ x. is_known x.id (s.id ∷ known) ≡ false) (λ x. x.id ≢ s.id) steps
            (λ x u. ground (arith, string_eq.same_iff s.id x.id)) unknown,
        apart,
      ),
      (
        fresh,
        All-map (λ x. is_known x.id (s.id ∷ known) ≡ false) (λ x. is_known x.id known ≡ false) steps
            (λ x u. ground arith) unknown,
      ),
    )

is_known-member : (id : String) (known : List String) → is_known id known ≡ true → Memᴰ id known
unfolding is_known
is_known-member id [] h = absurd (ground arith)
is_known-member id (k ∷ known) h = elim (Bool-cases (k == id)) [
  | inl e ↦ Memᴰ.head (sym ((string_eq.same_iff k id).0 e))
  | inr e ↦ Memᴰ.tail (is_known-member id known (ground arith))
]

check_dependencies-known :
    (known : List String) (id : String) (deps : List String)
    → check_dependencies known id deps ≡ none
    → All (λ d. Memᴰ d known) deps
unfolding check_dependencies
check_dependencies-known known id [] h = tt
check_dependencies-known known id (d ∷ deps) h = elim (Bool-cases (is_known d known)) [
  | inl e ↦ (is_known-member d known e, check_dependencies-known known id deps (ground arith))
  | inr e ↦ absurd (ground arith)
]

pub check_references-known :
    (known : List String) (steps : List Step)
    → check_references known steps ≡ none
    → All (λ s. All (λ d. Memᴰ d known) s.depends_on) steps
unfolding check_references
check_references-known known [] h = tt
check_references-known known (s ∷ steps) h =
    elim (Option-cases (check_dependencies known s.id s.depends_on)) [
      | inl e ↦ (
        check_dependencies-known known s.id s.depends_on e,
        check_references-known known steps (ground arith),
      )
      | inr (x, e) ↦ absurd (ground arith)
    ]

pub dependencies-All {κ} :
    (P : String → Type κ) (steps : List Step)
    → All (λ s. All P s.depends_on) steps
    → (id : String) → All P (dependencies steps id)
unfolding dependencies
dependencies-All P [] h id = tt
dependencies-All P (s ∷ steps) h id = elim (Bool-cases (s.id == id)) [
  | inl e ↦ rw (e, dependencies) h.0
  | inr e ↦ rw (e, dependencies) (dependencies-All P steps h.1 id)
]

pub All-both :
    (P Q R : Step → Type 0) (steps : List Step)
    → ((s : Step) → P s → Q s → R s)
    → All P steps
    → All Q steps
    → All R steps
All-both P Q R [] f p q = tt
All-both P Q R (s ∷ steps) f p q = (f s p.0 q.0, All-both P Q R steps f p.1 q.1)
