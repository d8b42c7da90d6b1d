-- ===== src/Common/Maps.antt =====
-- A Go map as an association list in iteration order: each key stands once.
use mathlib.Core.Path.{◌≡◌, refl, subst}
use mathlib.Core.List.{List, [], ◌∷◌}
use mathlib.Core.Logic.{inl, inr, ◌≢◌}
use mathlib.Core.Option.{Option, none, some}
use native.Mathlib.Omega.{arith}
use open_fabric.Common.Tests.{Eq, ◌==◌, if◌then◌else◌, ==-refl, ==-eq, ==-sym, Bool-cases}
use open_fabric.Common.Lists.{All, All-map}

abbrev pub Dict : Type 0 → Type 0 → Type 0
Dict K V = List (K × V)

pair_eq {ℓ κ} :
    {A : Type ℓ} {B : Type κ} {a b : A} {c d : B} → a ≡ b → c ≡ d → ◌≡◌ {A = A × B} (a, c) (b, d)
pair_eq e f = ground arith

module _ {K V : Type 0} ⦃e : Eq K⦄ where
  unfoldable pub lookup : K → Dict K V → Option V
  lookup key [] = none
  lookup key ((i, old) ∷ rest) = if i == key then some old else lookup key rest

  -- `m[key] = new`
  unfoldable pub insert : K → V → Dict K V → Dict K V
  insert key new [] = (key, new) ∷ []
  insert key new ((i, old) ∷ rest) =
      if i == key then (key, new) ∷ rest else (i, old) ∷ insert key new rest

  -- `delete(m, key)`
  unfoldable pub delete : K → Dict K V → Dict K V
  delete key [] = []
  delete key ((i, old) ∷ rest) =
      let others = delete key rest in if i == key then others else (i, old) ∷ others

  pub lookup-insert :
      (key other : K) (new : V) (d : Dict K V)
      → lookup other (insert key new d) ≡ (if key == other then some new else lookup other d)
  unfolding lookup insert
  lookup-insert key other new [] = refl
  lookup-insert key other new ((i, old) ∷ rest) = ground (
    arith,
    e.same_iff key other,
    e.same_iff i key,
    e.same_iff i other,
    lookup-insert key other new rest,
  )

  pub lookup-insert_self : (k : K) (v : V) (m : Dict K V) → lookup k (insert k v m) ≡ some v
  lookup-insert_self k v m = ground (arith, lookup-insert k k v m, ==-refl k)

  pub lookup-delete :
      (k j : K) (m : Dict K V) → lookup j (delete k m) ≡ (if k == j then none else lookup j m)
  unfolding lookup delete
  lookup-delete k j [] = ground arith
  lookup-delete k j ((i, w) ∷ m) =
      ground (arith, e.same_iff k j, e.same_iff i k, e.same_iff i j, lookup-delete k j m)

  -- Each key stands once.
  abbrev pub IsDistinct : Dict K V → Type 0
  IsDistinct [] = Unit
  IsDistinct ((i, v) ∷ rest) = (lookup i rest ≡ none) × IsDistinct rest

  pub insert-IsDistinct : (k : K) (v : V) (d : Dict K V) → IsDistinct d → IsDistinct (insert k v d)
  unfolding insert lookup
  insert-IsDistinct k v [] h = (refl, tt)
  insert-IsDistinct k v ((i, w) ∷ rest) h = elim (Bool-cases (i == k)) [
    | inl e ↦ rw (e, insert) (rw (← (==-eq i k e)) h.0, h.1)
    | inr e ↦
        rw (e, insert)
          (rw (lookup-insert k i v rest, ==-sym k i, e) h.0, insert-IsDistinct k v rest h.1)
  ]

  -- A property of every entry.
  pub All-insert {κ} :
      (P : K × V → Type κ) (k : K) (v : V) (d : Dict K V)
      → P (k, v)
      → All P d
      → All P (insert k v d)
  unfolding insert
  All-insert P k v [] p h = (p, tt)
  All-insert P k v ((i, w) ∷ rest) p h = elim (Bool-cases (i == k)) [
    | inl e ↦ rw (e, insert) (p, h.1)
    | inr e ↦ rw (e, insert) (h.0, All-insert P k v rest p h.1)
  ]

  pub lookup-All {κ} :
      (P : K × V → Type κ) (k : K) (v : V) (d : Dict K V) → lookup k d ≡ some v → All P d → P (k, v)
  unfolding lookup
  lookup-All P k v [] e h = absurd (ground arith)
  lookup-All P k v ((i, w) ∷ rest) e h = elim (Bool-cases (i == k)) [
    | inl q ↦ subst P (pair_eq (==-eq i k q) (ground arith)) h.0
    | inr q ↦ lookup-All P k v rest (ground arith) h.1
  ]

  absent-All : (k : K) (d : Dict K V) → lookup k d ≡ none → All (λ e. e.0 ≢ k) d
  unfolding lookup
  absent-All k [] h = tt
  absent-All k ((i, w) ∷ rest) h = elim (Bool-cases (i == k)) [
    | inl q ↦ absurd (ground arith)
    | inr q ↦ ((λ p. ground (arith, p, e.same_iff i k)), absent-All k rest (ground arith))
  ]

  -- The only entry of a key is the one that is found.
  pub found_unique :
      (k : K) (v : V) (d : Dict K V)
      → IsDistinct d
      → lookup k d ≡ some v
      → All (λ e. e.0 ≡ k → e.1 ≡ v) d
  unfolding lookup
  found_unique k v [] h f = tt
  found_unique k v ((i, w) ∷ rest) h f = elim (Bool-cases (i == k)) [
    | inl q ↦ (
      (λ _. ground arith),
      All-map (λ x. x.0 ≢ k) (λ x. x.0 ≡ k → x.1 ≡ v) rest (λ x n p. absurd (n p))
          (absent-All k rest (rw (==-eq i k q) at h.0)),
    )
    | inr q ↦ (
      (λ p. absurd (ground (arith, p, e.same_iff i k))),
      found_unique k v rest h.1 (ground arith),
    )
  ]
