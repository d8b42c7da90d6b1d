-- ===== src/Gpu/Budget/Lowest.antt =====
-- The candidate for preemption, in whatever order the map is walked.
use open_fabric.Common.{
  ◌≡◌, ◌≢◌, sym, ap, ◌∙◌, String, ◌&&◌, if◌then◌else◌, none, some, [], ◌∷◌, Dict, string_eq, All,
  arith, Bool-cases, inl, inr, ◌⊎◌,
}
use mathlib.Core.List.{Memᴰ}
use mathlib.Core.Option.{some-injective}
use open_fabric.Common.Int.{◌≤ℤ◌}
use open_fabric.Gpu.Budget.{
  Manager, Reservation, active, is_active, lowest_priority_active, lowest_from, is_lower,
}

abbrev pub NoneBelow : Reservation → Dict String Reservation → Type 0
NoneBelow r = All λ (e : String × Reservation). e.1.status ≡ active → r.priority ≤ℤ e.1.priority

abbrev pub Among : Reservation → Dict String Reservation → Type 0
Among r rs = (id : String) × Memᴰ (id, r) rs × (r.status ≡ active)

Among-tail :
    {r : Reservation} {e : String × Reservation} {rs : Dict String Reservation}
    → Among r rs
    → Among r (e ∷ rs)
Among-tail (id, there, a) = (id, Memᴰ.tail there, a)

-- The answer for a row of entries, given the lowest found before them.
lowest_from-some :
    (first r : Reservation) (rs : Dict String Reservation)
    → lowest_from (some first) rs ≡ some r
    → (r.priority ≤ℤ first.priority) × NoneBelow r rs × ((r ≡ first) ⊎ Among r rs)
unfolding lowest_from
lowest_from-some first r [] h =
    let e = some-injective _ _ h in (rw e (omega arith), tt, inl (sym e))
lowest_from-some first r ((id, x) ∷ rs) h =
    elim (Bool-cases (is_active x.status && is_lower x (some first))) [
      | inl better ↦
          let (le, below, found) = lowest_from-some x r rs (rw better at h) in
          (
            ground arith,
            (λ a. le, below),
            inr (elim found [
              | inl e ↦ (
                id,
                Memᴰ.head (ap (λ y. (id, y)) e),
                ap (λ (y : Reservation). y.status) e ∙ ground arith,
              )
              | inr there ↦ Among-tail there
            ]),
          )
      | inr worse ↦
          let (le, below, found) = lowest_from-some first r rs (rw worse at h) in
          (
            le,
            (λ a. ground arith, below),
            elim found [ inl e ↦ inl e | inr there ↦ inr (Among-tail there) ],
          )
    ]

lowest_from-none :
    (r : Reservation) (rs : Dict String Reservation)
    → lowest_from none rs ≡ some r
    → NoneBelow r rs × Among r rs
unfolding lowest_from
lowest_from-none r [] h = absurd (ground arith)
lowest_from-none r ((id, x) ∷ rs) h = elim (Bool-cases (is_active x.status)) [
  | inl on ↦
      let (le, below, found) = lowest_from-some x r rs (rw on at h) in
      (
        (λ a. le, below),
        elim found [
          | inl e ↦ (
            id,
            Memᴰ.head (ap (λ y. (id, y)) e),
            ap (λ (y : Reservation). y.status) e ∙ ground arith,
          )
          | inr there ↦ Among-tail there
        ],
      )
  | inr off ↦
      let (below, found) = lowest_from-none r rs (rw off at h) in
      ((λ a. absurd (ground arith), below), Among-tail found)
]

lowest_from-keeps :
    (first : Reservation) (rs : Dict String Reservation) → lowest_from (some first) rs ≢ none
unfolding lowest_from
lowest_from-keeps first [] h = cc
lowest_from-keeps first ((id, x) ∷ rs) h =
    lowest_from-keeps (if is_active x.status && is_lower x (some first) then x else first) rs
      (ground arith)

none_active :
    (rs : Dict String Reservation)
    → lowest_from none rs ≡ none
    → All (λ (e : String × Reservation). e.1.status ≢ active) rs
unfolding lowest_from
none_active [] h = tt
none_active ((id, x) ∷ rs) h = elim (Bool-cases (is_active x.status)) [
  | inl on ↦ absurd (lowest_from-keeps x rs (rw on at h))
  | inr off ↦ (λ a. absurd (ground arith), none_active rs (rw off at h))
]

-- In whatever order the map is walked, the candidate is an active reservation of the map whose
-- priority no active one is below; there is none only if no reservation is active.
pub lowest_priority_active-least :
    (m : Manager)
    → ((r : Reservation)
        → lowest_priority_active m ≡ some r
        → NoneBelow r m.reservations × Among r m.reservations)
      × (lowest_priority_active m ≡ none
          → All (λ (e : String × Reservation). e.1.status ≢ active) m.reservations)
unfolding lowest_priority_active
lowest_priority_active-least m =
    (λ r h. lowest_from-none r m.reservations h, none_active m.reservations)
