-- ===== src/Gpu/Budget/Lifecycle.antt =====
-- The life of one reservation: pending, active, and closed for good.
use open_fabric.Common.{
  ℕ, ◌≡◌, refl, ap, ◌∙◌, String, true, false, ◌&&◌, ltb, Option, none, some, List, [], ◌∷◌, Dict,
  lookup, insert, lookup-insert, lookup-insert_self, string_eq, arith, Bool-cases, Option-cases,
  inl, inr, ◌==◌, ==-eq, ◌⊎◌, ◌≢◌,
}
use mathlib.Core.Option
use open_fabric.Gpu.Budget.{
  Reservation, pending, active, released, expired, Manager, Request, VramStats, is_pending,
  is_closed, reserve, activate, not_found, not_pending, new_reservation, release, expire_one,
  expire_all, expire_old_reservations, Call, reserves, activates, releases, expires, step, run,
}

lookup-expire_all :
    (now : ℕ) (id : String) (rs : Dict String Reservation)
    → lookup id (expire_all now rs) ≡ Option.map (expire_one now) (lookup id rs)
unfolding lookup expire_all
lookup-expire_all now id [] = refl
lookup-expire_all now id ((j, r) ∷ rs) = ground (arith, lookup-expire_all now id rs)

module _ (m : Manager) (id : String) (now : ℕ) where
  release_missing : lookup id m.reservations ≡ none → release m id now ≡ m
  unfolding release
  release_missing e = rw e

  pub release_closed :
      (r : Reservation)
      → lookup id m.reservations ≡ some r
      → is_closed r.status ≡ true
      → release m id now ≡ m
  unfolding release
  release_closed r e c = rw e (rw c)

  pub release_live :
      (r : Reservation)
      → lookup id m.reservations ≡ some r
      → is_closed r.status ≡ false
      → release m id now ≡ record m {
        reservations = insert id (record r { status = released; released_at = now }) m.reservations;
      }
  unfolding release
  release_live r e c = rw e (rw c)

-- The entries after a release: that of `id` is closed, no other entry changes, and a second release
-- at any time changes nothing.
abbrev pub ReleaseCloses : Manager → Manager → String → ℕ → Type 0
ReleaseCloses m m' id later =
    ((r : Reservation) → lookup id m'.reservations ≡ some r → is_closed r.status ≡ true)
    × ((j : String) → (id == j) ≡ false → lookup j m'.reservations ≡ lookup j m.reservations)
    × (release m' id later ≡ m')

-- `Release` closes the reservation of its identifier, if there is one, leaves every other entry
-- as it is, and has no effect the second time.
pub release_closes :
    (m : Manager) (id : String) (now later : ℕ) → ReleaseCloses m (release m id now) id later
release_closes m id now later = elim (Option-cases (lookup id m.reservations)) [
  | inl e ↦
      rw (release_missing m id now e)
        (λ r h. ground arith, λ j h. refl, release_missing m id later e)
  | inr (r, e) ↦ elim (Bool-cases (is_closed r.status)) [
    | inl c ↦
        rw (release_closed m id now r e c)
          (λ x h. ground arith, λ j h. refl, release_closed m id later r e c)
    | inr c ↦
        let r' = record r { status = released; released_at = now } in
        let self = lookup-insert_self id r' m.reservations in
        rw (release_live m id now r e c) (
          λ x h. ground arith,
          λ j h. ground (arith, lookup-insert id j r' m.reservations),
          release_closed _ id later r' self refl,
        )
  ]
]

-- New reservations have fresh identifiers.
abbrev pub Fresh : Manager → Call → Type 0
Fresh m (reserves q v id now) = lookup id m.reservations ≡ none
Fresh m _ = Unit

abbrev pub AllFresh : Manager → List Call → Type 0
AllFresh m [] = Unit
AllFresh m (c ∷ cs) = Fresh m c × AllFresh (step m c) cs

-- Before and after one call, an entry is the same or went forward.
pub data Forward : Reservation → Reservation → Type 0 where
  same : {r : Reservation} → Forward r r
  activated :
      {r : Reservation} (now : ℕ)
      → r.status ≡ pending
      → Forward r (record r { status = active; activated_at = now })
  ended :
      {r : Reservation} (now : ℕ)
      → is_closed r.status ≡ false
      → Forward r (record r { status = released; released_at = now })
  lapsed : {r : Reservation} → r.status ≡ pending → Forward r (record r { status = expired })

insert_other :
    (m : Dict String Reservation) (j id : String) (x r : Reservation)
    → (lookup j m ≡ none) ⊎ ((j == id) ≡ false)
    → lookup id m ≡ some r
    → lookup id (insert j x m) ≡ some r
insert_other m j id x r h e = ground (arith, lookup-insert j id x m, string_eq.same_iff j id)

same_entry :
    (m : Manager) (j id : String) (r : Reservation)
    → (j == id) ≡ true
    → lookup id m.reservations ≡ some r
    → lookup j m.reservations ≡ some r
same_entry m j id r hit e = ap (λ k. lookup k m.reservations) (==-eq j id hit) ∙ e

reserve_forward :
    (m : Manager) (q : Request) (v : Option VramStats) (j : String) (now : ℕ) (id : String)
    (r : Reservation)
    → lookup j m.reservations ≡ none
    → lookup id m.reservations ≡ some r
    → lookup id (reserve m q v j now).0.reservations ≡ some r
unfolding reserve
reserve_forward m q none j now id r f e = e
reserve_forward m q (some v) j now id r f e =
    ground (arith, insert_other m.reservations j id (new_reservation m q j now) r (inl f) e)

activate_other :
    (m : Manager) (j : String) (now : ℕ) (id : String) (r : Reservation)
    → (j == id) ≡ false
    → lookup id m.reservations ≡ some r
    → lookup id (activate m j now).0.reservations ≡ some r
unfolding activate
activate_other m j now id r miss e = elim (Option-cases (lookup j m.reservations)) [
  | inl none_there ↦ rw none_there e
  | inr (x, there) ↦
      let x' = record x { status = active; activated_at = now } in
      rw there (ground (arith, insert_other m.reservations j id x' r (inr miss) e))
]

activate-Forward :
    (m : Manager) (j : String) (now : ℕ) (id : String) (r : Reservation)
    → lookup id m.reservations ≡ some r
    → (r' : Reservation) × (lookup id (activate m j now).0.reservations ≡ some r') × Forward r r'
unfolding activate
activate-Forward m j now id r e = elim (Bool-cases (j == id)) [
  | inl hit ↦ rw (same_entry m j id r hit e) (elim (Bool-cases (is_pending r.status)) [
    | inl p ↦
        let r' = record r { status = active; activated_at = now } in
        rw p (r', lookup-insert j id r' m.reservations ∙ rw hit, activated now (ground arith))
    | inr p ↦ rw p (r, e, same)
  ])
  | inr miss ↦ (r, activate_other m j now id r miss e, same)
]

release-Forward :
    (m : Manager) (j : String) (now : ℕ) (id : String) (r : Reservation)
    → lookup id m.reservations ≡ some r
    → (r' : Reservation) × (lookup id (release m j now).reservations ≡ some r') × Forward r r'
release-Forward m j now id r e = elim (Bool-cases (j == id)) [
  | inl hit ↦
      let ej = same_entry m j id r hit e in
      elim (Bool-cases (is_closed r.status)) [
        | inl c ↦ rw (release_closed m j now r ej c) (r, e, same)
        | inr c ↦
            let r' = record r { status = released; released_at = now } in
            rw (release_live m j now r ej c)
              (r', lookup-insert j id r' m.reservations ∙ rw hit, ended now c)
      ]
  | inr miss ↦ (r, (release_closes m j now 0).1 id miss ∙ e, same)
]

expire-Forward : (now : ℕ) (r : Reservation) → Forward r (expire_one now r)
unfolding expire_one
expire-Forward now r = elim (Bool-cases (is_pending r.status && ltb r.expires_at now)) [
  | inl late ↦ rw late (lapsed (ground arith))
  | inr kept ↦ rw kept same
]

-- One call, its new identifier fresh, takes every entry one step forward or leaves it: a pending
-- reservation may become active or expired, one that is not closed may become released.
pub step-Forward :
    (m : Manager) (c : Call) (id : String) (r : Reservation)
    → Fresh m c
    → lookup id m.reservations ≡ some r
    → (r' : Reservation) × (lookup id (step m c).reservations ≡ some r') × Forward r r'
unfolding step expire_old_reservations
step-Forward m (reserves q v j now) id r f e = (r, reserve_forward m q v j now id r f e, same)
step-Forward m (activates j now) id r f e = activate-Forward m j now id r e
step-Forward m (releases j now) id r f e = release-Forward m j now id r e
step-Forward m (expires now) id r f e = (
  expire_one now r,
  lookup-expire_all now id m.reservations ∙ ap (Option.map (expire_one now)) e,
  expire-Forward now r,
)

closed_stays : {r r' : Reservation} → Forward r r' → is_closed r.status ≡ true → r' ≡ r
closed_stays same c = refl
closed_stays (activated now p) c = absurd (ground arith)
closed_stays (ended now p) c = absurd (ground arith)
closed_stays (lapsed p) c = absurd (ground arith)

-- A reservation that was released or has expired keeps its record, whatever calls follow, as long as
-- no new reservation takes its identifier: it is never live again.
pub closed_for_good :
    (m : Manager) (cs : List Call) (id : String) (r : Reservation)
    → AllFresh m cs
    → lookup id m.reservations ≡ some r
    → is_closed r.status ≡ true
    → lookup id (run m cs).reservations ≡ some r
unfolding run
closed_for_good m [] id r f e c = e
closed_for_good m (k ∷ ks) id r f e c =
    let (r', e', forward) = step-Forward m k id r f.0 e in
    closed_for_good (step m k) ks id r f.1 (e' ∙ ap some (closed_stays forward c)) c

-- `Activate` succeeds exactly on a pending reservation, which becomes active at that time; on any
-- other identifier it fails and changes nothing.
pub activate_exact :
    (m : Manager) (id : String) (now : ℕ)
    → ((r : Reservation)
        → lookup id m.reservations ≡ some r
        → r.status ≡ pending
        → ((activate m id now).1 ≡ none)
          × (lookup id (activate m id now).0.reservations
              ≡ some (record r { status = active; activated_at = now })))
      × ((r : Reservation)
          → lookup id m.reservations ≡ some r
          → r.status ≢ pending
          → activate m id now ≡ (m, some not_pending))
      × (lookup id m.reservations ≡ none → activate m id now ≡ (m, some not_found))
unfolding activate
activate_exact m id now = (
  λ r e p. rw (e, p) (refl, lookup-insert_self id _ m.reservations),
  λ r e p. rw e (ground arith),
  λ e. rw e,
)
