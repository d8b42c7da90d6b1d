-- ===== src/Gpu/Budget/Admission.antt =====
-- What `Reserve` admits, and the bound that all calls together keep.
use open_fabric.Common.{
  ℕ, ◌+◌, ◌≤◌, ◌<◌, ◌≡◌, refl, sym, ap, ◌∙◌, String, true, false, none, some, ◌⊎◌, List, [], ◌∷◌,
  lookup, insert, string_eq, arith, Bool-cases, Option-cases, inl, inr, ltb, leb, leb→le, subst,
}
use open_fabric.Common.Int.{pos, ◌-ℤ◌, ltb_ℤ, wrap64, pos_part}
use open_fabric.Gpu.Budget.{
  Reservation, Manager, Request, VramStats, ReserveError, granted, denied, effective_free,
  pending_bytes, available_bytes, safety_margin_bytes, reserve, activate, release,
  expire_old_reservations, Call, reserves, activates, releases, expires, step, run, new_reservation,
  is_pending, is_closed,
}
use open_fabric.Gpu.Budget.Live.{
  live_sum, Sized, weight, pending_bytes-live_sum, live_sum-insert_new, live_sum-insert_old,
  live_sum-expire_all, insert-Sized, lookup-Sized, expire_all-Sized,
}

-- Sizes are sane, and far from the ends of int64.
pub record InBounds (m : Manager) (v : VramStats) : Type 0 where
  pub sized : Sized m.reservations
  pub small : live_sum m.reservations < 4611686018427387904
  pub reading : pos_part (effective_free v) ≤ 4611686018427387904

effective_free-pos : (v : VramStats) → effective_free v ≡ pos (pos_part (effective_free v))
unfolding effective_free
effective_free-pos v = ground arith

difference_fits :
    (e held : ℕ)
    → e ≤ 4611686018427387904
    → held < 4611686018427387904
    → wrap64 (wrap64 (pos e -ℤ pos held) -ℤ pos safety_margin_bytes)
      ≡ pos e -ℤ pos (held + safety_margin_bytes)
unfolding wrap64 ◌-ℤ◌
difference_fits e held h k = ground arith

-- The bytes that `Reserve` compares with the request.
available_eq :
    (m : Manager) (v : VramStats)
    → InBounds m v
    → available_bytes m v
      ≡ pos (pos_part (effective_free v)) -ℤ pos (live_sum m.reservations + safety_margin_bytes)
unfolding available_bytes
available_eq m v b =
    ap (λ x. wrap64 (wrap64 (x -ℤ pending_bytes m) -ℤ pos safety_margin_bytes))
      (effective_free-pos v)
    ∙ ap (λ x. wrap64 (wrap64 (pos (pos_part (effective_free v)) -ℤ x) -ℤ pos safety_margin_bytes))
        (pending_bytes-live_sum m b.sized (omega (arith, b.small)))
    ∙ difference_fits _ _ (omega (arith, b.reading)) b.small

enough :
    (e held n : ℕ)
    → ltb_ℤ (pos e -ℤ pos (held + safety_margin_bytes)) (pos n)
      ≡ ltb e (held + safety_margin_bytes + n)
unfolding ◌-ℤ◌
enough e held n = ground arith

reserve-denied :
    (m : Manager) (q : Request) (v : VramStats) (id : String) (now : ℕ)
    → ltb_ℤ (available_bytes m v) q.bytes_needed ≡ true
    → ((reserve m q (some v) id now).0 ≡ m)
      × ((e : ReserveError) × ((reserve m q (some v) id now).1 ≡ denied e))
unfolding reserve
reserve-denied m q v id now h = rw h (refl, (_, refl))

reserve-granted :
    (m : Manager) (q : Request) (v : VramStats) (id : String) (now : ℕ)
    → ltb_ℤ (available_bytes m v) q.bytes_needed ≡ false
    → reserve m q (some v) id now ≡ (
      record m { reservations = insert id (new_reservation m q id now) m.reservations },
      granted (new_reservation m q id now),
    )
unfolding reserve
reserve-granted m q v id now h = rw h

-- `Reserve` of `n` bytes under a fresh identifier, with live reservations and a reading below 2 ^
-- 62 bytes and none negative. It is granted exactly when the live reservations, the safety margin
-- and the request together fit the effective free memory; the live bytes then grow by `n`, and no
-- reservation is negative. Otherwise it is denied and the manager is unchanged.
pub reserve_exact :
    (m : Manager) (q : Request) (v : VramStats) (id : String) (now n : ℕ)
    → InBounds m v
    → q.bytes_needed ≡ pos n
    → lookup id m.reservations ≡ none
    → let held = live_sum m.reservations in
      let (m', answer) = reserve m q (some v) id now in
      (held + safety_margin_bytes + n ≤ pos_part (effective_free v)
        → (answer ≡ granted (new_reservation m q id now))
          × (live_sum m'.reservations ≡ held + n)
          × Sized m'.reservations)
      × (pos_part (effective_free v) < held + safety_margin_bytes + n
          → (m' ≡ m) × ((e : ReserveError) × (answer ≡ denied e)))
unfolding new_reservation
reserve_exact m q v id now n b size fresh =
    let test : (ltb_ℤ (available_bytes m v) q.bytes_needed
        ≡ ltb (pos_part (effective_free v)) (live_sum m.reservations + safety_margin_bytes + n)) =
      ap (ltb_ℤ (available_bytes m v)) size
      ∙ ap (λ x. ltb_ℤ x (pos n)) (available_eq m v b)
      ∙ enough _ _ n in
    let r = new_reservation m q id now in
    (
      λ fits. rw (reserve-granted m q v id now (test ∙ ground arith)) (
        refl,
        live_sum-insert_new id r m.reservations fresh ∙ ground arith,
        insert-Sized id r m.reservations b.sized (ground arith),
      ),
      λ over. reserve-denied m q v id now (test ∙ ground arith),
    )

-- Every reading of the backend in the history is at most `capacity`, requests are for no negative
-- number of bytes, and identifiers are fresh.
abbrev pub Within : ℕ → Manager → Call → Type 0
Within capacity m (reserves q none id now) = Unit
Within capacity m (reserves q (some v) id now) =
    (pos_part (effective_free v) ≤ capacity)
    × (q.bytes_needed ≡ pos (pos_part q.bytes_needed))
    × (lookup id m.reservations ≡ none)
Within capacity m _ = Unit

abbrev pub AllWithin : ℕ → Manager → List Call → Type 0
AllWithin capacity m [] = Unit
AllWithin capacity m (c ∷ cs) = Within capacity m c × AllWithin capacity (step m c) cs

-- The live reservations leave the safety margin free, or there are none.
pub record Budgeted (capacity : ℕ) (m : Manager) : Type 0 where
  pub sized : Sized m.reservations
  pub margin :
      (live_sum m.reservations ≡ 0) ⊎ (live_sum m.reservations + safety_margin_bytes ≤ capacity)

reserve-Budgeted :
    (capacity : ℕ) (m : Manager) (q : Request) (v : VramStats) (id : String) (now : ℕ)
    → capacity ≤ 4611686018427387904
    → Within capacity m (reserves q (some v) id now)
    → Budgeted capacity m
    → Budgeted capacity (reserve m q (some v) id now).0
reserve-Budgeted capacity m q v id now c (reading, size, fresh) b =
    let held = live_sum m.reservations in
    let n = pos_part q.bytes_needed in
    let bounds : InBounds m v = record {
      sized = b.sized;
      small = ground arith;
      reading = omega arith;
    } in
    let (if_fits, if_over) = reserve_exact m q v id now n bounds size fresh in
    elim (Bool-cases (leb (held + safety_margin_bytes + n) (pos_part (effective_free v)))) [
      | inl fits ↦
          let (_, grown, sized) = if_fits (leb→le _ _ fits) in
          record { sized = sized; margin = inr (ground arith) }
      | inr over ↦ subst (Budgeted capacity) (sym (if_over (ground arith)).0) b
    ]

-- A live or closed reservation is written back with no more weight.
lighter-Budgeted :
    (capacity : ℕ) (m : Manager) (id : String) (old r : Reservation)
    → lookup id m.reservations ≡ some old
    → r.bytes_reserved ≡ old.bytes_reserved
    → weight r ≤ weight old
    → Budgeted capacity m
    → Budgeted capacity (record m { reservations = insert id r m.reservations })
lighter-Budgeted capacity m id old r e same less b = record {
  sized =
      insert-Sized id r m.reservations b.sized
        (rw same (lookup-Sized id old m.reservations b.sized e));
  margin = ground (arith, live_sum-insert_old id old r m.reservations e);
}

activate-Budgeted :
    (capacity : ℕ) (m : Manager) (id : String) (now : ℕ)
    → Budgeted capacity m
    → Budgeted capacity (activate m id now).0
unfolding activate
activate-Budgeted capacity m id now b = elim (Option-cases (lookup id m.reservations)) [
  | inl none_there ↦ rw none_there b
  | inr (r, e) ↦ rw e (elim (Bool-cases (is_pending r.status)) [
    | inl p ↦ rw p (lighter-Budgeted capacity m id r _ e refl (ground arith) b)
    | inr p ↦ rw p b
  ])
]

release-Budgeted :
    (capacity : ℕ) (m : Manager) (id : String) (now : ℕ)
    → Budgeted capacity m
    → Budgeted capacity (release m id now)
unfolding release
release-Budgeted capacity m id now b = elim (Option-cases (lookup id m.reservations)) [
  | inl none_there ↦ rw none_there b
  | inr (r, e) ↦ rw e (elim (Bool-cases (is_closed r.status)) [
    | inl p ↦ rw p b
    | inr p ↦ rw p (lighter-Budgeted capacity m id r _ e refl (ground arith) b)
  ])
]

expire-Budgeted :
    (capacity : ℕ) (m : Manager) (now : ℕ)
    → Budgeted capacity m
    → Budgeted capacity (expire_old_reservations m now)
unfolding expire_old_reservations
expire-Budgeted capacity m now b = record {
  sized = expire_all-Sized now m.reservations b.sized;
  margin = ground (arith, live_sum-expire_all now m.reservations);
}

step-Budgeted :
    (capacity : ℕ) (m : Manager) (c : Call)
    → capacity ≤ 4611686018427387904
    → Within capacity m c
    → Budgeted capacity m
    → Budgeted capacity (step m c)
unfolding step
step-Budgeted capacity m (reserves q none id now) h w b = b
step-Budgeted capacity m (reserves q (some v) id now) h w b =
    reserve-Budgeted capacity m q v id now h w b
step-Budgeted capacity m (activates id now) h w b = activate-Budgeted capacity m id now b
step-Budgeted capacity m (releases id now) h w b = release-Budgeted capacity m id now b
step-Budgeted capacity m (expires now) h w b = expire-Budgeted capacity m now b

-- For a `capacity` of at most 2 ^ 62 bytes and a manager whose live reservations leave the safety
-- margin of it free or are of no byte, this stays so through any calls, if every reading of the
-- effective free memory is at most `capacity`, new identifiers are fresh and no request is for a
-- negative number of bytes.
pub run-Budgeted :
    (capacity : ℕ) (m : Manager) (cs : List Call)
    → capacity ≤ 4611686018427387904
    → AllWithin capacity m cs
    → Budgeted capacity m
    → Budgeted capacity (run m cs)
unfolding run
run-Budgeted capacity m [] h w b = b
run-Budgeted capacity m (c ∷ cs) h w b =
    run-Budgeted capacity (step m c) cs h w.1 (step-Budgeted capacity m c h w.0 b)
