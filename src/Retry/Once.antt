-- ===== src/Retry/Once.antt =====
-- An operation under an idempotency key has its effect once.
use open_fabric.Common.{
  ℕ, zero, suc, ◌≤◌, ◌≡◌, refl, sym, ap, ◌∙◌, subst, true, false, Option, none, String, arith,
  lookup-insert_self, string_eq, Option-cases, inl, inr, Bool-cases,
}
use open_fabric.Common.Int.{pos_part}
use open_fabric.Retry.{
  Failure, Strings, Policy, Context, IdempotencyStore, has_succeeded, mark_succeeded,
  with_idempotency_key, retry_do, do_from,
}
use open_fabric.Retry.Attempts.{after, answer_after, Ended, retry_do-Attempted}

first_from :
    {W : Type 0} (fn : ℕ → W → W × Option Failure) (s : Strings) (q : Policy) (ctx : Context)
    (w : W) (most : ℕ)
    → fn 1 w ≡ (w, none)
    → 1 ≤ most
    → ctx.done_before 1 ≡ false
    → do_from s q ctx fn most 1 none w ≡ (w, none)
unfolding do_from
first_from fn s q ctx w zero h some_attempt available = absurd (omega arith)
first_from fn s q ctx w (suc n) h some_attempt available =
    rw available (rw h (ap (λ p. (p.0, none)) h))

first_succeeds :
    {W : Type 0} (fn : ℕ → W → W × Option Failure) (s : Strings) (q : Policy) (ctx : Context)
    (w : W)
    → fn 1 w ≡ (w, none)
    → 1 ≤ pos_part q.max_attempts
    → ctx.done_before 1 ≡ false
    → retry_do s q ctx fn w ≡ (w, none)
unfolding retry_do
first_succeeds fn s q ctx w = first_from fn s q ctx w (pos_part q.max_attempts)

module _ {W : Type 0} (key : String) (f : W → W × Option Failure) where
  marked : (store : IdempotencyStore) → has_succeeded (mark_succeeded store key) key ≡ true
  unfolding has_succeeded mark_succeeded
  marked store = ground (arith, lookup-insert_self key true store)

  done_stays :
      (n : ℕ) (store : IdempotencyStore) (w : W)
      → has_succeeded store key ≡ true
      → with_idempotency_key key f n (store, w) ≡ ((store, w), none)
  unfolding with_idempotency_key
  done_stays n store w h = rw h refl

  succeeds_marked :
      (n : ℕ) (store : IdempotencyStore) (w : W)
      → (with_idempotency_key key f n (store, w)).1 ≡ none
      → has_succeeded (with_idempotency_key key f n (store, w)).0.0 key ≡ true
  unfolding with_idempotency_key
  succeeds_marked n store w h = elim (Bool-cases (has_succeeded store key)) [
    | inl done ↦ rw done done
    | inr fresh ↦ elim (Option-cases (f w).1) [
      | inl success ↦ rw fresh (rw success (marked store))
      | inr (e, failed) ↦ absurd (ground arith)
    ]
  ]

  after_success :
      (j from : ℕ) (w : IdempotencyStore × W)
      → answer_after (with_idempotency_key key f) from j w ≡ none
      → has_succeeded (after (with_idempotency_key key f) from (suc j) w).0 key ≡ true
  after_success zero from w h = succeeds_marked from w.0 w.1 h
  after_success (suc j) from w h =
      after_success j (suc from) (with_idempotency_key key f from w).0 h

-- When `Do` under an idempotency key returns nil, the key is marked. Another `Do` under that key,
-- with any policy of at least one attempt, any operation and a context that is not done before
-- the first attempt, returns nil and changes nothing, so that its operation is not run.
pub retry_do-once :
    {W : Type 0} (key : String) (f g : W → W × Option Failure) (s : Strings) (p q : Policy)
    (ctx later : Context) (w : IdempotencyStore × W)
    → (retry_do s p ctx (with_idempotency_key key f) w).1 ≡ none
    → 1 ≤ pos_part q.max_attempts
    → later.done_before 1 ≡ false
    → let w' = (retry_do s p ctx (with_idempotency_key key f) w).0 in
      (has_succeeded w'.0 key ≡ true)
      × (retry_do s q later (with_idempotency_key key g) w' ≡ (w', none))
retry_do-once key f g s p q ctx later w h some_attempt available =
    let a = retry_do-Attempted (with_idempotency_key key f) s p ctx w in
    let (j, made, _, success) =
      subst (Ended (with_idempotency_key key f) s p ctx 1 (pos_part p.max_attempts) a.made w) h
        a.ended in
    let known =
      subst (λ (v : IdempotencyStore × _). has_succeeded v.0 key ≡ true)
        (sym (a.world ∙ ap (λ k. after (with_idempotency_key key f) 1 k w) made))
        (after_success key f j 1 w success) in
    (
      known,
      first_succeeds (with_idempotency_key key g) s q later _ (done_stays key g 1 _ _ known)
          some_attempt available,
    )
