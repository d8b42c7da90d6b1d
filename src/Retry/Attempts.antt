-- ===== src/Retry/Attempts.antt =====
-- How often `Do` tries, with what result, and what the classes of errors let it retry.
use open_fabric.Common.{
  ℕ, zero, suc, ◌+◌, ◌-◌, ◌≤◌, ◌<◌, ◌≡◌, ◌≢◌, refl, subst, if◌then◌else◌, true, false, Option, none,
  some, arith, Bool-cases, Option-cases, inl, inr,
}
use open_fabric.Common.Int.{pos_part}
use open_fabric.Retry.{
  resource_exhausted, Policy, policy_network, policy_storage, Failure, Strings, classify_error,
  is_retryable, DoError, cancelled_before, permanent_failure, cancelled_waiting, exhausted, Context,
  do_from, retry_do,
}

module _ {W : Type 0} (fn : ℕ → W → W × Option Failure) where
  -- The world after `k` attempts, numbered from the given one.
  abbrev pub after : ℕ → ℕ → W → W
  after from zero w = w
  after from (suc k) w = after (suc from) k (fn from w).0

  -- What the attempt after `k` others answers.
  abbrev pub answer_after : ℕ → ℕ → W → Option Failure
  answer_after from zero w = (fn from w).1
  answer_after from (suc k) w = answer_after (suc from) k (fn from w).0

  module _ (s : Strings) (p : Policy) (ctx : Context) where
    -- An attempt that failed with an error that the policy retries.
    abbrev pub Retried : ℕ → ℕ → W → Type 0
    Retried from j w =
        (e : Failure) × (answer_after from j w ≡ some e)
        × (is_retryable s e p.retryable_errors ≡ true)

    abbrev pub AllRetried : ℕ → ℕ → W → Type 0
    AllRetried from zero w = Unit
    AllRetried from (suc k) w = Retried from 0 w × AllRetried (suc from) k (fn from w).0

    -- Why no attempt follows the `k` ones made, numbered from `from`, of at most `most`.
    abbrev pub Ended : ℕ → ℕ → ℕ → W → Option DoError → Type 0
    Ended from most k w none =
        (j : ℕ) × (k ≡ suc j) × AllRetried from j w × (answer_after from j w ≡ none)
    Ended from most k w (some (permanent_failure e)) =
        (j : ℕ) × (k ≡ suc j)
        × AllRetried from j w
        × (answer_after from j w ≡ some e)
        × (is_retryable s e p.retryable_errors ≡ false)
    Ended from most k w (some (cancelled_before n)) =
        (k < most) × (n + 1 ≡ from + k) × (ctx.done_before (from + k) ≡ true) × AllRetried from k w
    Ended from most k w (some cancelled_waiting) =
        (k < most) × (1 ≤ k) × (ctx.done_waiting (from + k - 1) ≡ true) × AllRetried from k w
    Ended from most k w (some (exhausted n last)) =
        (k ≡ most) × (n ≡ p.max_attempts) × AllRetried from k w

    pub record Attempted (from most : ℕ) (w : W) (result : W × Option DoError) : Type 0 where
      pub made : ℕ
      pub bounded : made ≤ most
      pub world : result.0 ≡ after from made w
      pub ended : Ended from most made w result.1

    Ended-suc :
        (from most k : ℕ) (w : W) (answer : Option DoError)
        → Retried from 0 w
        → Ended (suc from) most k (fn from w).0 answer
        → Ended from (suc most) (suc k) w answer
    Ended-suc from most k w none r (j, e, rs, a) = (suc j, omega arith, (r, rs), a)
    Ended-suc from most k w (some (permanent_failure e)) r (j, i, rs, a, b) =
        (suc j, omega arith, (r, rs), a, b)
    Ended-suc from most k w (some (cancelled_before n)) r (h, i, d, rs) =
        (omega arith, omega arith, subst (λ x. ctx.done_before x ≡ true) (omega arith) d, (r, rs))
    Ended-suc from most k w (some cancelled_waiting) r (h, i, d, rs) =
        (omega arith, omega arith, subst (λ x. ctx.done_waiting x ≡ true) (omega arith) d, (r, rs))
    Ended-suc from most k w (some (exhausted n last)) r (h, i, rs) = (omega arith, i, (r, rs))

    one_more :
        (from most : ℕ) (w : W) (result : W × Option DoError)
        → Retried from 0 w
        → Attempted (suc from) most (fn from w).0 result
        → Attempted from (suc most) w result
    one_more from most w result r a = record {
      made = suc a.made;
      bounded = omega (arith, a.bounded);
      world = a.world;
      ended = Ended-suc from most a.made w result.1 r a.ended;
    }

    one_failed :
        (left from : ℕ) (w : W) (answer : Option DoError)
        → Ended from (suc left) 1 w answer
        → Attempted from (suc left) w ((fn from w).0, answer)
    one_failed left from w answer h = record {
      made = 1;
      bounded = omega arith;
      world = refl;
      ended = h;
    }

    after-Retried :
        (left from : ℕ) (w : W) (last : Option Failure)
        → Retried from 0 w
        → Attempted
            (suc from)
            left
            (fn from w).0
            (do_from s p ctx fn left (suc from) last (fn from w).0)
        → Attempted from (suc left) w (elim left as (λ x. W × Option DoError) [
          | zero ↦ do_from s p ctx fn left (suc from) last (fn from w).0
          | suc _ ↦
              if ctx.done_waiting from
              then ((fn from w).0, some cancelled_waiting)
              else do_from s p ctx fn left (suc from) last (fn from w).0
        ])
    after-Retried zero from w last r rest = one_more from zero w _ r rest
    after-Retried (suc left) from w last r rest = elim (Bool-cases (ctx.done_waiting from)) [
      | inl done ↦ rw done (
          one_failed (suc left) from w (some cancelled_waiting) (
            omega arith,
            omega arith,
            subst (λ x. ctx.done_waiting x ≡ true) (omega arith) done,
            (r, tt),
          ))
      | inr go ↦ rw go (one_more from (suc left) w _ r rest)
    ]

    pub do_from-Attempted :
        (left from : ℕ) (last : Option Failure) (w : W)
        → 1 ≤ from
        → Attempted from left w (do_from s p ctx fn left from last w)
    unfolding do_from
    do_from-Attempted zero from last w h = record {
      made = 0;
      bounded = omega arith;
      world = refl;
      ended = (refl, refl, tt);
    }
    do_from-Attempted (suc left) from last w h = elim (Bool-cases (ctx.done_before from)) [
      | inl done ↦ rw done (record {
        made = 0;
        bounded = omega arith;
        world = refl;
        ended = (
          omega arith,
          omega arith,
          subst (λ x. ctx.done_before x ≡ true) (omega arith) done,
          tt,
        );
      })
      | inr go ↦ rw go (elim (Option-cases (fn from w).1) [
        | inl success ↦ rw success (one_failed left from w none (0, refl, tt, success))
        | inr (e, failed) ↦ rw failed (elim (Bool-cases (is_retryable s e p.retryable_errors)) [
          | inr stop ↦
              rw stop
                (one_failed left from w (some (permanent_failure e)) (0, refl, tt, failed, stop))
          | inl again ↦ rw again (
              after-Retried left from w (fn from w).1 (e, failed, again)
                (do_from-Attempted left (suc from) (fn from w).1 (fn from w).0 (omega arith)))
        ])
      ])
    ]

-- Whatever the operation, the policy and the context: `Do` ends after at most `MaxAttempts`
-- attempts, numbered from 1, and the world is as they leave it. It returns nil only if the last one
-- succeeded, and a permanent failure only if the last one gave an error that the policy does not
-- retry, each after attempts that failed with errors that it does. The other errors come after
-- attempts that all failed with such errors: the context was done before the next attempt, or in
-- the wait before one that was left, or all the attempts are used up.
pub retry_do-Attempted :
    {W : Type 0} (fn : ℕ → W → W × Option Failure) (s : Strings) (p : Policy) (ctx : Context)
    (w : W)
    → Attempted fn s p ctx 1 (pos_part p.max_attempts) w (retry_do s p ctx fn w)
unfolding retry_do
retry_do-Attempted fn s p ctx w =
    do_from-Attempted fn s p ctx (pos_part p.max_attempts) 1 none w (omega arith)

-- No error is ever classified as one of exhausted resources, so that the policy for the network
-- retries exactly the errors that the one for storage does.
pub network_retries_as_storage :
    (s : Strings) (e : Failure)
    → (classify_error s (some e) ≢ resource_exhausted)
      × (is_retryable s e policy_network.retryable_errors
          ≡ is_retryable s e policy_storage.retryable_errors)
unfolding classify_error is_retryable
network_retries_as_storage s e = ground arith
