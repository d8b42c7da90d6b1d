-- ===== src/Retry/Tests.antt =====
-- The theorems of the retries at concrete inputs.
use open_fabric.Common.{
  ℕ, suc, ◌≡◌, refl, true, false, leb, if◌then◌else◌, ◌==◌, string_eq, Option, none, some, [],
  arith, lookup,
}
use open_fabric.Retry.{
  Failure, Strings, Context, classify_error, is_retryable, policy_network, policy_storage, retry_do,
  DoError, with_idempotency_key, has_succeeded, IdempotencyStore,
}
use open_fabric.Retry.Attempts.{Attempted, retry_do-Attempted}
use open_fabric.Retry.Once.{retry_do-once}

abbrev go_strings : Strings
go_strings = record { to_lower = λ s. s; contains = λ s p. s == p }

abbrev never_done : Context
never_done = record { done_before = λ n. false; done_waiting = λ n. false }

abbrev timeout : Failure
timeout = record { message = "timeout"; says_retryable = some true }

-- Fails twice, and counts its runs.
abbrev third_time : ℕ → ℕ × Option Failure
third_time w = (suc w, if leb 2 w then none else some timeout)

retry_do-Attempted_example :
    Attempted
      (λ attempt. third_time)
      go_strings
      policy_network
      never_done
      1
      5
      0
      (retry_do go_strings policy_network never_done (λ attempt. third_time) 0)
retry_do-Attempted_example =
    retry_do-Attempted (λ attempt. third_time) go_strings policy_network never_done 0

abbrev first_do : (IdempotencyStore × ℕ) × Option DoError
first_do =
    retry_do go_strings policy_storage never_done (with_idempotency_key "k" third_time) ([], 0)

retry_do-once_example :
    (has_succeeded first_do.0.0 "k" ≡ true)
    × (retry_do go_strings policy_network never_done
          (with_idempotency_key "k" third_time)
          first_do.0
        ≡ (first_do.0, none))
unfolding retry_do with_idempotency_key has_succeeded lookup is_retryable classify_error
retry_do-once_example =
    retry_do-once "k" third_time third_time go_strings policy_storage policy_network never_done
      never_done ([], 0) refl (omega arith) refl
