-- ===== src/Retry.antt =====
-- internal/reliability/retry: policies, the classes of errors, `Do` and the store of finished keys.
-- A world `W` is what the operation changes; the delays between attempts are left out.
pub mod Attempts
pub mod Once
mod Tests
use open_fabric.Common.{
  ℕ, zero, suc, ◌-◌, String, Bool, true, false, ◌||◌, not, if◌then◌else◌, Option, none, some, List,
  [], ◌∷◌, Dict, lookup, insert, string_eq,
}
use open_fabric.Common.Int.{ℤ, pos, pos_part}

pub data ErrorClass : Type 0 where
  transient permanent resource_exhausted : ErrorClass

abbrev pub same_class : ErrorClass → ErrorClass → Bool
same_class transient transient = true
same_class permanent permanent = true
same_class resource_exhausted resource_exhausted = true
same_class _ _ = false

-- `RetryableErrors` is empty when it is nil. The fields that only set the delays are left out.
pub record Policy : Type 0 where
  pub max_attempts : ℤ
  pub retryable_errors : List ErrorClass

abbrev pub policy_network : Policy
policy_network = record {
  max_attempts = pos 5;
  retryable_errors = transient ∷ resource_exhausted ∷ [];
}

abbrev pub policy_storage : Policy
policy_storage = record { max_attempts = pos 3; retryable_errors = transient ∷ [] }

abbrev pub policy_mcp : Policy
policy_mcp = record { max_attempts = pos 4; retryable_errors = transient ∷ resource_exhausted ∷ [] }

abbrev pub policy_fast : Policy
policy_fast = record { max_attempts = pos 2; retryable_errors = [] }

abbrev pub policy_none : Policy
policy_none = record { max_attempts = pos 1; retryable_errors = [] }

-- An error: its text, and the answer of its `IsRetryable` method when it has one.
pub record Failure : Type 0 where
  pub message : String
  pub says_retryable : Option Bool

-- Go's `strings`.
pub record Strings : Type 0 where
  pub to_lower : String → String
  pub contains : String → String → Bool

abbrev pub transient_patterns : List String
transient_patterns =
    "connection refused" ∷ "timeout" ∷ "i/o timeout" ∷ "no such host" ∷ "temporary failure" ∷ "eof"
    ∷ "broken pipe" ∷ "reset by peer" ∷ "context deadline exceeded" ∷ []

pub contains_any : Strings → String → List String → Bool
contains_any s text [] = false
contains_any s text (p ∷ ps) = s.contains text p || contains_any s text ps

-- `isTransientByString`.
pub is_transient_by_string : Strings → Failure → Bool
is_transient_by_string s e = contains_any s (s.to_lower e.message) transient_patterns

-- `ClassifyError`; `none` is the nil error.
unfoldable pub classify_error : Strings → Option Failure → ErrorClass
classify_error s none = permanent
classify_error s (some e) = elim e.says_retryable [
  | some r ↦ if r then transient else permanent
  | none ↦ if is_transient_by_string s e then transient else permanent
]

pub any_class : ErrorClass → List ErrorClass → Bool
any_class k [] = false
any_class k (c ∷ cs) = same_class k c || any_class k cs

-- `isRetryable`.
unfoldable pub is_retryable : Strings → Failure → List ErrorClass → Bool
unfolding any_class
is_retryable s e [] = true
is_retryable s e (c ∷ cs) = any_class (classify_error s (some e)) (c ∷ cs)

pub data DoError : Type 0 where
  cancelled_before : ℕ → DoError
  permanent_failure : Failure → DoError
  cancelled_waiting : DoError
  exhausted : ℤ → Option Failure → DoError

-- When the context is found done: before an attempt, or in the wait after it.
pub record Context : Type 0 where
  pub done_before : ℕ → Bool
  pub done_waiting : ℕ → Bool

module _ {W : Type 0} where
  module _ (s : Strings) (p : Policy) (ctx : Context) (fn : ℕ → W → W × Option Failure) where
    -- The loop of `Do`: the attempts left, the number of the next one and the last error.
    pub do_from : ℕ → ℕ → Option Failure → W → W × Option DoError
    do_from zero attempt last w = (w, some (exhausted p.max_attempts last))
    do_from (suc left) attempt last w =
        let (w', answer) = fn attempt w in
        let rest = do_from left (suc attempt) answer w' in
        if ctx.done_before attempt
        then (w, some (cancelled_before (attempt - 1)))
        else elim answer [
          | none ↦ (w', none)
          | some e ↦
              if not (is_retryable s e p.retryable_errors)
              then (w', some (permanent_failure e))
              else elim left [
                | zero ↦ rest
                | suc _ ↦ if ctx.done_waiting attempt then (w', some cancelled_waiting) else rest
              ]
        ]

    -- `Do`.
    unfoldable pub retry_do : W → W × Option DoError
    unfolding do_from
    retry_do w = do_from (pos_part p.max_attempts) 1 none w

-- `MemoryIdempotencyStore`.
abbrev pub IdempotencyStore : Type 0
IdempotencyStore = Dict String Bool

unfoldable pub has_succeeded : IdempotencyStore → String → Bool
has_succeeded s key = elim (lookup key s) [ none ↦ false | some b ↦ b ]

unfoldable pub mark_succeeded : IdempotencyStore → String → IdempotencyStore
mark_succeeded s key = insert key true s

-- `WithIdempotencyKey`: the world is the store and what `fn` changes.
unfoldable pub with_idempotency_key :
    {W : Type 0}
    → String
    → (W → W × Option Failure)
    → ℕ
    → IdempotencyStore × W
    → (IdempotencyStore × W) × Option Failure
with_idempotency_key key fn attempt (store, w) =
    let (w', answer) = fn w in
    if has_succeeded store key then ((store, w), none) else elim answer [
      | none ↦ ((mark_succeeded store key, w'), none)
      | some e ↦ ((store, w'), some e)
    ]
