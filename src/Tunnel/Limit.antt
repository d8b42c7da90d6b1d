-- ===== src/Tunnel/Limit.antt =====
-- The count of failures of an address against the limit of five tries.
use open_fabric.Common.{
  ℕ, suc, ◌+◌, ◌-◌, ◌≤◌, ◌≡◌, refl, Bool, true, false, if◌then◌else◌, Option, none, some, List, [],
  ◌∷◌, ◌++◌, arith, String, lookup, lookup-insert, lookup-delete, string_eq, ◌==◌,
}
use open_fabric.Tunnel.{
  PinManager, System, Submission, Stage, admitted, compared, opened, Event, generates, revokes,
  submits, proceeds, rotates, forgives, visits, attempts, generate_pin, revoke_pin, submit, settle,
  proceed_first, proceed, rotate, count_failure, reset_limit, open_session, forgive, serve,
  valid_session, step, run, new_system,
}

-- The submissions of an address that are under way.
abbrev pub under_way : String → List Submission → ℕ
under_way ip [] = 0
under_way ip (s ∷ rest) = (if s.ip == ip then 1 else 0) + under_way ip rest

under_way-append :
    (ip : String) (xs ys : List Submission)
    → under_way ip (xs ++ ys) ≡ under_way ip xs + under_way ip ys
under_way-append ip [] ys = omega arith
under_way-append ip (x ∷ xs) ys = omega (arith, under_way-append ip xs ys)

under_way-rotate : (ip : String) (xs : List Submission) → under_way ip (rotate xs) ≡ under_way ip xs
unfolding rotate
under_way-rotate ip [] = refl
under_way-rotate ip (x ∷ xs) = omega (arith, under_way-append ip xs (x ∷ []))

-- The count of an address and its submissions under way.
abbrev charged : String → System → ℕ
charged ip y = attempts ip y.manager + under_way ip y.pending

abbrev IsLimited : ℕ → String → System → Type 0
IsLimited k ip y = charged ip y ≤ 4 + k

failure-limit :
    (other ip : String) (m : PinManager)
    → attempts ip (count_failure other m) ≤ attempts ip m + (if other == ip then 1 else 0)
unfolding count_failure
failure-limit other ip m = ground (
  arith,
  lookup-insert other ip (suc (attempts other m)) m.submit_lim,
  string_eq.same_iff other ip,
)

reset-limit :
    (other ip : String) (m : PinManager) → attempts ip (reset_limit other m) ≤ attempts ip m
unfolding reset_limit
reset-limit other ip m = ground (arith, lookup-delete other ip m.submit_lim)

settle-limit :
    (token : Option String) (now : ℕ) (m : PinManager) (s : Submission) (ok : Bool)
    (rest : List Submission) (ip : String)
    → charged ip (settle token now m s ok rest) ≤ attempts ip m + under_way ip (s ∷ rest)
unfolding settle open_session
settle-limit (some token) now m s true rest ip = omega arith
settle-limit none now m s true rest ip = omega (arith, failure-limit s.ip ip m)
settle-limit (some token) now m s false rest ip = omega (arith, failure-limit s.ip ip m)
settle-limit none now m s false rest ip = omega (arith, failure-limit s.ip ip m)

first-limit :
    (matches : String → String → Bool) (token : Option String) (now : ℕ) (m : PinManager)
    (s : Submission) (p : Stage) (rest : List Submission) (ip : String)
    → charged ip (proceed_first matches token now m s p rest)
      ≤ attempts ip m + under_way ip (s ∷ rest)
unfolding proceed_first
first-limit matches token now m s admitted rest ip = omega arith
first-limit matches token now m s (compared ok) rest ip = settle-limit token now m s ok rest ip
first-limit matches token now m s opened rest ip = omega (arith, reset-limit s.ip ip m)

proceed-limit :
    (matches : String → String → Bool) (token : Option String) (now : ℕ) (m : PinManager)
    (pending : List Submission) (ip : String)
    → charged ip (proceed matches token now m pending) ≤ attempts ip m + under_way ip pending
unfolding proceed
proceed-limit matches token now m [] ip = omega arith
proceed-limit matches token now m (s ∷ rest) ip = first-limit matches token now m s s.stage rest ip

forgive-limit : (other ip : String) (m : PinManager) → attempts ip (forgive other m) ≤ attempts ip m
unfolding forgive
forgive-limit other ip m =
    ground (
      arith,
      lookup-insert other ip (attempts other m - 1) m.submit_lim,
      string_eq.same_iff other ip,
    )

serve-limit :
    (cookie : Option String) (now : ℕ) (m : PinManager)
    → (serve cookie now m).1.submit_lim ≡ m.submit_lim
unfolding serve valid_session
serve-limit cookie now m = ground arith

step-IsLimited :
    (matches : String → String → Bool) (k : ℕ) (ip : String) (y : System) (e : Event)
    → under_way ip (step matches y e).pending ≤ k
    → IsLimited k ip y
    → IsLimited k ip (step matches y e)
unfolding step generate_pin revoke_pin submit
step-IsLimited matches k ip y (generates hash) few h = h
step-IsLimited matches k ip y revokes few h = h
step-IsLimited matches k ip y (submits other pin) few h =
    ground (arith, string_eq.same_iff other ip)
step-IsLimited matches k ip y (proceeds token now) few h =
    omega (arith, proceed-limit matches token now y.manager y.pending ip)
step-IsLimited matches k ip y rotates few h = omega (arith, under_way-rotate ip y.pending)
step-IsLimited matches k ip y (forgives other) few h =
    omega (arith, forgive-limit other ip y.manager)
step-IsLimited matches k ip y (visits cookie now) few h =
    ground (arith, serve-limit cookie now y.manager)

-- At no time are more than `k` submissions of the address under way.
abbrev pub AtMost : (String → String → Bool) → ℕ → String → System → List Event → Type 0
AtMost matches k ip y [] = Unit
AtMost matches k ip y (e ∷ es) =
    (under_way ip (step matches y e).pending ≤ k) × AtMost matches k ip (step matches y e) es

run-IsLimited :
    (matches : String → String → Bool) (k : ℕ) (ip : String) (es : List Event) (y : System)
    → AtMost matches k ip y es
    → IsLimited k ip y
    → IsLimited k ip (run matches y es)
unfolding run
run-IsLimited matches k ip [] y few h = h
run-IsLimited matches k ip (e ∷ es) y few h =
    run-IsLimited matches k ip es (step matches y e) few.1 (step-IsLimited matches k ip y e few.0 h)

-- If no more than k submissions of an address are under way at a time, the failures that count against it and the submissions under way are together at most 4 + k.
pub failures-limited :
    (matches : String → String → Bool) (k : ℕ) (ip : String) (es : List Event)
    → AtMost matches k ip new_system es
    → let y = run matches new_system es in attempts ip y.manager + under_way ip y.pending ≤ 4 + k
unfolding lookup
failures-limited matches k ip es few = run-IsLimited matches k ip es new_system few (omega arith)
