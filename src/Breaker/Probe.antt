-- ===== src/Breaker/Probe.antt =====
-- The probation of a node: from the end of its cooldown to the closing of the breaker.
use open_fabric.Common.{
  ◌≤◌, ◌||◌, eqb, leb, if◌then◌else◌, ℕ, zero, suc, ◌+◌, ◌<◌, ◌≡◌, refl, Bool, true, false, List,
  [], ◌∷◌, arith, replicate, All,
}
use open_fabric.Common.Int.{ℤ, pos, ◌-ℤ◌, ◌≤ℤ◌, ◌<ℤ◌}
use open_fabric.Breaker.{
  NodeBreaker, closed, opened, half_open, Call, asks, succeeds, fails, allow, record_success, step,
  run,
}

-- A request comes before `cooldown` has passed since `since`; results may come at any time.
abbrev pub Early : ℕ → ℤ → Call → Type 0
Early since cooldown (asks now) = pos now -ℤ pos since <ℤ cooldown
Early since cooldown succeeds = Unit
Early since cooldown (fails now) = Unit

abbrev OpenSince : ℕ → ℤ → NodeBreaker → Type 0
OpenSince since cooldown b =
    (b.state ≡ opened) × (b.opened_at ≡ since) × (b.open_duration ≡ cooldown)

step-OpenSince :
    (since : ℕ) (cooldown : ℤ) (b : NodeBreaker) (c : Call)
    → OpenSince since cooldown b
    → Early since cooldown c
    → OpenSince since cooldown (step b c)
unfolding step
step-OpenSince since cooldown b (asks now) o early = ground arith
step-OpenSince since cooldown b c o early = ground arith

run-OpenSince :
    (since : ℕ) (cooldown : ℤ) (b : NodeBreaker) (cs : List Call)
    → OpenSince since cooldown b
    → All (Early since cooldown) cs
    → OpenSince since cooldown (run b cs)
unfolding run
run-OpenSince since cooldown b [] o early = o
run-OpenSince since cooldown b (c ∷ cs) o early =
    run-OpenSince since cooldown (step b c) cs (step-OpenSince since cooldown b c o early.0) early.1

allow-OpenSince :
    (since : ℕ) (cooldown : ℤ) (b : NodeBreaker) (t : ℕ)
    → OpenSince since cooldown b
    → (pos t -ℤ pos since <ℤ cooldown → allow b t ≡ (b, false))
      × (cooldown ≤ℤ pos t -ℤ pos since
          → allow b t ≡ (record b { state = half_open; consecutive_succs = 0 }, true))
unfolding allow
allow-OpenSince since cooldown b t o = ground arith

-- Through any calls whose requests all come before the cooldown has passed, a breaker that opened
-- at `b.opened_at` stays open with the same cooldown, and a request then is refused with no effect;
-- the first request after the cooldown is admitted and makes the breaker half-open, with no
-- success counted.
pub opened_until_cooldown :
    (b : NodeBreaker) (cs : List Call) (t : ℕ)
    → b.state ≡ opened
    → All (Early b.opened_at b.open_duration) cs
    → ((run b cs).state ≡ opened)
      × ((run b cs).open_duration ≡ b.open_duration)
      × (pos t -ℤ pos b.opened_at <ℤ b.open_duration → allow (run b cs) t ≡ (run b cs, false))
      × (b.open_duration ≤ℤ pos t -ℤ pos b.opened_at
          → allow (run b cs) t
            ≡ (record (run b cs) { state = half_open; consecutive_succs = 0 }, true))
opened_until_cooldown b cs t o early =
    let still = run-OpenSince b.opened_at b.open_duration b cs (o, refl, refl) early in
    let (shut, lets) = allow-OpenSince b.opened_at b.open_duration (run b cs) t still in
    (still.0, still.2, shut, lets)

abbrev pub is_failure : Call → Bool
is_failure (fails now) = true
is_failure _ = false

-- The successes among some calls.
abbrev pub successes : List Call → ℕ
successes [] = 0
successes (asks now ∷ cs) = successes cs
successes (succeeds ∷ cs) = suc (successes cs)
successes (fails now ∷ cs) = successes cs

-- A breaker that has been closed stays so without a failure.
stays_closed :
    (b : NodeBreaker) (cs : List Call)
    → All (λ c. is_failure c ≡ false) cs
    → b.state ≡ closed
    → (run b cs).state ≡ closed
unfolding run step
stays_closed b [] h o = o
stays_closed b (asks now ∷ cs) h o = stays_closed (step b (asks now)) cs h.1 (ground arith)
stays_closed b (succeeds ∷ cs) h o = stays_closed (step b succeeds) cs h.1 (ground arith)
stays_closed b (fails now ∷ cs) h o = absurd (ground (arith, h.0))

-- A half-open breaker below its threshold, and the successes that it counts.
probation :
    (b : NodeBreaker) (cs : List Call)
    → All (λ c. is_failure c ≡ false) cs
    → b.state ≡ half_open
    → b.consecutive_succs < b.cfg.success_threshold
    → (b.consecutive_succs + successes cs < b.cfg.success_threshold
        → ((run b cs).state ≡ half_open)
          × ((run b cs).consecutive_succs ≡ b.consecutive_succs + successes cs))
      × (b.cfg.success_threshold ≤ b.consecutive_succs + successes cs → (run b cs).state ≡ closed)
unfolding run step
probation b [] h o k = ((λ _. (o, omega arith)), λ over. absurd (omega arith))
probation b (asks now ∷ cs) h o k = ground (arith, probation b cs h.1 o k)
probation b (succeeds ∷ cs) h o k =
    ground (arith, probation (step b succeeds) cs h.1, stays_closed (step b succeeds) cs h.1)
probation b (fails now ∷ cs) h o k = absurd (ground (arith, h.0))

-- A request that comes to an open breaker after its cooldown is admitted. Through any requests and successes after it, without a failure, the breaker is half-open until the successes reach the threshold, which is at least 1, and closed from then on; and it admits a request exactly while no success has come, and again once the threshold is reached.
pub probation_answers :
    (b : NodeBreaker) (asked : ℕ) (cs : List Call) (t : ℕ)
    → b.state ≡ opened
    → b.open_duration ≤ℤ pos asked -ℤ pos b.opened_at
    → 1 ≤ b.cfg.success_threshold
    → All (λ c. is_failure c ≡ false) cs
    → let (probing, admitted) = allow b asked in
      let later = run probing cs in
      (admitted ≡ true)
      × (later.state ≡ (if leb b.cfg.success_threshold (successes cs) then closed else half_open))
      × ((allow later t).1 ≡ (eqb (successes cs) 0 || leb b.cfg.success_threshold (successes cs)))
unfolding allow
probation_answers b asked cs t o cooled k h =
    let probing = record b { state = half_open; consecutive_succs = 0 } in
    ground (arith, probation probing cs h refl (omega arith))

-- `k` successes in a row, none of them enough before the last, close a half-open breaker once they
-- reach the success threshold, and give it back the cooldown of its configuration.
pub successes_close :
    (k : ℕ) (b : NodeBreaker)
    → b.state ≡ half_open
    → b.consecutive_succs + suc k ≡ b.cfg.success_threshold
    → ((run b (replicate (suc k) succeeds)).state ≡ closed)
      × ((run b (replicate (suc k) succeeds)).open_duration ≡ b.cfg.open_duration)
      × ((run b (replicate (suc k) succeeds)).consecutive_fails ≡ 0)
unfolding run step record_success
successes_close zero b o h = ground arith
successes_close (suc k) b o h = ground (arith, successes_close k (record_success b))
