-- ===== src/Health/Fresh.antt =====
-- What a round of checks leaves stored.
use open_fabric.Common.{
  ℕ, ◌≡◌, refl, sym, ap, ◌∙◌, String, ◌==◌, none, some, List, [], ◌∷◌, Dict, lookup, insert,
  lookup-insert, string_eq, arith, Bool-cases, inl, inr, ==-eq,
}
use mathlib.Core.Option.{some-injective}
use open_fabric.Health.{
  CheckResult, Registry, Round, check_one, check_all, store_all, register_all, run_all,
}

-- A map holds each key once.
abbrev pub EachOnce : Dict String ℕ → Type 0
EachOnce [] = Unit
EachOnce ((key, _) ∷ rest) = (lookup key rest ≡ none) × EachOnce rest

store_all-absent :
    (round : Round) (cs : Dict String ℕ) (stored : Dict String CheckResult) (name : String)
    → lookup name cs ≡ none
    → lookup name (store_all (check_all round cs) stored) ≡ lookup name stored
unfolding store_all check_all lookup
store_all-absent round [] stored name h = refl
store_all-absent round ((key, c) ∷ cs) stored name h = elim (Bool-cases (key == name)) [
  | inl hit ↦ absurd (ground arith)
  | inr miss ↦
      store_all-absent round cs (insert key (check_one round key c) stored) name (rw miss at h)
      ∙ lookup-insert key name (check_one round key c) stored
      ∙ rw miss refl
]

store_all-present :
    (round : Round) (cs : Dict String ℕ) (stored : Dict String CheckResult) (name : String) (c : ℕ)
    → EachOnce cs
    → lookup name cs ≡ some c
    → lookup name (store_all (check_all round cs) stored) ≡ some (check_one round name c)
unfolding store_all check_all lookup
store_all-present round [] stored name c once h = absurd (ground arith)
store_all-present round ((key, d) ∷ cs) stored name c once h = elim (Bool-cases (key == name)) [
  | inl hit ↦
      let same = ==-eq key name hit in
      let checker = some-injective d c (rw hit at h) in
      store_all-absent round cs (insert key (check_one round key d) stored) name
        (ap (λ k. lookup k cs) (sym same) ∙ once.0)
      ∙ lookup-insert key name (check_one round key d) stored
      ∙ rw hit (ap some (ap (λ k. check_one round k d) same ∙ ap (check_one round name) checker))
  | inr miss ↦
      store_all-present round cs (insert key (check_one round key d) stored) name c once.1
        (rw miss at h)
]

-- After a round of checks over a map that holds each name once, the stored result of every name that
-- was registered at its start is the answer of that checker in this round, with its times,
-- whatever is registered meanwhile.
pub run_all-fresh :
    (r : Registry) (round : Round) (meanwhile : List (String × ℕ)) (name : String) (checker : ℕ)
    → EachOnce r.checkers
    → lookup name r.checkers ≡ some checker
    → lookup name (run_all r round meanwhile).0.results ≡ some (check_one round name checker)
unfolding run_all
run_all-fresh r round meanwhile name checker once h =
    store_all-present round r.checkers (register_all r meanwhile).results name checker once h
