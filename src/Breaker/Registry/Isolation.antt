-- ===== src/Breaker/Registry/Isolation.antt =====
-- The breakers of different nodes, and the pointers to them.
use open_fabric.Common.{
  ℕ, ◌<◌, ◌≡◌, refl, sym, ◌∙◌, ap, String, if◌then◌else◌, List, [], ◌∷◌, ◌++◌, Option-cases, some,
  arith, lookup, lookup-insert, inl, inr, ◌==◌, string_eq,
}
use open_fabric.Breaker.{NodeBreaker, BreakerConfig, Call, new_node_breaker, step, run}
use open_fabric.Breaker.Registry.{
  BreakerRegistry, new_breaker_registry, write, get_found, get, breaker_of, on_breaker,
  run_registry,
}

-- The calls of a history that go to one node.
pub calls_of : String → List (String × Call) → List Call
calls_of id [] = []
calls_of id ((j, c) ∷ cs) = let rest = calls_of id cs in if j == id then c ∷ rest else rest

-- Pointers are places in use, and no two nodes share one.
pub record IsSeparate (r : BreakerRegistry) : Type 0 where
  pub in_use : (id : String) (p : ℕ) → lookup id r.breakers ≡ some p → p < r.next
  pub own :
      (i j : String) (p : ℕ) → lookup i r.breakers ≡ some p → lookup j r.breakers ≡ some p → i ≡ j

get-IsSeparate : (r : BreakerRegistry) (id : String) → IsSeparate r → IsSeparate (get r id).0
unfolding get get_found
get-IsSeparate r id h = elim (Option-cases (lookup id r.breakers)) [
  | inr (p, old) ↦ rw old h
  | inl new ↦ rw new (record {
    in_use = λ j p e. ground (arith, lookup-insert id j r.next r.breakers, h.in_use j p);
    own = λ i j p e f. ground (
      arith,
      lookup-insert id i r.next r.breakers,
      lookup-insert id j r.next r.breakers,
      string_eq.same_iff id i,
      string_eq.same_iff id j,
      h.in_use i p,
      h.in_use j p,
      h.own i j p,
    );
  })
]

on_breaker-IsSeparate :
    (r : BreakerRegistry) (id : String) (f : NodeBreaker → NodeBreaker)
    → IsSeparate r
    → IsSeparate (on_breaker r id f)
unfolding on_breaker
on_breaker-IsSeparate r id f h =
    let g = get-IsSeparate r id h in record { in_use = g.in_use; own = g.own }

on_breaker-breaker_of :
    (r : BreakerRegistry) (j id : String) (f : NodeBreaker → NodeBreaker)
    → IsSeparate r
    → breaker_of (on_breaker r j f) id ≡ (if j == id then f (breaker_of r id) else breaker_of r id)
unfolding breaker_of on_breaker get get_found write
on_breaker-breaker_of r j id f h = elim (Option-cases (lookup j r.breakers)) [
  | inl new ↦ elim (Option-cases (lookup id r.breakers)) [
    | inl absent ↦ ground (arith, lookup-insert j id r.next r.breakers, string_eq.same_iff j id)
    | inr (p, old) ↦
        ground
          (arith, lookup-insert j id r.next r.breakers, string_eq.same_iff j id, h.in_use id p old)
  ]
  | inr (q, known) ↦ elim (Option-cases (lookup id r.breakers)) [
    | inl absent ↦ ground (arith, string_eq.same_iff j id, h.in_use j q known)
    | inr (p, old) ↦ ground (arith, string_eq.same_iff j id, h.own j id p)
  ]
]

on_breaker-keeps :
    (r : BreakerRegistry) (j id : String) (f : NodeBreaker → NodeBreaker) (p : ℕ)
    → lookup id r.breakers ≡ some p
    → lookup id (on_breaker r j f).breakers ≡ some p
unfolding on_breaker get get_found
on_breaker-keeps r j id f p h =
    ground (arith, lookup-insert j id r.next r.breakers, string_eq.same_iff j id)

run_registry-IsSeparate :
    (r : BreakerRegistry) (cs : List (String × Call))
    → IsSeparate r
    → IsSeparate (run_registry r cs)
unfolding run_registry
run_registry-IsSeparate r [] h = h
run_registry-IsSeparate r ((j, c) ∷ cs) h =
    run_registry-IsSeparate (on_breaker r j (λ b. step b c)) cs
      (on_breaker-IsSeparate r j (λ b. step b c) h)

run_registry-breaker_of :
    (r : BreakerRegistry) (id : String) (cs : List (String × Call))
    → IsSeparate r
    → breaker_of (run_registry r cs) id ≡ run (breaker_of r id) (calls_of id cs)
unfolding run_registry calls_of run
run_registry-breaker_of r id [] h = refl
run_registry-breaker_of r id ((j, c) ∷ cs) h =
    run_registry-breaker_of (on_breaker r j (λ b. step b c)) id cs
      (on_breaker-IsSeparate r j (λ b. step b c) h)
    ∙ ground (arith, on_breaker-breaker_of r j id (λ (b : NodeBreaker). step b c) h)

run_registry-keeps :
    (r : BreakerRegistry) (id : String) (cs : List (String × Call)) (p : ℕ)
    → lookup id r.breakers ≡ some p
    → lookup id (run_registry r cs).breakers ≡ some p
unfolding run_registry
run_registry-keeps r id [] p h = h
run_registry-keeps r id ((j, c) ∷ cs) p h =
    run_registry-keeps (on_breaker r j (λ b. step b c)) id cs p
      (on_breaker-keeps r j id (λ b. step b c) p h)

-- `Get` stores the breaker that it makes, so that it has the same pointer afterwards.
get-stored :
    (r : BreakerRegistry) (id : String) → lookup id (get r id).0.breakers ≡ some (get r id).1
unfolding get get_found
get-stored r id = ground (arith, lookup-insert id id r.next r.breakers, string_eq.same_iff id id)

found-get :
    (r : BreakerRegistry) (id : String) (p : ℕ) → lookup id r.breakers ≡ some p → get r id ≡ (r, p)
unfolding get get_found
found-get r id p h = rw h refl

found-breaker_of :
    (r : BreakerRegistry) (id : String) (p : ℕ)
    → lookup id r.breakers ≡ some p
    → breaker_of r id ≡ r.memory p
unfolding breaker_of get get_found
found-breaker_of r id p h = ground (arith, h)

get-breaker_of : (r : BreakerRegistry) (id : String) → breaker_of (get r id).0 id ≡ breaker_of r id
unfolding breaker_of
get-breaker_of r id = found-breaker_of (get r id).0 id (get r id).1 (get-stored r id)

new-IsSeparate : (cfg : BreakerConfig) → IsSeparate (new_breaker_registry cfg)
unfolding new_breaker_registry lookup
new-IsSeparate cfg = record {
  in_use = λ id p e. ground (arith, e);
  own = λ i j p e f. ground (arith, e);
}

new-breaker_of :
    (cfg : BreakerConfig) (id : String)
    → breaker_of (new_breaker_registry cfg) id ≡ new_node_breaker id cfg
unfolding breaker_of new_breaker_registry get get_found write lookup
new-breaker_of cfg id = ground arith

run-append : (b : NodeBreaker) (xs ys : List Call) → run b (xs ++ ys) ≡ run (run b xs) ys
unfolding run
run-append b [] ys = refl
run-append b (x ∷ xs) ys = run-append (step b x) xs ys

-- A pointer to the breaker of a node that Get returned after any history of calls to any nodes is the one that Get returns after any further history, and the breaker behind it is then in the state that the node's own calls of both histories, in their order, bring a new breaker to.
pub registry_isolates_nodes :
    (cfg : BreakerConfig) (id : String) (before after : List (String × Call))
    → let (taken, p) = get (run_registry (new_breaker_registry cfg) before) id in
      let later = run_registry taken after in
      ((get later id).1 ≡ p)
      × (later.memory p ≡ run (new_node_breaker id cfg) (calls_of id before ++ calls_of id after))
registry_isolates_nodes cfg id before after =
    let r = run_registry (new_breaker_registry cfg) before in
    let separate = run_registry-IsSeparate (new_breaker_registry cfg) before (new-IsSeparate cfg) in
    let taken = get r id in
    let later = run_registry taken.0 after in
    let kept = run_registry-keeps taken.0 id after taken.1 (get-stored r id) in
    let earlier : breaker_of r id ≡ run (new_node_breaker id cfg) (calls_of id before) =
      run_registry-breaker_of (new_breaker_registry cfg) id before (new-IsSeparate cfg)
      ∙ ap (λ b. run b (calls_of id before)) (new-breaker_of cfg id) in
    (
      ap (λ x. x.1) (found-get later id taken.1 kept),
      sym (found-breaker_of later id taken.1 kept)
          ∙ run_registry-breaker_of taken.0 id after (get-IsSeparate r id separate)
          ∙ ap (λ b. run b (calls_of id after)) (get-breaker_of r id ∙ earlier)
          ∙ sym (run-append (new_node_breaker id cfg) (calls_of id before) (calls_of id after)),
    )
