-- ===== src/Scheduler/Select/Best.antt =====
-- BestNode and the scores of the nodes.
use open_fabric.Common.{
  ℕ, ◌≡◌, refl, subst, true, false, Option, none, some, List, [], ◌∷◌, All, All-map, arith, inl,
  inr, Bool-cases, ◌⊎◌,
}
use mathlib.Core.List.{Memᴰ}
use open_fabric.Common.Int.{ℤ, pos, negsuc, ltb_ℤ, ◌≤ℤ◌, ◌<ℤ◌}
use open_fabric.Scheduler.Classifier.{TaskRequirements}
use open_fabric.Scheduler.Select.{NodeSnapshot, Total, is_eligible, score, best_from, best_node}

module _ (total : Total) (now : ℕ) (reqs : TaskRequirements) where
  -- The node that is kept so far has the score that is kept.
  abbrev Holds : Option NodeSnapshot → ℤ → Type 0
  Holds none s = s ≡ negsuc 0
  Holds (some n) s = s ≡ score total now n reqs

  -- The answer is the node of the start or one of the list, and nothing has a higher score.
  record Answers (best : Option NodeSnapshot) (start : ℤ) (nodes : List NodeSnapshot)
      (answer : Option NodeSnapshot) : Type 0 where
    end : ℤ
    holds : Holds answer end
    above : start ≤ℤ end
    highest : All (λ n. score total now n reqs ≤ℤ end) nodes
    origin :
        (answer ≡ best) ⊎ ((n : NodeSnapshot) × (answer ≡ some n) × Memᴰ n nodes × (start <ℤ end))

  best_from-Answers :
      (best : Option NodeSnapshot) (start : ℤ) (nodes : List NodeSnapshot)
      → Holds best start
      → Answers best start nodes (best_from total now reqs best start nodes)
  unfolding best_from
  best_from-Answers best start [] h = record {
    end = start;
    holds = h;
    above = omega arith;
    highest = tt;
    origin = inl refl;
  }
  best_from-Answers best start (n ∷ nodes) h =
      elim (Bool-cases (ltb_ℤ start (score total now n reqs))) [
        | inl e ↦
            let r = best_from-Answers (some n) (score total now n reqs) nodes refl in
            rw (e, best_from)
              (record {
                end = r.end;
                holds = r.holds;
                above = ground (arith, r.above);
                highest = (r.above, r.highest);
                origin = inr (elim r.origin [
                  | inl same ↦ (n, same, Memᴰ.head refl, ground (arith, r.above))
                  | inr (m, same, member, up) ↦ (m, same, Memᴰ.tail member, ground arith)
                ]);
              })
        | inr e ↦
            let r = best_from-Answers best start nodes h in
            rw (e, best_from)
              (record {
                end = r.end;
                holds = r.holds;
                above = r.above;
                highest = (ground (arith, r.above), r.highest);
                origin = elim r.origin [
                  | inl same ↦ inl same
                  | inr (m, same, member, up) ↦ inr (m, same, Memᴰ.tail member, up)
                ];
              })
      ]

  eligible-score :
      ((n : NodeSnapshot) → pos 0 ≤ℤ total n reqs)
      → (n : NodeSnapshot)
      → (negsuc 0 <ℤ score total now n reqs → is_eligible now n reqs ≡ true)
        × (is_eligible now n reqs ≡ true
            → (score total now n reqs ≡ total n reqs) × (negsuc 0 <ℤ score total now n reqs))
  unfolding score
  eligible-score h n = ground (arith, h n)

-- If the weighted sums are not negative, BestNode returns a node of the list that is eligible and whose weighted sum no eligible node of the list exceeds, and returns nil exactly when no node of the list is eligible.
pub best_node-highest :
    (total : Total) (now : ℕ) (nodes : List NodeSnapshot) (reqs : TaskRequirements)
    → ((n : NodeSnapshot) → pos 0 ≤ℤ total n reqs)
    → ((best_node total now nodes reqs ≡ none) × All (λ n. is_eligible now n reqs ≡ false) nodes)
      ⊎ ((n : NodeSnapshot) × (best_node total now nodes reqs ≡ some n)
          × Memᴰ n nodes
          × (is_eligible now n reqs ≡ true)
          × All (λ m. is_eligible now m reqs ≡ true → total m reqs ≤ℤ total n reqs) nodes)
unfolding best_node
best_node-highest total now nodes reqs h =
    let r = best_from-Answers total now reqs none (negsuc 0) nodes refl in
    let fits = eligible-score total now reqs h in
    elim r.origin [
      | inl same ↦
          let bottom : r.end ≡ negsuc 0 = subst (λ b. Holds total now reqs b r.end) same r.holds in
          inl (
            same,
            All-map _ (λ n. is_eligible now n reqs ≡ false) nodes (λ n low. ground (arith, fits n))
                r.highest,
          )
      | inr (n, same, member, up) ↦
          let top : r.end ≡ score total now n reqs =
            subst (λ b. Holds total now reqs b r.end) same r.holds in
          inr (
            n,
            same,
            member,
            (fits n).0 (ground arith),
            All-map _ (λ m. is_eligible now m reqs ≡ true → total m reqs ≤ℤ total n reqs) nodes
                (λ m low e. ground (arith, fits m, fits n)) r.highest,
          )
    ]
