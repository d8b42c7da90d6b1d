-- ===== src/Flow/Graph/Fuel.antt =====
-- The fuel of the search for cycles, and the steps it has not coloured yet.
use open_fabric.Common.{
  ℕ, zero, suc, ◌+◌, ◌≤◌, ◌<◌, ◌≡◌, ◌≢◌, refl, List, [], ◌∷◌, All, arith, inl, inr, String,
  string_eq, length,
}
use mathlib.Core.List.{Memᴰ}
use mathlib.Core.List.Memᴰ
use open_fabric.Flow.Graph.{
  Step, Color, white, grey, black, Colors, paint, Search, done, cut, each, dfs, dependencies,
  unvisited, search, ids,
}
use open_fabric.Flow.Graph.Order.{blacken-cut, Search-cases, Color-cases, blacken-done, done_inj}

abbrev is_white : Color → ℕ
is_white white = 1
is_white _ = 0

-- How many of the steps have not been visited.
abbrev whites : Colors → List String → ℕ
whites c [] = 0
whites c (id ∷ l) = is_white (c id) + whites c l

whites-paint :
    (c : Colors) (id : String) (x : Color) (l : List String)
    → is_white x ≡ 0
    → whites (paint c id x) l ≤ whites c l
whites-paint c id x [] h = omega arith
whites-paint c id x (j ∷ l) h = ground (arith, whites-paint c id x l h)

whites-paint_lt :
    (c : Colors) (id : String) (x : Color) (l : List String)
    → is_white x ≡ 0
    → c id ≡ white
    → Memᴰ id l
    → whites (paint c id x) l < whites c l
whites-paint_lt c id x [] h w m = absurd (Memᴰ.not-nil m)
whites-paint_lt c id x (j ∷ l) h w (Memᴰ.head e) =
    ground (arith, whites-paint c id x l h, string_eq.same_iff id j)
whites-paint_lt c id x (j ∷ l) h w (Memᴰ.tail m) = ground (arith, whites-paint_lt c id x l h w m)

-- A visit with more fuel than white steps comes back, and makes no step white.
abbrev Returns : List String → (Colors → String → Search) → ℕ → Type 0
Returns l visit fuel =
    (c : Colors) (id : String)
    → Memᴰ id l
    → whites c l < fuel
    → (visit c id ≢ cut) × ((c' : Colors) → visit c id ≡ done c' → whites c' l ≤ whites c l)

each-Returns :
    (l : List String) (visit : Colors → String → Search) (fuel : ℕ)
    → Returns l visit fuel
    → (deps : List String) (c : Colors) → All (λ d. Memᴰ d l) deps
    → whites c l < fuel
    → (each visit c deps ≢ cut)
      × ((c' : Colors) → each visit c deps ≡ done c' → whites c' l ≤ whites c l)
unfolding each
each-Returns l visit fuel r [] c h w =
    ((λ e. ground arith), λ c' e. rw (← (done_inj c c' e)) (omega arith))
each-Returns l visit fuel r (d ∷ deps) c h w =
    let (back, few) = r c d h.0 w in
    elim (Search-cases (visit c d)) [
      | inl (c1, q) ↦
          let less = few c1 q in
          let (back', few') = each-Returns l visit fuel r deps c1 h.1 (omega arith) in
          (
            (λ e. back' (rw (q, each) at e)),
            λ c' e. let more = few' c' (rw (q, each) at e) in omega arith,
          )
      | inr (inl (id, q)) ↦ ((λ e. ground arith), λ c' e. absurd (ground arith))
      | inr (inr q) ↦ absurd (back q)
    ]

dfs-Returns :
    (fuel : ℕ) (steps : List Step) (l : List String)
    → ((id : String) → All (λ d. Memᴰ d l) (dependencies steps id))
    → Returns l (dfs fuel steps) fuel
unfolding dfs
dfs-Returns zero steps l k c id m w = absurd (omega arith)
dfs-Returns (suc fuel) steps l k c id m w = elim (Color-cases (c id)) [
  | inl p ↦
      let low = whites-paint_lt c id grey l refl p m in
      let (back, few) =
        each-Returns l (dfs fuel steps) fuel (dfs-Returns fuel steps l k) (dependencies steps id)
          (paint c id grey) (k id) (omega arith) in
      (
        (λ e. back (blacken-cut id _ (rw (p, dfs) at e))),
        λ c' e.
            let (c2, s, f) = blacken-done id _ c' (rw (p, dfs) at e) in
            let less = few c2 s in rw f (omega (arith, whites-paint c2 id black l refl)),
      )
  | inr (inl p) ↦ ((λ e. ground arith), λ c' e. absurd (ground arith))
  | inr (inr p) ↦
      ((λ e. ground arith), λ c' e. rw (← (done_inj c c' (rw (p, dfs) at e))) (omega arith))
]

whites-unvisited : (l : List String) → whites unvisited l ≡ length l
whites-unvisited [] = refl
whites-unvisited (id ∷ l) = omega (arith, whites-unvisited l)

length-ids : (steps : List Step) → length (ids steps) ≡ length steps
unfolding ids
length-ids [] = refl
length-ids (s ∷ steps) = omega (arith, length-ids steps)

All-members :
    (l l' : List String) → ((id : String) → Memᴰ id l → Memᴰ id l') → All (λ d. Memᴰ d l') l
All-members [] l' f = tt
All-members (x ∷ l) l' f = (f x (Memᴰ.head refl), All-members l l' (λ id m. f id (Memᴰ.tail m)))

pub search-uncut :
    (steps : List Step)
    → ((id : String) → All (λ d. Memᴰ d (ids steps)) (dependencies steps id))
    → search steps ≢ cut
unfolding search
search-uncut steps k =
    (each-Returns (ids steps) (dfs (suc (length steps)) steps) (suc (length steps))
      (dfs-Returns (suc (length steps)) steps (ids steps) k) (ids steps) unvisited
      (All-members (ids steps) (ids steps) (λ id m. m))
      (omega (arith, whites-unvisited (ids steps), length-ids steps))).0
