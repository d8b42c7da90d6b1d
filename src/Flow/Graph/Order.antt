-- ===== src/Flow/Graph/Order.antt =====
-- The colours of the search for cycles, and the order in which it leaves the steps.
use open_fabric.Common.{
  ℕ, zero, suc, ◌≡◌, ◌≢◌, refl, sym, subst, ap, List, [], ◌∷◌, ◌++◌, All, All-map, arith, inl, inr,
  ◌⊎◌, ◌↔◌, String, string_eq, ◌==◌, Bool-cases,
}
use mathlib.Core.List.{Memᴰ}
use open_fabric.Flow.Graph.{
  Step, Color, white, grey, black, Colors, paint, Search, done, cycle, cut, each, blacken, dfs,
  dependencies,
}

-- The latest first: each step stands before all that it depends on.
abbrev pub IsOrder : List Step → List String → Type 0
IsOrder steps [] = Unit
IsOrder steps (id ∷ order) = All (λ d. Memᴰ d order) (dependencies steps id) × IsOrder steps order

-- The black steps are those of the order.
pub record Marks (steps : List Step) (c : Colors) (order : List String) : Type 0 where
  pub ordered : IsOrder steps order
  pub listed : (id : String) → c id ≡ black → Memᴰ id order
  pub marked : (id : String) → Memᴰ id order → c id ≡ black

-- A search that comes back has only turned white steps black.
pub record Extends (steps : List Step) (c c' : Colors) (order : List String) : Type 0 where
  pub later : List String
  pub marks : Marks steps c' (later ++ order)
  pub greys : (id : String) → (c' id ≡ grey) ↔ (c id ≡ grey)

mem_later : (id : String) (xs ys : List String) → Memᴰ id ys → Memᴰ id (xs ++ ys)
mem_later id [] ys m = m
mem_later id (x ∷ xs) ys m = Memᴰ.tail (mem_later id xs ys m)

-- What `dfs` does to one step, and the loop to a list of them.
abbrev pub Visits : List Step → (Colors → String → Search) → Type 0
Visits steps visit =
    (c : Colors) (id : String) (order : List String) (c' : Colors)
    → Marks steps c order
    → visit c id ≡ done c'
    → Extends steps c c' order × (c' id ≡ black)

pub Search-cases :
    (s : Search) → ((c : Colors) × (s ≡ done c)) ⊎ (((id : String) × (s ≡ cycle id)) ⊎ (s ≡ cut))
Search-cases (done c) = inl (c, refl)
Search-cases (cycle id) = inr (inl (id, refl))
Search-cases cut = inr (inr refl)

pub Color-cases : (x : Color) → (x ≡ white) ⊎ ((x ≡ grey) ⊎ (x ≡ black))
Color-cases white = inl refl
Color-cases grey = inr (inl refl)
Color-cases black = inr (inr refl)

pub done_inj : (c c' : Colors) → done c ≡ done c' → c ≡ c'
done_inj c c' e = ap (λ s. elim s as (λ _. Colors) [ done x ↦ x | cycle _ ↦ c | cut ↦ c ]) e

append_assoc : (xs ys zs : List String) → (xs ++ ys) ++ zs ≡ xs ++ (ys ++ zs)
append_assoc [] ys zs = refl
append_assoc (x ∷ xs) ys zs = ap (λ (l : List String). x ∷ l) (append_assoc xs ys zs)

pub each-Extends :
    (steps : List Step) (visit : Colors → String → Search)
    → Visits steps visit
    → (deps : List String) (c : Colors) (order : List String) (c' : Colors) → Marks steps c order
    → each visit c deps ≡ done c'
    → Extends steps c c' order × All (λ d. c' d ≡ black) deps
unfolding each
each-Extends steps visit v [] c order c' m e =
    let same = done_inj c c' e in
    (
      record {
        later = [];
        marks = subst (λ x. Marks steps x order) same m;
        greys = λ id. rw same (λ p. p, λ p. p);
      },
      tt,
    )
each-Extends steps visit v (d ∷ deps) c order c' m e = elim (Search-cases (visit c d)) [
  | inl (c1, q) ↦
      let (x, b) = v c d order c1 m q in
      let rest : each visit c1 deps ≡ done c' = rw (q, each) at e in
      let (y, all) = each-Extends steps visit v deps c1 (x.later ++ order) c' x.marks rest in
      (
        record {
          later = y.later ++ x.later;
          marks = rw (append_assoc y.later x.later order) y.marks;
          greys = λ id.
              ((λ p. (x.greys id).0 ((y.greys id).0 p)), (λ p. (y.greys id).1 ((x.greys id).1 p)));
        },
        (y.marks.marked d (mem_later d y.later (x.later ++ order) (x.marks.listed d b)), all),
      )
  | inr (inl (id, q)) ↦ absurd (ground arith)
  | inr (inr q) ↦ absurd (ground arith)
]

paint_grey-Marks :
    (steps : List Step) (c : Colors) (id : String) (order : List String)
    → c id ≡ white
    → Marks steps c order
    → Marks steps (paint c id grey) order
paint_grey-Marks steps c id order w m = record {
  ordered = m.ordered;
  listed = λ j p. m.listed j (ground arith);
  marked = λ j p. ground (arith, m.marked j p, string_eq.same_iff id j);
}

pub blacken-done :
    (id : String) (s : Search) (c' : Colors)
    → blacken id s ≡ done c'
    → (c : Colors) × (s ≡ done c) × (c' ≡ paint c id black)
blacken-done id (done c) c' e =
    (c, refl, ap (λ (f : Colors). f) (done_inj c' (paint c id black) (sym e)))
blacken-done id (cycle j) c' e = absurd (ground arith)
blacken-done id cut c' e = absurd (ground arith)

search-absurd : (id : String) (c : Colors) → cycle id ≢ done c
search-absurd id c e = ground arith

painted-marked :
    (c : Colors) (id j : String) (l : List String)
    → ((i : String) → Memᴰ i l → c i ≡ black)
    → Memᴰ j (id ∷ l)
    → paint c id black j ≡ black
painted-marked c id j l h (Memᴰ.head e) = ground (arith, string_eq.same_iff id j)
painted-marked c id j l h (Memᴰ.tail m) = ground (arith, h j m)

finish-Extends :
    (steps : List Step) (c c2 : Colors) (id : String) (order : List String)
    → c id ≡ white
    → (x : Extends steps (paint c id grey) c2 order)
    → All (λ d. c2 d ≡ black) (dependencies steps id)
    → Extends steps c (paint c2 id black) order × (paint c2 id black id ≡ black)
finish-Extends steps c c2 id order w x all = (
  record {
    later = id ∷ x.later;
    marks = record {
      ordered = (
        All-map (λ d. c2 d ≡ black) (λ d. Memᴰ d (x.later ++ order)) (dependencies steps id)
            x.marks.listed all,
        x.marks.ordered,
      );
      listed = λ j p. elim (Bool-cases (id == j)) [
        | inl q ↦ Memᴰ.head (ground (arith, string_eq.same_iff id j))
        | inr q ↦ Memᴰ.tail (x.marks.listed j (ground arith))
      ];
      marked = λ j p. painted-marked c2 id j (x.later ++ order) x.marks.marked p;
    };
    greys = λ j. ground (arith, x.greys j, string_eq.same_iff id j);
  },
  ground (arith, string_eq.same_iff id id),
)

pub dfs-Visits : (fuel : ℕ) (steps : List Step) → Visits steps (dfs fuel steps)
unfolding dfs
dfs-Visits zero steps c id order c' m e = absurd (ground arith)
dfs-Visits (suc fuel) steps c id order c' m e = elim (Color-cases (c id)) [
  | inl w ↦
      let shut : blacken id (each (dfs fuel steps) (paint c id grey) (dependencies steps id))
          ≡ done c' =
        rw (w, dfs) at e in
      let (c2, s, f) = blacken-done id _ c' shut in
      let (x, all) =
        each-Extends steps (dfs fuel steps) (dfs-Visits fuel steps) (dependencies steps id)
          (paint c id grey) order c2 (paint_grey-Marks steps c id order w m) s in
      rw f (finish-Extends steps c c2 id order w x all)
  | inr (inl g) ↦ absurd (search-absurd id c' (rw (g, dfs) at e))
  | inr (inr b) ↦
      let same = done_inj c c' (rw (b, dfs) at e) in
      (
        record {
          later = [];
          marks = subst (λ y. Marks steps y order) same m;
          greys = λ j. rw same (λ p. p, λ p. p);
        },
        rw (← same) b,
      )
]

pub blacken-cut : (id : String) (s : Search) → blacken id s ≡ cut → s ≡ cut
blacken-cut id (done c) e = absurd (ground arith)
blacken-cut id (cycle j) e = absurd (ground arith)
blacken-cut id cut e = refl
