-- ===== src/Common/Text.antt =====
-- Functions of Go's packages `strings` and `unicode` on a text as the list of its code points.
use open_fabric.Common.{
  ℕ, ◌≡◌, ◌≢◌, ◌↔◌, refl, ap, All-append, Bool, true, false, ◌&&◌, ◌||◌, eqb, leb, List, [], ◌∷◌,
  ◌++◌, All, arith, inl, inr, Bool-cases,
}

abbrev pub Text : Type 0
Text = List ℕ

-- strings.HasPrefix
unfoldable pub has_prefix : Text → Text → Bool
has_prefix s [] = true
has_prefix [] (p ∷ ps) = false
has_prefix (c ∷ s) (p ∷ ps) = eqb c p && has_prefix s ps

-- strings.Contains
unfoldable pub contains : Text → Text → Bool
contains [] p = has_prefix [] p
contains (c ∷ s) p = has_prefix (c ∷ s) p || contains s p

-- strings.ContainsRune and slices of runes
unfoldable pub contains_rune : Text → ℕ → Bool
contains_rune [] r = false
contains_rune (c ∷ s) r = eqb c r || contains_rune s r

-- unicode.IsSpace
abbrev pub is_space : ℕ → Bool
is_space c =
    leb 9 c && leb c 13
    || eqb c 32
    || eqb c 133
    || eqb c 160
    || eqb c 5760
    || leb 8192 c && leb c 8202
    || eqb c 8232
    || eqb c 8233
    || eqb c 8239
    || eqb c 8287
    || eqb c 12288

-- strings.TrimSpace(s) == ""
unfoldable pub is_blank : Text → Bool
is_blank [] = true
is_blank (c ∷ s) = is_space c && is_blank s

-- strings.FieldsFunc: `word` is the field that has begun, an empty one is not kept.
unfoldable pub keep_field : Text → List Text → List Text
keep_field [] rest = rest
keep_field (c ∷ word) rest = (c ∷ word) ∷ rest

unfoldable pub fields_from : (ℕ → Bool) → Text → Text → List Text
fields_from separates word [] = keep_field word []
fields_from separates word (c ∷ s) = elim (separates c) [
  | true ↦ keep_field word (fields_from separates [] s)
  | false ↦ fields_from separates (word ++ c ∷ []) s
]

unfoldable pub fields_func : (ℕ → Bool) → Text → List Text
fields_func separates s = fields_from separates [] s

-- strings.Fields
unfoldable pub fields : Text → List Text
fields s = fields_func is_space s

-- strings.TrimLeft and strings.TrimRight with a set of characters, and strings.Trim
unfoldable pub trim_left : (ℕ → Bool) → Text → Text
trim_left drops [] = []
trim_left drops (c ∷ s) = elim (drops c) [ true ↦ trim_left drops s | false ↦ c ∷ s ]

unfoldable pub trim_right : (ℕ → Bool) → Text → Text
trim_right drops [] = []
trim_right drops (c ∷ s) = elim (trim_right drops s) [
  | [] ↦ elim (drops c) [ true ↦ [] | false ↦ c ∷ [] ]
  | d ∷ rest ↦ c ∷ d ∷ rest
]

unfoldable pub trim : (ℕ → Bool) → Text → Text
trim drops s = trim_right drops (trim_left drops s)

unfoldable pub same_text : Text → Text → Bool
same_text [] [] = true
same_text (c ∷ s) (d ∷ t) = eqb c d && same_text s t
same_text _ _ = false

pub same_text_iff : (s t : Text) → (same_text s t ≡ true) ↔ (s ≡ t)
unfolding same_text
same_text_iff [] [] = ground arith
same_text_iff [] (d ∷ t) = ground arith
same_text_iff (c ∷ s) [] = ground arith
same_text_iff (c ∷ s) (d ∷ t) = ground (arith, same_text_iff s t)

-- A text that occurs in another.
abbrev pub OccursIn : Text → Text → Type 0
OccursIn p s = (before after : Text) × (s ≡ before ++ p ++ after)

has_prefix-split : (s p : Text) → has_prefix s p ≡ true → (after : Text) × (s ≡ p ++ after)
unfolding has_prefix
has_prefix-split s [] h = (s, refl)
has_prefix-split [] (p ∷ ps) h = ground arith
has_prefix-split (c ∷ s) (p ∷ ps) h =
    let (after, e) = has_prefix-split s ps (ground arith) in (after, ground arith)

has_prefix-append : (p after : Text) → has_prefix (p ++ after) p ≡ true
unfolding has_prefix
has_prefix-append [] after = refl
has_prefix-append (c ∷ p) after = ground (arith, has_prefix-append p after)

contains-OccursIn : (s p : Text) → contains s p ≡ true → OccursIn p s
unfolding contains
contains-OccursIn [] p h = let (after, e) = has_prefix-split [] p h in ([], after, e)
contains-OccursIn (c ∷ s) p h = elim (Bool-cases (has_prefix (c ∷ s) p)) [
  | inl e ↦ let (after, q) = has_prefix-split (c ∷ s) p e in ([], after, q)
  | inr e ↦
      let (before, after, q) = contains-OccursIn s p (ground arith) in
      (c ∷ before, after, ap (λ (t : Text). c ∷ t) q)
]

contains-has_prefix : (s p : Text) → has_prefix s p ≡ true → contains s p ≡ true
unfolding contains
contains-has_prefix [] p h = h
contains-has_prefix (c ∷ s) p h = ground arith

OccursIn-contains : (before p after : Text) → contains (before ++ p ++ after) p ≡ true
unfolding contains
OccursIn-contains [] p after = contains-has_prefix (p ++ after) p (has_prefix-append p after)
OccursIn-contains (c ∷ before) p after = ground (arith, OccursIn-contains before p after)

-- `contains` finds exactly the texts that occur.
pub contains_iff : (s p : Text) → (contains s p ≡ true) ↔ OccursIn p s
contains_iff s p =
    (contains-OccursIn s p, λ (before, after, e). rw e (OccursIn-contains before p after))

pub contains-absent : (s p : Text) → contains s p ≡ false → ¬ OccursIn p s
contains-absent s p h o = ground (arith, (contains_iff s p).1 o)

-- Every character of a text passes a test that no character of it fails.
pub contains_rune-absent : (s : Text) (r : ℕ) → contains_rune s r ≡ false → All (λ c. c ≢ r) s
unfolding contains_rune
contains_rune-absent [] r h = tt
contains_rune-absent (c ∷ s) r h = (ground arith, contains_rune-absent s r (ground arith))

-- A field has a character, and none of its characters separates.
abbrev pub IsField : (ℕ → Bool) → Text → Type 0
IsField separates w = (w ≢ []) × All (λ c. separates c ≡ false) w

keep_field-IsField :
    (separates : ℕ → Bool) (word : Text) (rest : List Text)
    → All (λ c. separates c ≡ false) word
    → All (IsField separates) rest
    → All (IsField separates) (keep_field word rest)
unfolding keep_field
keep_field-IsField separates [] rest h k = k
keep_field-IsField separates (c ∷ word) rest h k = ((λ e. ground arith, h), k)

fields_from-IsField :
    (separates : ℕ → Bool) (word s : Text)
    → All (λ c. separates c ≡ false) word
    → All (IsField separates) (fields_from separates word s)
unfolding fields_from
fields_from-IsField separates word [] h = keep_field-IsField separates word [] h tt
fields_from-IsField separates word (c ∷ s) h = elim (Bool-cases (separates c)) [
  | inl e ↦
      rw (e, fields_from)
        (keep_field-IsField separates word _ h (fields_from-IsField separates [] s tt))
  | inr e ↦
      rw (e, fields_from)
        (fields_from-IsField separates (word ++ c ∷ []) s (All-append _ word (c ∷ []) h (e, tt)))
]

pub fields_func-IsField :
    (separates : ℕ → Bool) (s : Text) → All (IsField separates) (fields_func separates s)
unfolding fields_func
fields_func-IsField separates s = fields_from-IsField separates [] s tt
