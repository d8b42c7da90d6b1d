-- ===== src/Storage/Convergence.antt =====
-- What stores that received the same entries agree on, and where they do not.
use open_fabric.Common.{
  ℕ, ◌≤◌, ◌<◌, ◌≡◌, ◌≢◌, refl, sym, ap, ◌∙◌, subst, String, Bool, true, false, ltb, if◌then◌else◌,
  ◌==◌, ◌&&◌, Option, none, some, List, [], ◌∷◌, lookup, insert, lookup-insert, lookup-insert_self,
  string_eq, arith, Bool-cases, Option-cases, inl, inr, ◌⊎◌, ==-refl, ==-eq,
}
use mathlib.Core.List.{Memᴰ}
use mathlib.Core.Option.{some-ne-none, some-injective}
use open_fabric.Storage.{
  MetaEntry, CrdtStore, new_crdt_store, supersedes, upsert, get, delete, tombstone_of, merge_all,
}

keep : String → Option MetaEntry → MetaEntry → Option MetaEntry
keep path acc e = if e.path == path && supersedes e acc then some e else acc

keep_all : String → Option MetaEntry → List MetaEntry → Option MetaEntry
keep_all path acc [] = acc
keep_all path acc (e ∷ es) = keep_all path (keep path acc e) es

get-upsert :
    (c : CrdtStore) (e : MetaEntry) (path : String)
    → get (upsert c e).0 path ≡ keep path (get c path) e
unfolding get upsert keep
get-upsert c e path = elim (Bool-cases (e.path == path)) [
  | inl hit ↦ ground (
    arith,
    lookup-insert e.path path e c.entries,
    ap (λ k. lookup k c.entries) (==-eq e.path path hit),
  )
  | inr miss ↦ ground (arith, lookup-insert e.path path e c.entries)
]

get-merge_all :
    (c : CrdtStore) (es : List MetaEntry) (path : String)
    → get (merge_all c es) path ≡ keep_all path (get c path) es
unfolding merge_all keep_all
get-merge_all c [] path = refl
get-merge_all c (e ∷ es) path =
    get-merge_all (upsert c e).0 es path ∙ ap (λ a. keep_all path a es) (get-upsert c e path)

-- `r` is an entry for the path, as late as `e`.
AtLeast : MetaEntry → Option MetaEntry → Type 0
AtLeast e r = (x : MetaEntry) × (r ≡ some x) × (e.updated_at ≤ x.updated_at)

keep_all-late :
    (path : String) (acc : Option MetaEntry) (es : List MetaEntry) (e : MetaEntry)
    → AtLeast e acc
    → AtLeast e (keep_all path acc es)
unfolding keep_all AtLeast keep
keep_all-late path acc [] e h = h
keep_all-late path acc (f ∷ fs) e (x, same, late) =
    keep_all-late path (keep path acc f) fs e
      (elim (Bool-cases (f.path == path && ltb x.updated_at f.updated_at)) [
        | inl newer ↦ (f, ground arith, ground arith)
        | inr older ↦ (x, ground arith, late)
      ])

keep-late :
    (path : String) (acc : Option MetaEntry) (f : MetaEntry)
    → f.path ≡ path
    → AtLeast f (keep path acc f)
unfolding AtLeast keep
keep-late path none f at = (f, ground (arith, string_eq.same_iff f.path path), omega arith)
keep-late path (some a) f at = elim (Bool-cases (ltb a.updated_at f.updated_at)) [
  | inl newer ↦ (f, ground (arith, string_eq.same_iff f.path path), omega arith)
  | inr older ↦ (a, ground (arith, string_eq.same_iff f.path path), ground arith)
]

keep_all-above :
    (path : String) (acc : Option MetaEntry) (es : List MetaEntry) (e : MetaEntry)
    → Memᴰ e es
    → e.path ≡ path
    → AtLeast e (keep_all path acc es)
unfolding keep_all AtLeast keep
keep_all-above path acc [] e there at = elim there [ ]
keep_all-above path acc (f ∷ fs) e (Memᴰ.head same) at = keep_all-late path (keep path acc f) fs e (
    subst (λ g. AtLeast g (keep path acc f)) (sym same)
      (keep-late path acc f (ap (λ (g : MetaEntry). g.path) (sym same) ∙ at)))
keep_all-above path acc (f ∷ fs) e (Memᴰ.tail there) at =
    keep_all-above path (keep path acc f) fs e there at

keep_all-from :
    (path : String) (acc : Option MetaEntry) (es : List MetaEntry) (x : MetaEntry)
    → keep_all path acc es ≡ some x
    → (acc ≡ some x) ⊎ (Memᴰ x es × (x.path ≡ path))
unfolding keep_all keep
keep_all-from path acc [] x h = inl h
keep_all-from path acc (f ∷ fs) x h = elim (keep_all-from path (keep path acc f) fs x h) [
  | inr (there, at) ↦ inr (Memᴰ.tail there, at)
  | inl now ↦ elim (Bool-cases (f.path == path && supersedes f acc)) [
    | inl taken ↦
        let both : ((f.path ≡ path) × (some f ≡ some x)) =
          ground (arith, string_eq.same_iff f.path path) in
        let same = some-injective f x both.1 in
        inr (Memᴰ.head (sym same), ap (λ (g : MetaEntry). g.path) (sym same) ∙ both.0)
    | inr kept ↦ inl (ground arith)
  ]
]

-- Entries of one path with one time are one entry.
abbrev pub NoTies : List MetaEntry → Type 0
NoTies es =
    (x y : MetaEntry)
    → Memᴰ x es
    → Memᴰ y es
    → x.path ≡ y.path
    → x.updated_at ≡ y.updated_at
    → x ≡ y

module _ (es fs : List MetaEntry) (to_fs : (e : MetaEntry) → Memᴰ e es → Memᴰ e fs) where
  found_both :
      (path : String) (x : MetaEntry)
      → keep_all path none es ≡ some x
      → (Memᴰ x es × (x.path ≡ path)) × AtLeast x (keep_all path none fs)
  found_both path x h = elim (keep_all-from path none es x h) [
    | inl never ↦ absurd (some-ne-none x (sym never))
    | inr (there, at) ↦ ((there, at), keep_all-above path none fs x (to_fs x there) at)
  ]

same_time : (a b d : ℕ) → a ≤ b → b ≤ d → a ≡ d → a ≡ b
same_time a b d h k e = omega arith

converge_keep :
    (es fs : List MetaEntry) (path : String)
    → ((e : MetaEntry) → Memᴰ e es → Memᴰ e fs)
    → ((e : MetaEntry) → Memᴰ e fs → Memᴰ e es)
    → NoTies es
    → keep_all path none es ≡ keep_all path none fs
unfolding AtLeast
converge_keep es fs path there back no_ties = elim (Option-cases (keep_all path none es)) [
  | inl e ↦ elim (Option-cases (keep_all path none fs)) [
    | inl f ↦ e ∙ sym f
    | inr (y, f) ↦
        let (_, (x, got, _)) = found_both fs es back path y f in
        absurd (some-ne-none x (sym got ∙ e))
  ]
  | inr (x, e) ↦
      let ((x_in, x_at), (y, f, x_y)) = found_both es fs there path x e in
      let ((y_in, y_at), (x', e', y_x)) = found_both fs es back path y f in
      let same : x ≡ x' = some-injective _ _ (sym e ∙ e') in
      e
      ∙ ap some (
          no_ties x y x_in (back y y_in) (x_at ∙ sym y_at)
            (same_time _ _ _ x_y y_x (ap (λ (g : MetaEntry). g.updated_at) same)))
      ∙ sym f
]

-- Two new stores that received the same entries, each in its own order and as often as it happens,
-- hold the same entry for every path, when no two different entries of one path have one time.
pub merge_all-converges :
    (es fs : List MetaEntry) (path : String)
    → ((e : MetaEntry) → Memᴰ e es → Memᴰ e fs)
    → ((e : MetaEntry) → Memᴰ e fs → Memᴰ e es)
    → NoTies es
    → get (merge_all new_crdt_store es) path ≡ get (merge_all new_crdt_store fs) path
unfolding get keep_all lookup
merge_all-converges es fs path there back no_ties =
    get-merge_all new_crdt_store es path
    ∙ converge_keep es fs path there back no_ties
    ∙ sym (get-merge_all new_crdt_store fs path)

first_in : (x : MetaEntry) → lookup x.path (upsert new_crdt_store x).0.entries ≡ some x
unfolding upsert lookup insert
first_in x = ground (arith, ==-refl x.path)

rejects :
    (c : CrdtStore) (x y : MetaEntry)
    → lookup x.path c.entries ≡ some x
    → x.path ≡ y.path
    → y.updated_at ≤ x.updated_at
    → upsert c y ≡ (c, false)
unfolding upsert
rejects c x y there same late =
    let found = ap (λ k. lookup k c.entries) (sym same) ∙ there in rw found (ground arith)

first_kept :
    (x y : MetaEntry)
    → x.path ≡ y.path
    → x.updated_at ≡ y.updated_at
    → (get (merge_all new_crdt_store (x ∷ y ∷ [])) x.path ≡ some x)
      × (upsert (merge_all new_crdt_store (x ∷ y ∷ [])) y
          ≡ (merge_all new_crdt_store (x ∷ y ∷ []), false))
unfolding merge_all get
first_kept x y same tie =
    let c = (upsert new_crdt_store x).0 in
    let there : lookup x.path c.entries ≡ some x = first_in x in
    let stays = rejects c x y there same (omega arith) in
    let left : (upsert c y).0 ≡ c = ap (λ (p : CrdtStore × Bool). p.0) stays in
    rw left (there, stays)

-- Two different entries of one path with one time, received in opposite orders by two new stores:
-- each store keeps the one that it received first, so that they differ, and receiving the other's
-- entry again changes neither.
pub upsert_tie-diverges :
    (x y : MetaEntry)
    → x.path ≡ y.path
    → x.updated_at ≡ y.updated_at
    → x ≢ y
    → let left = merge_all new_crdt_store (x ∷ y ∷ []) in
      let right = merge_all new_crdt_store (y ∷ x ∷ []) in
      (get left x.path ≡ some x)
      × (get right x.path ≡ some y)
      × (get left x.path ≢ get right x.path)
      × (upsert left y ≡ (left, false))
      × (upsert right x ≡ (right, false))
upsert_tie-diverges x y same tie differ =
    let (left, again) = first_kept x y same tie in
    let (right, back) = first_kept y x (sym same) (sym tie) in
    let right' = ap (get (merge_all new_crdt_store (y ∷ x ∷ []))) same ∙ right in
    (left, right', λ e. differ (some-injective x y (sym left ∙ e ∙ right')), again, back)

-- A path is deleted at time `now` on one store, which then holds the tombstone, and an entry `e` of
-- the path comes from a peer afterwards. Made at `now` or before, it is discarded and nothing
-- changes; made after `now`, as when the deleting node's clock is slow, it is taken, and the path
-- holds it again.
pub delete-sticks :
    (c : CrdtStore) (e : MetaEntry) (node_id : String) (now : ℕ)
    → let c' = delete c e.path node_id now in
      (get c' e.path ≡ some (tombstone_of e.path node_id now))
      × (e.updated_at ≤ now → upsert c' e ≡ (c', false))
      × (now < e.updated_at → ((upsert c' e).1 ≡ true) × (get (upsert c' e).0 e.path ≡ some e))
unfolding delete upsert get
delete-sticks c e node_id now =
    let c' = delete c e.path node_id now in
    let self = lookup-insert_self e.path (tombstone_of e.path node_id now) c.entries in
    (
      self,
      λ old. rw self (ground arith),
      λ new. rw self (ground (arith, lookup-insert_self e.path e c'.entries)),
    )
