-- ===== src/Wal/Settled.antt =====
-- The entries that recovery reports, as the log grows.
use open_fabric.Common.{
  ℕ, ◌≤◌, ◌≡◌, refl, ap, ◌∙◌, true, false, not, ◌&&◌, ◌||◌, eqb, some, List, [], ◌∷◌, ◌++◌, arith,
  if◌then◌else◌,
}
use mathlib.Core.List.{append-nil}
use open_fabric.Wal.Entry.{Entry, Codec}
use open_fabric.Wal.Recovery.{settle, settled, contains, unsettled, pending_of, is_pending}

-- The entries whose number is not `lsn`.
unfoldable pub remove : ℕ → List Entry → List Entry
remove lsn [] = []
remove lsn (e ∷ es) = let rest = remove lsn es in if eqb lsn e.lsn then rest else e ∷ rest

contains-settle :
    (c : Codec) (e : Entry) (done : List ℕ) (n : ℕ)
    → contains n (settle c e done) ≡ (contains n (settle c e []) || contains n done)
unfolding settle contains
contains-settle c e done n = ground arith

pub contains-settled :
    (c : Codec) (es : List Entry) (e : Entry) (n : ℕ)
    → contains n (settled c (es ++ e ∷ []))
      ≡ (contains n (settled c es) || contains n (settle c e []))
unfolding settled contains
contains-settled c [] e n = ground arith
contains-settled c (x ∷ es) e n = ground (
  arith,
  contains-settle c x (settled c es) n,
  contains-settle c x (settled c (es ++ e ∷ [])) n,
  contains-settled c es e n,
)

unsettled-same :
    (done done' : List ℕ) (es : List Entry)
    → ((n : ℕ) → contains n done' ≡ contains n done)
    → unsettled done' es ≡ unsettled done es
unfolding unsettled
unsettled-same done done' [] h = refl
unsettled-same done done' (e ∷ es) h = rw (h e.lsn, unsettled-same done done' es h)

unsettled-more :
    (lsn : ℕ) (done done' : List ℕ) (es : List Entry)
    → ((n : ℕ) → contains n done' ≡ (contains n done || eqb lsn n))
    → unsettled done' es ≡ remove lsn (unsettled done es)
unfolding unsettled remove
unsettled-more lsn done done' [] h = refl
unsettled-more lsn done done' (e ∷ es) h =
    ground (arith, h e.lsn, unsettled-more lsn done done' es h)

unsettled-append :
    (done : List ℕ) (es fs : List Entry)
    → unsettled done (es ++ fs) ≡ unsettled done es ++ unsettled done fs
unfolding unsettled
unsettled-append done [] fs = refl
unsettled-append done (e ∷ es) fs = ground (arith, unsettled-append done es fs)

-- An entry settles `lsn` and nothing else.
abbrev pub Settles : Codec → ℕ → Entry → Type 0
Settles c lsn e = (is_pending e.status ≡ false) × ((n : ℕ) → contains n (settle c e []) ≡ eqb lsn n)

pub committed-Settles :
    (c : Codec) (e : Entry) (lsn : ℕ)
    → is_pending e.status ≡ false
    → c.unmarshal_refs e.payload ≡ some (lsn, 0)
    → 1 ≤ lsn
    → Settles c lsn e
unfolding settle contains
committed-Settles c e lsn s r p = (s, λ n. ground arith)

pub aborted-Settles :
    (c : Codec) (e : Entry) (lsn : ℕ)
    → is_pending e.status ≡ false
    → c.unmarshal_refs e.payload ≡ some (0, lsn)
    → 1 ≤ lsn
    → Settles c lsn e
unfolding settle contains
aborted-Settles c e lsn s r p = (s, λ n. ground arith)

unsettled-one :
    (done : List ℕ) (e : Entry)
    → unsettled done (e ∷ [])
      ≡ (if is_pending e.status && not (contains e.lsn done) then e ∷ [] else [])
unfolding unsettled
unsettled-one done e = refl

pub pending-settles_none :
    (c : Codec) (e : Entry) (n : ℕ)
    → is_pending e.status ≡ true
    → contains n (settle c e []) ≡ false
unfolding settle contains
pending-settles_none c e n s = rw s

-- A new pending entry joins at the end, if nothing has settled its number before.
pub pending_of-pending :
    (c : Codec) (es : List Entry) (e : Entry)
    → is_pending e.status ≡ true
    → contains e.lsn (settled c es) ≡ false
    → pending_of c (es ++ e ∷ []) ≡ pending_of c es ++ e ∷ []
unfolding pending_of
pending_of-pending c es e s fresh =
    unsettled-same (settled c es) (settled c (es ++ e ∷ [])) (es ++ e ∷ [])
      (λ n. ground (arith, contains-settled c es e n, pending-settles_none c e n s))
    ∙ unsettled-append (settled c es) es (e ∷ [])
    ∙ ap (◌++◌ (unsettled (settled c es) es)) (unsettled-one (settled c es) e ∙ rw (s, fresh))

-- An entry that settles `lsn` takes the entries of that number out.
pub pending_of-Settles :
    (c : Codec) (es : List Entry) (e : Entry) (lsn : ℕ)
    → Settles c lsn e
    → pending_of c (es ++ e ∷ []) ≡ remove lsn (pending_of c es)
unfolding pending_of
pending_of-Settles c es e lsn s =
    let done = settled c (es ++ e ∷ []) in
    unsettled-append done es (e ∷ [])
    ∙ ap (◌++◌ (unsettled done es)) (unsettled-one done e ∙ rw s.0)
    ∙ append-nil (unsettled done es)
    ∙ unsettled-more lsn (settled c es) done es
        (λ n. ground (arith, contains-settled c es e n, s.1 n))
