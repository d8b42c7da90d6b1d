-- ===== src/Gpu/Budget/Live.antt =====
-- The bytes that live reservations hold, as a plain sum, and how each call changes it.
use open_fabric.Common.{
  ℕ, ◌+◌, ◌≤◌, ◌<◌, ◌≡◌, ap, ◌∙◌, String, if◌then◌else◌, none, some, [], ◌∷◌, Dict, lookup, insert,
  string_eq, All, arith, Bool-cases, inl, inr, ◌==◌,
}
use open_fabric.Common.Int.{pos, wrap64_add, pos_part}
use open_fabric.Gpu.Budget.{Reservation, Manager, is_live, add_live, pending_bytes, expire_all}

-- The bytes that a reservation holds back from others.
abbrev pub weight : Reservation → ℕ
weight r = if is_live r.status then pos_part r.bytes_reserved else 0

unfoldable pub live_sum : Dict String Reservation → ℕ
live_sum [] = 0
live_sum ((_, r) ∷ rs) = weight r + live_sum rs

-- No reservation is for a negative number of bytes.
abbrev pub Sized : Dict String Reservation → Type 0
Sized = All λ (e : String × Reservation). e.1.bytes_reserved ≡ pos (pos_part e.1.bytes_reserved)

add_live-sum :
    (total : ℕ) (rs : Dict String Reservation)
    → Sized rs
    → total + live_sum rs < 9223372036854775808
    → add_live (pos total) rs ≡ pos (total + live_sum rs)
unfolding add_live live_sum
add_live-sum total [] s h = ap pos (omega arith)
add_live-sum total ((id, r) ∷ rs) s h = elim (Bool-cases (is_live r.status)) [
  | inl live ↦
      rw (live, s.0, wrap64_add total (pos_part r.bytes_reserved) (ground arith))
        (add_live-sum (total + pos_part r.bytes_reserved) rs s.1 (ground arith)
          ∙ ap pos (omega arith))
  | inr dead ↦ rw dead (add_live-sum total rs s.1 (ground arith) ∙ ap pos (omega arith))
]

-- The source's sum is the plain one, where that is an int64.
pub pending_bytes-live_sum :
    (m : Manager)
    → Sized m.reservations
    → live_sum m.reservations < 9223372036854775808
    → pending_bytes m ≡ pos (live_sum m.reservations)
unfolding pending_bytes
pending_bytes-live_sum m s h = add_live-sum 0 m.reservations s (omega arith) ∙ ap pos (omega arith)

pub live_sum-insert_new :
    (id : String) (r : Reservation) (rs : Dict String Reservation)
    → lookup id rs ≡ none
    → live_sum (insert id r rs) ≡ live_sum rs + weight r
unfolding live_sum lookup insert
live_sum-insert_new id r [] h = omega arith
live_sum-insert_new id r ((j, x) ∷ rs) h = ground (arith, live_sum-insert_new id r rs)

pub live_sum-insert_old :
    (id : String) (old r : Reservation) (rs : Dict String Reservation)
    → lookup id rs ≡ some old
    → live_sum (insert id r rs) + weight old ≡ live_sum rs + weight r
unfolding live_sum lookup insert
live_sum-insert_old id old r [] h = absurd (ground arith)
live_sum-insert_old id old r ((j, x) ∷ rs) h = ground (arith, live_sum-insert_old id old r rs)

pub live_sum-expire_all :
    (now : ℕ) (rs : Dict String Reservation) → live_sum (expire_all now rs) ≤ live_sum rs
unfolding live_sum expire_all
live_sum-expire_all now [] = omega arith
live_sum-expire_all now ((id, r) ∷ rs) = ground (arith, live_sum-expire_all now rs)

pub insert-Sized :
    (id : String) (r : Reservation) (rs : Dict String Reservation)
    → Sized rs
    → r.bytes_reserved ≡ pos (pos_part r.bytes_reserved)
    → Sized (insert id r rs)
unfolding insert
insert-Sized id r [] s h = (h, tt)
insert-Sized id r ((j, x) ∷ rs) s h = elim (Bool-cases (j == id)) [
  | inl hit ↦ rw (hit) (h, s.1)
  | inr miss ↦ rw (miss) (s.0, insert-Sized id r rs s.1 h)
]

pub lookup-Sized :
    (id : String) (r : Reservation) (rs : Dict String Reservation)
    → Sized rs
    → lookup id rs ≡ some r
    → r.bytes_reserved ≡ pos (pos_part r.bytes_reserved)
unfolding lookup
lookup-Sized id r [] s h = absurd (ground arith)
lookup-Sized id r ((j, x) ∷ rs) s h = ground (arith, lookup-Sized id r rs s.1)

pub expire_all-Sized :
    (now : ℕ) (rs : Dict String Reservation) → Sized rs → Sized (expire_all now rs)
unfolding expire_all
expire_all-Sized now [] s = tt
expire_all-Sized now ((id, r) ∷ rs) s = ground (arith, expire_all-Sized now rs s.1)
