-- ===== src/Gpu/Budget.antt =====
-- internal/gpu/budget: `Manager`, the reservations of one GPU. A method returns the new manager; the
-- backend's reading, the clock and the fresh identifier are arguments.
pub mod Live
pub mod Admission
pub mod Lifecycle
pub mod Lowest
use open_fabric.Common.{
  ℕ, suc, ◌+◌, ◌*◌, String, Bool, true, false, ◌&&◌, ◌||◌, not, ltb, if◌then◌else◌, Option, none,
  some, List, [], ◌∷◌, Dict, lookup, insert, string_eq,
}
use open_fabric.Common.Int.{ℤ, pos, ◌+ℤ◌, ◌-ℤ◌, wrap64, ltb_ℤ}

-- `StatusEvicted` is declared in the source and never given.
pub data ReservationStatus : Type 0 where
  pending active released expired evicted : ReservationStatus

-- Bytes and priorities are int64; a time that was not set is 0.
pub record Reservation : Type 0 where
  pub id : String
  pub device_index : ℕ
  pub bytes_reserved : ℤ
  pub task_id : String
  pub task_type : String
  pub priority : ℤ
  pub status : ReservationStatus
  pub created_at : ℕ
  pub activated_at : ℕ
  pub released_at : ℕ
  pub expires_at : ℕ

-- internal/gpu/backend/backend.go.
pub record VramStats : Type 0 where
  pub total : ℤ
  pub used : ℤ
  pub free : ℤ
  pub reserved : ℤ
  pub fragmentation : ℤ

-- `EffectiveFree`.
unfoldable pub effective_free : VramStats → ℤ
effective_free v =
    let effective = wrap64 (wrap64 (v.free -ℤ v.reserved) -ℤ v.fragmentation) in
    if ltb_ℤ effective (pos 0) then pos 0 else effective

abbrev pub safety_margin_bytes : ℕ
safety_margin_bytes = 268435456

-- 60 seconds, in nanoseconds.
abbrev pub reservation_timeout : ℕ
reservation_timeout = 60000000000

-- The map of reservations in the order in which `range` meets them.
pub record Manager : Type 0 where
  pub device_index : ℕ
  pub reservations : Dict String Reservation

abbrev pub new_manager : ℕ → Manager
new_manager device = record { device_index = device; reservations = [] }

abbrev pub is_live : ReservationStatus → Bool
is_live pending = true
is_live active = true
is_live _ = false

abbrev pub is_active : ReservationStatus → Bool
is_active active = true
is_active _ = false

abbrev pub is_pending : ReservationStatus → Bool
is_pending pending = true
is_pending _ = false

abbrev pub is_closed : ReservationStatus → Bool
is_closed released = true
is_closed expired = true
is_closed _ = false

pub add_live : ℤ → Dict String Reservation → ℤ
add_live total [] = total
add_live total ((_, r) ∷ rs) =
    add_live (if is_live r.status then wrap64 (total +ℤ r.bytes_reserved) else total) rs

-- `pendingBytesLocked`.
unfoldable pub pending_bytes : Manager → ℤ
unfolding add_live
pending_bytes m = add_live (pos 0) m.reservations

-- The error of a reservation: the backend's own, or `InsufficientVRAMError`.
pub data ReserveError : Type 0 where
  vram_stats_failed : ReserveError
  insufficient_vram :
      (device : ℕ) (requested available total_vram currently_used : ℤ) → ReserveError

pub data Reserved : Type 0 where
  granted : Reservation → Reserved
  denied : ReserveError → Reserved

-- What a caller of `Reserve` asks for.
pub record Request : Type 0 where
  pub task_id : String
  pub task_type : String
  pub bytes_needed : ℤ
  pub priority : ℤ

pub available_bytes : Manager → VramStats → ℤ
available_bytes m v =
    wrap64 (wrap64 (effective_free v -ℤ pending_bytes m) -ℤ pos safety_margin_bytes)

pub new_reservation : Manager → Request → String → ℕ → Reservation
new_reservation m q id now = record {
  id = id;
  device_index = m.device_index;
  bytes_reserved = q.bytes_needed;
  task_id = q.task_id;
  task_type = q.task_type;
  priority = q.priority;
  status = pending;
  created_at = now;
  activated_at = 0;
  released_at = 0;
  expires_at = now + reservation_timeout;
}

-- `Reserve`.
unfoldable pub reserve : Manager → Request → Option VramStats → String → ℕ → Manager × Reserved
unfolding available_bytes new_reservation
reserve m q none id now = (m, denied vram_stats_failed)
reserve m q (some v) id now =
    let available = available_bytes m v in
    if ltb_ℤ available q.bytes_needed
    then (
      m,
      denied (
          insufficient_vram m.device_index q.bytes_needed available v.total
            (wrap64 (v.used +ℤ pending_bytes m))),
    )
    else let r = new_reservation m q id now in
      (record m { reservations = insert id r m.reservations }, granted r)

pub data ActivateError : Type 0 where
  not_found not_pending : ActivateError

activate_found : Manager → String → ℕ → Option Reservation → Manager × Option ActivateError
activate_found m id now none = (m, some not_found)
activate_found m id now (some r) =
    if is_pending r.status
    then (
      record m {
        reservations = insert id (record r { status = active; activated_at = now }) m.reservations;
      },
      none,
    )
    else (m, some not_pending)

-- `Activate`.
unfoldable pub activate : Manager → String → ℕ → Manager × Option ActivateError
unfolding activate_found
activate m id now = activate_found m id now (lookup id m.reservations)

release_found : Manager → String → ℕ → Option Reservation → Manager
release_found m id now none = m
release_found m id now (some r) = if is_closed r.status then m else record m {
  reservations = insert id (record r { status = released; released_at = now }) m.reservations;
}

-- `Release`.
unfoldable pub release : Manager → String → ℕ → Manager
unfolding release_found
release m id now = release_found m id now (lookup id m.reservations)

pub is_lower : Reservation → Option Reservation → Bool
is_lower r none = true
is_lower r (some lowest) = ltb_ℤ r.priority lowest.priority

pub lowest_from : Option Reservation → Dict String Reservation → Option Reservation
unfolding is_lower
lowest_from lowest [] = lowest
lowest_from lowest ((_, r) ∷ rs) =
    lowest_from (if is_active r.status && is_lower r lowest then some r else lowest) rs

-- `LowestPriorityActive`.
unfoldable pub lowest_priority_active : Manager → Option Reservation
unfolding lowest_from
lowest_priority_active m = lowest_from none m.reservations

pub expire_one : ℕ → Reservation → Reservation
expire_one now r =
    if is_pending r.status && ltb r.expires_at now then record r { status = expired } else r

pub expire_all : ℕ → Dict String Reservation → Dict String Reservation
unfolding expire_one
expire_all now [] = []
expire_all now ((id, r) ∷ rs) = (id, expire_one now r) ∷ expire_all now rs

-- `expireOldReservations`, which `expireLoop` calls every 10 seconds.
unfoldable pub expire_old_reservations : Manager → ℕ → Manager
unfolding expire_all
expire_old_reservations m now = record m { reservations = expire_all now m.reservations }

-- `BudgetStats`.
pub record BudgetStats : Type 0 where
  pub active_reservations : ℕ
  pub pending_reservations : ℕ
  pub active_bytes : ℤ
  pub pending_bytes : ℤ

count_one : BudgetStats → Reservation → BudgetStats
count_one b r =
    if is_pending r.status
    then record b {
      pending_bytes = wrap64 (b.pending_bytes +ℤ r.bytes_reserved);
      pending_reservations = suc b.pending_reservations;
    }
    else if is_active r.status
    then record b {
      active_bytes = wrap64 (b.active_bytes +ℤ r.bytes_reserved);
      active_reservations = suc b.active_reservations;
    }
    else b

count_all : BudgetStats → Dict String Reservation → BudgetStats
unfolding count_one
count_all b [] = b
count_all b ((_, r) ∷ rs) = count_all (count_one b r) rs

-- `Stats`.
unfoldable pub stats : Manager → BudgetStats
unfolding count_all
stats m =
    count_all
      (record {
        active_reservations = 0;
        pending_reservations = 0;
        active_bytes = pos 0;
        pending_bytes = pos 0;
      })
      m.reservations

-- The calls that change a manager, in the order in which they take its lock.
pub data Call : Type 0 where
  reserves : Request → Option VramStats → String → ℕ → Call
  activates : String → ℕ → Call
  releases : String → ℕ → Call
  expires : ℕ → Call

unfoldable pub step : Manager → Call → Manager
unfolding reserve activate release expire_old_reservations
step m (reserves q v id now) = (reserve m q v id now).0
step m (activates id now) = (activate m id now).0
step m (releases id now) = release m id now
step m (expires now) = expire_old_reservations m now

unfoldable pub run : Manager → List Call → Manager
run m [] = m
run m (c ∷ cs) = run (step m c) cs
