-- ===== src/Tunnel.antt =====
-- internal/tunnel/pin.go: the PIN that guards the dashboard behind the tunnel, its sessions and its
-- limit of tries. bcrypt's comparison is a parameter, hashes and random tokens come with the events; the
-- handler of a submission is cut where it leaves a lock, and others run between the pieces.
pub mod Limit
pub mod Entry
mod Tests
use open_fabric.Common.{
  ℕ, zero, suc, ◌+◌, ◌-◌, Bool, true, false, not, ◌&&◌, ◌||◌, if◌then◌else◌, leb, ltb, Option, none,
  some, List, [], ◌∷◌, ◌++◌, String, Dict, lookup, insert, delete, string_eq, ◌==◌,
}

-- `matches` is bcrypt's comparison of a hash with a PIN; times are seconds.
pub record PinManager : Type 0 where
  pub pin_hash : String
  pub pin_enabled : Bool
  pub session_keys : Dict String ℕ
  pub submit_lim : Dict String ℕ

abbrev pub pin_cookie_max_age : ℕ
pin_cookie_max_age = 86400

abbrev pub new_pin_manager : PinManager
new_pin_manager = record { pin_hash = ""; pin_enabled = false; session_keys = []; submit_lim = [] }

-- `GeneratePIN`, with the hash of the new PIN.
unfoldable pub generate_pin : String → PinManager → PinManager
generate_pin hash m = record m { pin_hash = hash; pin_enabled = true }

unfoldable pub revoke_pin : PinManager → PinManager
revoke_pin m = record m { pin_hash = ""; pin_enabled = false; session_keys = [] }

-- The two halves of `ValidatePIN`: the hash that is read and the comparison, then the new session.
unfoldable pub compare_pin : (String → String → Bool) → PinManager → String → Bool
compare_pin matches m pin = not (m.pin_hash == "") && matches m.pin_hash pin

unfoldable pub open_session : String → ℕ → PinManager → PinManager
open_session token now m = record m {
  session_keys = insert token (now + pin_cookie_max_age) m.session_keys;
}

abbrev pub attempts : String → PinManager → ℕ
attempts ip m = elim (lookup ip m.submit_lim) [ none ↦ 0 | some n ↦ n ]

unfoldable pub count_failure : String → PinManager → PinManager
count_failure ip m = record m { submit_lim = insert ip (suc (attempts ip m)) m.submit_lim }

-- One minute after a failure.
unfoldable pub forgive : String → PinManager → PinManager
forgive ip m =
    if ltb 0 (attempts ip m)
    then record m { submit_lim = insert ip (attempts ip m - 1) m.submit_lim }
    else m

unfoldable pub reset_limit : String → PinManager → PinManager
reset_limit ip m = record m { submit_lim = delete ip m.submit_lim }

-- `validSession`, which also drops a session that has expired.
unfoldable pub valid_session : String → ℕ → PinManager → Bool × PinManager
valid_session token now m = elim (lookup token m.session_keys) [
  | none ↦ (false, m)
  | some expiry ↦
      if ltb expiry now
      then (false, record m { session_keys = delete token m.session_keys })
      else (true, m)
]

-- `Middleware` for a request that is not a submission: whether it is served.
unfoldable pub serve : Option String → ℕ → PinManager → Bool × PinManager
serve cookie now m =
    if not m.pin_enabled
    then (true, m)
    else (elim cookie [ none ↦ (false, m) | some token ↦ valid_session token now m ])

-- A submission that has passed the limit: before the comparison, with its outcome, with its session.
pub data Stage : Type 0 where
  admitted : Stage
  compared : Bool → Stage
  opened : Stage

pub record Submission : Type 0 where
  pub ip : String
  pub pin : String
  pub stage : Stage

pub record System : Type 0 where
  pub manager : PinManager
  pub pending : List Submission

-- A new PIN, its end, a submission, the next piece of the first pending one, another pending one's
-- turn, a forgiven failure, a request.
pub data Event : Type 0 where
  generates : String → Event
  revokes : Event
  submits : String → String → Event
  proceeds : Option String → ℕ → Event
  rotates : Event
  forgives : String → Event
  visits : Option String → ℕ → Event

-- The limit at the start of `handlePINSubmit`.
abbrev pub is_blocked : String → PinManager → Bool
is_blocked ip m = leb 5 (attempts ip m)

-- The middleware passes a submission to its handler while the PIN is enabled.
unfoldable pub submit : String → String → System → System
submit ip pin y =
    if not y.manager.pin_enabled || is_blocked ip y.manager
    then y
    else record y { pending = record { ip = ip; pin = pin; stage = admitted } ∷ y.pending }

-- After the comparison: no token where the random source fails, which counts like a wrong PIN.
unfoldable pub settle :
    Option String → ℕ → PinManager → Submission → Bool → List Submission → System
settle (some token) now m s true rest = record {
  manager = open_session token now m;
  pending = record s { stage = opened } ∷ rest;
}
settle none now m s true rest = record { manager = count_failure s.ip m; pending = rest }
settle token now m s false rest = record { manager = count_failure s.ip m; pending = rest }

unfoldable pub proceed_first :
    (String → String → Bool)
    → Option String
    → ℕ
    → PinManager
    → Submission
    → Stage
    → List Submission
    → System
proceed_first matches token now m s admitted rest = record {
  manager = m;
  pending = record s { stage = compared (compare_pin matches m s.pin) } ∷ rest;
}
proceed_first matches token now m s (compared ok) rest = settle token now m s ok rest
proceed_first matches token now m s opened rest = record {
  manager = reset_limit s.ip m;
  pending = rest;
}

unfoldable pub proceed :
    (String → String → Bool) → Option String → ℕ → PinManager → List Submission → System
proceed matches token now m [] = record { manager = m; pending = [] }
proceed matches token now m (s ∷ rest) = proceed_first matches token now m s s.stage rest

unfoldable pub rotate : List Submission → List Submission
rotate [] = []
rotate (s ∷ rest) = rest ++ s ∷ []

unfoldable pub step : (String → String → Bool) → System → Event → System
step matches y (generates hash) = record y { manager = generate_pin hash y.manager }
step matches y revokes = record y { manager = revoke_pin y.manager }
step matches y (submits ip pin) = submit ip pin y
step matches y (proceeds token now) = proceed matches token now y.manager y.pending
step matches y rotates = record y { pending = rotate y.pending }
step matches y (forgives ip) = record y { manager = forgive ip y.manager }
step matches y (visits cookie now) = record y { manager = (serve cookie now y.manager).1 }

unfoldable pub run : (String → String → Bool) → System → List Event → System
run matches y [] = y
run matches y (e ∷ es) = run matches (step matches y e) es

abbrev pub new_system : System
new_system = record { manager = new_pin_manager; pending = [] }
