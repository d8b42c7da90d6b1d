-- ===== src/Tunnel/Entry.antt =====
-- Sessions and served requests, and the PINs that were submitted.
use open_fabric.Common.{
  lookup, subst, sym, ap, inl, inr, ℕ, ◌≡◌, refl, Bool, true, false, not, ◌||◌, if◌then◌else◌,
  Bool-cases, Option, none, some, List, [], ◌∷◌, All, All-append, String, string_eq, ◌==◌, arith,
}
use open_fabric.Tunnel.{
  PinManager, System, Submission, Stage, admitted, compared, opened, Event, generates, revokes,
  submits, proceeds, rotates, forgives, visits, compare_pin, generate_pin, revoke_pin, is_blocked,
  submit, settle, proceed_first, proceed, rotate, count_failure, forgive, serve, valid_session,
  step, run, new_system,
}

-- No submission of the events matches one of the hashes `known`, and the PINs that are made have such a hash.
abbrev pub IsWrong : (String → String → Bool) → (String → Bool) → Event → Type 0
IsWrong matches known (generates hash) = known hash ≡ true
IsWrong matches known revokes = Unit
IsWrong matches known (submits ip pin) =
    (hash : String) → known hash ≡ true → matches hash pin ≡ false
IsWrong matches known (proceeds token now) = Unit
IsWrong matches known rotates = Unit
IsWrong matches known (forgives ip) = Unit
IsWrong matches known (visits cookie now) = Unit

abbrev IsRefusedAt : Stage → Type 0
IsRefusedAt admitted = Unit
IsRefusedAt (compared ok) = ok ≡ false
IsRefusedAt opened = ⊥

abbrev IsRefused : (String → String → Bool) → (String → Bool) → Submission → Type 0
IsRefused matches known s =
    ((hash : String) → known hash ≡ true → matches hash s.pin ≡ false) × IsRefusedAt s.stage

-- The hash in force is known, and there is no session.
abbrev IsShut : (String → Bool) → PinManager → Type 0
IsShut known m = (not (m.pin_hash == "") ≡ true → known m.pin_hash ≡ true) × (m.session_keys ≡ [])

abbrev IsClosed : (String → String → Bool) → (String → Bool) → System → Type 0
IsClosed matches known y = IsShut known y.manager × All (IsRefused matches known) y.pending

compare_pin-wrong :
    (matches : String → String → Bool) (known : String → Bool) (m : PinManager) (pin : String)
    → IsShut known m
    → ((hash : String) → known hash ≡ true → matches hash pin ≡ false)
    → compare_pin matches m pin ≡ false
unfolding compare_pin
compare_pin-wrong matches known m pin shut wrong = elim (Bool-cases (not (m.pin_hash == ""))) [
  | inl e ↦ ground (arith, e, wrong m.pin_hash (shut.0 e))
  | inr e ↦ ground (arith, e)
]

settle-IsClosed :
    (matches : String → String → Bool) (known : String → Bool) (token : Option String) (now : ℕ)
    (m : PinManager) (s : Submission) (ok : Bool) (rest : List Submission)
    → IsShut known m
    → ok ≡ false
    → All (IsRefused matches known) rest
    → IsClosed matches known (settle token now m s ok rest)
unfolding settle count_failure
settle-IsClosed matches known (some token) now m s true rest shut bad h = ground (arith, bad)
settle-IsClosed matches known none now m s true rest shut bad h = (shut, h)
settle-IsClosed matches known (some token) now m s false rest shut bad h = (shut, h)
settle-IsClosed matches known none now m s false rest shut bad h = (shut, h)

first-IsClosed :
    (matches : String → String → Bool) (known : String → Bool) (token : Option String) (now : ℕ)
    (m : PinManager) (s : Submission) (p : Stage) (rest : List Submission)
    → IsShut known m
    → ((hash : String) → known hash ≡ true → matches hash s.pin ≡ false)
    → IsRefusedAt p
    → All (IsRefused matches known) rest
    → IsClosed matches known (proceed_first matches token now m s p rest)
unfolding proceed_first
first-IsClosed matches known token now m s admitted rest shut wrong at h =
    (shut, ((wrong, compare_pin-wrong matches known m s.pin shut wrong), h))
first-IsClosed matches known token now m s (compared ok) rest shut wrong at h =
    settle-IsClosed matches known token now m s ok rest shut at h
first-IsClosed matches known token now m s opened rest shut wrong at h = ground (arith, at)

proceed-IsClosed :
    (matches : String → String → Bool) (known : String → Bool) (token : Option String) (now : ℕ)
    (m : PinManager) (pending : List Submission)
    → IsShut known m
    → All (IsRefused matches known) pending
    → IsClosed matches known (proceed matches token now m pending)
unfolding proceed
proceed-IsClosed matches known token now m [] shut h = (shut, h)
proceed-IsClosed matches known token now m (s ∷ rest) shut h =
    first-IsClosed matches known token now m s s.stage rest shut h.0.0 h.0.1 h.1

rotate-IsRefused :
    (matches : String → String → Bool) (known : String → Bool) (xs : List Submission)
    → All (IsRefused matches known) xs
    → All (IsRefused matches known) (rotate xs)
unfolding rotate
rotate-IsRefused matches known [] h = h
rotate-IsRefused matches known (x ∷ xs) h = All-append _ xs (x ∷ []) h.1 (h.0, tt)

submit-IsClosed :
    (matches : String → String → Bool) (known : String → Bool) (ip pin : String) (y : System)
    → ((hash : String) → known hash ≡ true → matches hash pin ≡ false)
    → IsClosed matches known y
    → IsClosed matches known (submit ip pin y)
unfolding submit
submit-IsClosed matches known ip pin y wrong h =
    elim (not y.manager.pin_enabled || is_blocked ip y.manager)
      as (λ c. IsClosed matches known (
        if c
        then y
        else record y { pending = record { ip = ip; pin = pin; stage = admitted } ∷ y.pending })) [
          | true ↦ h
          | false ↦ (h.0, ((wrong, tt), h.1))
        ]

-- A request finds no session, so nothing of the manager changes.
serve-IsShut :
    (cookie : Option String) (now : ℕ) (m : PinManager)
    → m.session_keys ≡ []
    → serve cookie now m ≡ (not m.pin_enabled, m)
unfolding serve valid_session lookup
serve-IsShut cookie now m e = ground (arith, e)

forgive-IsShut :
    (known : String → Bool) (ip : String) (m : PinManager)
    → IsShut known m
    → IsShut known (forgive ip m)
unfolding forgive
forgive-IsShut known ip m h = ground (arith, h)

step-IsClosed :
    (matches : String → String → Bool) (known : String → Bool) (y : System) (e : Event)
    → IsWrong matches known e
    → IsClosed matches known y
    → IsClosed matches known (step matches y e)
unfolding step generate_pin revoke_pin
step-IsClosed matches known y (generates hash) w h = (((λ _. w), h.0.1), h.1)
step-IsClosed matches known y revokes w h = (((λ e. ground (arith, e)), refl), h.1)
step-IsClosed matches known y (submits ip pin) w h = submit-IsClosed matches known ip pin y w h
step-IsClosed matches known y (proceeds token now) w h =
    proceed-IsClosed matches known token now y.manager y.pending h.0 h.1
step-IsClosed matches known y rotates w h = (h.0, rotate-IsRefused matches known y.pending h.1)
step-IsClosed matches known y (forgives ip) w h = (forgive-IsShut known ip y.manager h.0, h.1)
step-IsClosed matches known y (visits cookie now) w h =
    (subst (λ r. IsShut known r.1) (sym (serve-IsShut cookie now y.manager h.0.1)) h.0, h.1)

run-IsClosed :
    (matches : String → String → Bool) (known : String → Bool) (es : List Event) (y : System)
    → All (IsWrong matches known) es
    → IsClosed matches known y
    → IsClosed matches known (run matches y es)
unfolding run
run-IsClosed matches known [] y w h = h
run-IsClosed matches known (e ∷ es) y w h =
    run-IsClosed matches known es (step matches y e) w.1 (step-IsClosed matches known y e w.0 h)

-- If no submitted PIN matches the hash of any PIN that was made, a request is served at the end only while the PIN is off, whatever its cookie and the order of the events.
pub wrong_pins-refused :
    (matches : String → String → Bool) (known : String → Bool) (es : List Event)
    (cookie : Option String) (now : ℕ)
    → All (IsWrong matches known) es
    → (serve cookie now (run matches new_system es).manager).0
      ≡ not (run matches new_system es).manager.pin_enabled
wrong_pins-refused matches known es cookie now w =
    ap (λ r. r.0)
      (serve-IsShut cookie now (run matches new_system es).manager
        (run-IsClosed matches known es new_system w (((λ e. ground (arith, e)), refl), tt)).0.1)
