-- ===== src/Tunnel/Tests.antt =====
-- Submissions at the limit of tries, and a session that is opened after the PIN was revoked.
use open_fabric.Common.{
  ◌+◌, subst, sym, ◌≤◌, ◌≡◌, refl, Bool, true, false, none, some, List, [], ◌∷◌, String, string_eq,
  ◌==◌, lookup, insert, delete, arith,
}
use open_fabric.Tunnel.{
  Event, generates, revokes, submits, proceeds, attempts, compare_pin, generate_pin, revoke_pin,
  submit, settle, proceed_first, proceed, count_failure, open_session, reset_limit, serve,
  valid_session, step, run, new_system,
}
use open_fabric.Tunnel.Limit.{under_way, failures-limited}
use open_fabric.Tunnel.Entry.{wrong_pins-refused}

-- A hash that is the PIN itself.
abbrev same_pin : String → String → Bool
same_pin hash pin = hash == pin

abbrev is_made : String → Bool
is_made hash = hash == "123456"

abbrev a_try : String → List Event → List Event
a_try pin es = submits "10.0.0.9" pin ∷ proceeds (some "t") 10 ∷ proceeds (some "t") 10 ∷ es

abbrev tries : List Event
tries =
    generates "123456"
    ∷ a_try "000000"
        (a_try "000001" (a_try "000002" (a_try "000003" (a_try "000004" (a_try "000005" [])))))

-- The sixth try is not looked at.
tries_five : attempts "10.0.0.9" (run same_pin new_system tries).manager ≡ 5
unfolding run step generate_pin submit proceed proceed_first settle compare_pin count_failure lookup
    insert
tries_five = refl

-- Two submissions at once pass the limit together, and six tries are looked at.
abbrev together : List Event
together =
    generates "123456"
    ∷ a_try "000000" (
        a_try "000001" (
          a_try "000002" (
            a_try "000003" (
              submits "10.0.0.9" "000004"
              ∷ submits "10.0.0.9" "000005"
              ∷ proceeds none 10
              ∷ proceeds none 10
              ∷ proceeds none 10
              ∷ proceeds none 10
              ∷ []))))

together_six : attempts "10.0.0.9" (run same_pin new_system together).manager ≡ 6
unfolding run step generate_pin submit proceed proceed_first settle compare_pin count_failure lookup
    insert
together_six = refl

-- A submission that was compared before the PIN is revoked opens its session afterwards, and it serves under the next PIN.
abbrev overtaken : List Event
overtaken =
    generates "123456"
    ∷ submits "10.0.0.9" "123456"
    ∷ proceeds (some "t") 10
    ∷ revokes
    ∷ proceeds (some "t") 11
    ∷ proceeds (some "t") 11
    ∷ generates "777777"
    ∷ []

overtaken_serves : (serve (some "t") 12 (run same_pin new_system overtaken).manager).0 ≡ true
unfolding run step generate_pin revoke_pin submit proceed proceed_first settle compare_pin
    open_session reset_limit lookup insert delete serve valid_session
overtaken_serves = refl

failures-limited_example :
    attempts "10.0.0.9" (run same_pin new_system tries).manager
      + under_way "10.0.0.9" (run same_pin new_system tries).pending
    ≤ 4 + 1
unfolding run step generate_pin submit proceed proceed_first settle compare_pin count_failure lookup
    insert
failures-limited_example = failures-limited same_pin 1 "10.0.0.9" tries (omega arith)

differs :
    (pin : String)
    → ("123456" == pin) ≡ false
    → (hash : String) → is_made hash ≡ true
    → same_pin hash pin ≡ false
differs pin n hash h =
    subst (λ x. (x == pin) ≡ false) (sym ((string_eq.same_iff hash "123456").0 h)) n

wrong_pins-refused_example :
    (serve
      (some "t")
      20
      (run same_pin new_system (generates "123456" ∷ a_try "000000" [])).manager).0
    ≡ false
unfolding run step generate_pin submit proceed proceed_first settle compare_pin count_failure lookup
    insert
wrong_pins-refused_example =
    wrong_pins-refused same_pin is_made (generates "123456" ∷ a_try "000000" []) (some "t") 20
      (refl, (differs "000000" refl, (tt, (tt, tt))))
