-- ===== src/Examples/Passwords.antt =====
-- The theorems on codes and passwords at concrete inputs.
use echo_services.Prelude.{ℕ, true, false, some, List, [], ◌∷◌, ◌≡◌, refl, arith, inr}
use echo_services.HashMap
use echo_services.Auth
use echo_services.Auth.{reset, confirm}
use echo_services.Auth.Codes
use echo_services.Auth.Throttle
use echo_services.Db.{open_db}

abbrev guess : ℕ → Codes.Guess
guess t = record { at = t; kind = reset; code = "000000" }

abbrev four : List Codes.Guess
four = guess 1 ∷ guess 2 ∷ guess 3 ∷ guess 4 ∷ []

abbrev five : List Codes.Guess
five = guess 0 ∷ four

abbrev right : Codes.Guess
right = record { at = 6; kind = reset; code = "123456" }

five_wrong : Codes.AreWrong reset "123456" five
unfolding Auth.same_kind
five_wrong = (refl, (refl, (refl, (refl, (refl, tt)))))

four_wrong : Codes.AreWrong reset "123456" four
unfolding Auth.same_kind
four_wrong = (refl, (refl, (refl, (refl, tt))))

issue_code-guesses_example :
    let left =
      Codes.after_guesses
        (Codes.after_guesses (Auth.issue_code 0 [] "alice" reset "123456") "alice" five)
        "alice"
        (right ∷ []) in
    Auth.take_code right.at left "alice" right.kind right.code ≡ (left, false)
issue_code-guesses_example =
    Codes.issue_code-guesses 0 [] "alice" reset "123456" five (right ∷ []) right five_wrong
      (omega arith)

issue_code-take_code_example :
    let left = Codes.after_guesses (Auth.issue_code 0 [] "alice" reset "123456") "alice" four in
    let taken = Auth.take_code 5 left "alice" reset "123456" in
    (taken.1 ≡ true)
    × (Auth.take_code right.at taken.0 "alice" right.kind right.code ≡ (taken.0, false))
issue_code-take_code_example =
    Codes.issue_code-take_code 0 [] "alice" reset "123456" four 5 right four_wrong
      (omega arith, (omega arith, (omega arith, (omega arith, tt)))) (omega arith) (omega arith)

-- The account has a failure on record when the right password is given.
abbrev cleared : HashMap.HashMap Auth.AuthThrottle
cleared =
    let db = open_db "node" [] in
    Auth.note_auth 1 db (Throttle.after_failures db [] "alice" (0 ∷ [])) "alice" true

note_auth-auth_lockout_example :
    let db = open_db "node" [] in
    Auth.auth_lockout 5 db
      (Auth.note_auth 4 db
        (Throttle.after_failures db cleared "alice" (1 ∷ 2 ∷ 3 ∷ []))
        "alice"
        false)
      "alice"
    ≡ some 1
unfolding HashMap.get
note_auth-auth_lockout_example =
    Throttle.note_auth-auth_lockout (open_db "node" []) cleared "alice" (1 ∷ 2 ∷ 3 ∷ []) 4 5
      (inr (Throttle.after_failures (open_db "node" []) [] "alice" (0 ∷ []), 1, refl)) (omega arith)
