-- ===== src/Examples/Masks.antt =====
-- The theorems on masks at concrete inputs.
use echo_services.Prelude.{
  ℕ, Char, Bool, true, false, ◌||◌, ◌&&◌, ◌==◌, none, some, List, [], ◌∷◌, ◌≡◌, refl, is_some, any,
  ok, ◌⊎◌, retain, to_ascii_lowercase,
}
use echo_services.Data.{SessionException}
use echo_services.Event.{scope}
use echo_services.Fold.{replay}
use echo_services.Log.{append, open_log, events_from}
use echo_services.Db.{World, Db, open_db, commit}
use echo_services.Db.Bans
use echo_services.Db.Masks
use echo_services.Db.Masks.Forbidden
use echo_services.Db.Masks.Allowance
use echo_services.Glob
use echo_services.Glob.{glob, glob_match, lowered}
use echo_services.Glob.Meaning
use echo_services.Glob.Meaning.{matches}

-- A table for `char::to_lowercase` on text that is in lower case
abbrev same : Char → List Char
same c = c ∷ []

abbrev mask : List Char
mask = "b" ∷ "*" ∷ "b" ∷ "?" ∷ []

abbrev name : List Char
name = "b" ∷ "o" ∷ "b" ∷ "b" ∷ "y" ∷ []

finds : glob mask name ≡ some true
unfolding glob Glob.loop Glob.retry Glob.accepts Glob.skip_stars
finds = refl

glob_sound_example : (b : Bool) × (glob mask name ≡ some b) × (b ≡ true → matches mask name ≡ true)
glob_sound_example = Meaning.glob_sound mask name

plain : Meaning.NoStar (lowered same "bobby")
unfolding lowered
plain = (refl, (refl, (refl, (refl, (refl, tt)))))

glob_match_exact_example :
    glob_match same "b*b?" "bobby" ≡ matches (lowered same "b*b?") (lowered same "bobby")
glob_match_exact_example = Meaning.glob_match_exact same "b*b?" "bobby" plain

glob_star_misses_example :
    (glob ("*" ∷ []) ("*" ∷ "a" ∷ []) ≡ some false) × (matches ("*" ∷ []) ("*" ∷ "a" ∷ []) ≡ true)
glob_star_misses_example = Meaning.glob_star_misses "*" "*" "a" [] refl refl

abbrev world : World
world = record { now = 100; disk = λ _ _. true; compiles = λ _. true }

added : (Bans.forbid_add world (open_db "node" []) Bans.nick "b*b?" "oper" "reserved").1 ≡ ok true
unfolding Bans.forbid_add commit open_db append open_log scope any replay events_from
added = refl

forbid_add-is_forbidden_example :
    is_some (
      Masks.is_forbidden same
        (Bans.forbid_add world (open_db "node" []) Bans.nick "b*b?" "oper" "reserved").0
        Bans.nick
        "bobby")
    ≡ (any
          (Forbidden.bans same Bans.nick "bobby")
          (Forbidden.others same world (open_db "node" []) Bans.nick "b*b?")
        || (Bans.forbid_wire Bans.nick == Bans.forbid_wire Bans.nick
            && matches (lowered same "b*b?") (lowered same "bobby")))
forbid_add-is_forbidden_example =
    Forbidden.forbid_add-is_forbidden same world (open_db "node" []) Bans.nick "b*b?" "oper"
      "reserved" Bans.nick "bobby" added plain

-- Three exceptions, of which the last two match; one of these has no limit.
abbrev exceptions : List SessionException
exceptions =
    record { mask = "192.*"; limit = 9; reason = "lab" }
    ∷ record { mask = "10.*"; limit = 0; reason = "gateway" }
    ∷ record { mask = "10.0.0.?"; limit = 5; reason = "office" }
    ∷ []

abbrev store : Db
store =
    let db = open_db "node" [] in
    record db {
      state = record db.state { net = record db.state.net { sess_exceptions = exceptions } };
    }

plain_address : Meaning.NoStar (lowered same (to_ascii_lowercase "10.0.0.1"))
unfolding lowered to_ascii_lowercase
plain_address = (refl, (refl, (refl, (refl, (refl, (refl, (refl, (refl, tt))))))))

unlimited : Masks.session_exception_for same store "10.0.0.1" ≡ some 0
unfolding Masks.session_exception_for retain glob_match to_ascii_lowercase
unlimited = refl

session_exception_for-most_example :
    ((Masks.session_exception_for same store "10.0.0.1" ≡ none)
      × Allowance.NoneMatching same "10.0.0.1" exceptions)
    ⊎ ((r : ℕ) × (Masks.session_exception_for same store "10.0.0.1" ≡ some r)
        × Allowance.SomeLimit same "10.0.0.1" r exceptions
        × Allowance.AllAllowed same "10.0.0.1" r exceptions)
session_exception_for-most_example =
    Allowance.session_exception_for-most same "10.0.0.1" plain_address store
