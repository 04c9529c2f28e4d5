-- ===== src/Glob.antt =====
-- `glob_match` of src/engine/db/mod.rs, which api/src/lib.rs has once more: the matcher with one
-- point to go back to that compares host masks, nicks and channel names with `*` and `?`.
pub mod Loop
pub mod Meaning
use echo_services.Prelude.{
  ℕ, zero, suc, ◌+◌, ◌*◌, Char, code, String, Bool, true, false, ◌||◌, Option, none, some, List, [],
  ◌∷◌, ◌++◌, length, drop, is_empty, unwrap_or, if◌then◌else◌, eqb,
}

abbrev pub is_star : Char → Bool
is_star a = eqb (code a) b'*'

-- `p[pi] == '?' || p[pi] == t[ti]`
unfoldable pub accepts : Char → Char → Bool
accepts a c = eqb (code a) b'?' || eqb (code a) (code c)

-- `star` and `mark`: the rest of the pattern after the last star, and the rest of the text at which
-- that pattern was last tried.
abbrev pub Back : Type 0
Back = Option (List Char × List Char)

-- What is left of the pattern after the stars at its front
unfoldable pub skip_stars : List Char → List Char
skip_stars [] = []
skip_stars (a ∷ p) = if is_star a then skip_stars p else a ∷ p

-- Back to the last star, which takes one character more
unfoldable pub retry : Back → (List Char → List Char → Back → Option Bool) → Option Bool
retry none next = some false
retry (some (p, mark)) next = next p (drop 1 mark) (some (p, drop 1 mark))

-- The two loops, on what is left of the pattern and of the text. `none`: the fuel ran out.
unfoldable pub loop : ℕ → List Char → List Char → Back → Option Bool
unfolding retry accepts skip_stars
loop zero p t back = none
loop (suc f) p [] back = some (is_empty (skip_stars p))
loop (suc f) [] (c ∷ t) back = retry back (loop f)
loop (suc f) (a ∷ p) (c ∷ t) back =
    let onward = loop f p t back in
    let starred = loop f p (c ∷ t) (some (p, c ∷ t)) in
    let again = retry back (loop f) in
    if accepts a c then onward else if is_star a then starred else again

unfoldable pub glob : List Char → List Char → Option Bool
unfolding loop
glob p t = loop ((length t + 1) * (length p + 1)) p t none

-- `s.chars().flat_map(char::to_lowercase)`, where `lower` is the table of the standard library
unfoldable pub lowered : (Char → List Char) → String → List Char
lowered lower String.[] = []
lowered lower (String.◌∷◌ c s) = lower c ++ lowered lower s

unfoldable pub glob_match : (Char → List Char) → String → String → Bool
unfolding glob lowered
glob_match lower pattern text = unwrap_or (glob (lowered lower pattern) (lowered lower text)) false
