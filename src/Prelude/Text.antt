-- ===== src/Prelude/Text.antt =====
-- `str::to_ascii_lowercase` and the comparison that ignores case, on native texts.
use Prim.Native.Nat.{ℕ, ◌+◌, ◌<◌, compare, Ordering}
use Prim.Native.Char.{Char, char, code, IsScalar}
use Prim.Native.String.{String}
use mathlib.Core.Path.{◌≡◌, refl, ap₂}
use mathlib.Core.Bool.{Bool, true, false, ◌&&◌}
use mathlib.Core.Logic.{◌⊎◌, inl, inr}
use native.Mathlib.Omega.{arith}
use text.Mathlib.Text.{◌==◌}
use text.Mathlib.TextEquality.{Char-path}
use echo_services.Prelude.Tests.{leb, if◌then◌else◌, Bool-cases}

compare-lt : (n : ℕ) → n < 55296 → compare n 55296 ≡ Ordering.lt
compare-lt n h = ground arith

-- A number below 0xD800 is a scalar value.
is_scalar_of_lt : (n : ℕ) → n < 55296 → IsScalar n
is_scalar_of_lt n h = rw (compare-lt n h) tt

is_upper : ℕ → Bool
is_upper n = leb b'A' n && leb n b'Z'

upper_lt : (n : ℕ) → is_upper n ≡ true → n + 32 < 55296
unfolding is_upper
upper_lt n h = ground arith

lower_by : (c : Char) → (is_upper (code c) ≡ true) ⊎ (is_upper (code c) ≡ false) → Char
lower_by c (inl h) = char (code c + 32) (is_scalar_of_lt (code c + 32) (upper_lt (code c) h))
lower_by c (inr h) = c

-- `char::to_ascii_lowercase`
pub to_lower : Char → Char
unfolding lower_by is_upper is_scalar_of_lt compare-lt upper_lt
to_lower c = lower_by c (Bool-cases (is_upper (code c)))

code-lower_by :
    (c : Char) (d : (is_upper (code c) ≡ true) ⊎ (is_upper (code c) ≡ false))
    → code (lower_by c d) ≡ (if is_upper (code c) then code c + 32 else code c)
unfolding lower_by
code-lower_by c (inl h) = rw h
code-lower_by c (inr h) = rw h

pub code-to_lower :
    (c : Char)
    → code (to_lower c) ≡ (if leb b'A' (code c) && leb (code c) b'Z' then code c + 32 else code c)
unfolding to_lower
code-to_lower c = code-lower_by c (Bool-cases (is_upper (code c)))

code_idem :
    (n m k : ℕ)
    → m ≡ (if leb b'A' n && leb n b'Z' then n + 32 else n)
    → k ≡ (if leb b'A' m && leb m b'Z' then m + 32 else m)
    → k ≡ m
code_idem n m k h l = ground arith

to_lower_idem : (c : Char) → to_lower (to_lower c) ≡ to_lower c
to_lower_idem c =
    Char-path _ _ (code_idem (code c) _ _ (code-to_lower c) (code-to_lower (to_lower c)))

-- `str::to_ascii_lowercase`, the casefolding that `key` does
unfoldable pub to_ascii_lowercase : String → String
unfolding to_lower
to_ascii_lowercase String.[] = String.[]
to_ascii_lowercase (String.◌∷◌ c s) = String.◌∷◌ (to_lower c) (to_ascii_lowercase s)

pub to_ascii_lowercase_idem :
    (s : String) → to_ascii_lowercase (to_ascii_lowercase s) ≡ to_ascii_lowercase s
unfolding to_ascii_lowercase
to_ascii_lowercase_idem String.[] = refl
to_ascii_lowercase_idem (String.◌∷◌ c s) =
    ap₂ String.◌∷◌ (to_lower_idem c) (to_ascii_lowercase_idem s)

-- `str::eq_ignore_ascii_case`
abbrev pub eq_ignore_ascii_case : String → String → Bool
eq_ignore_ascii_case s t = to_ascii_lowercase s == to_ascii_lowercase t

-- `format!("{s}{t}")`
unfoldable pub append_str : String → String → String
append_str String.[] t = t
append_str (String.◌∷◌ c s) t = String.◌∷◌ c (append_str s t)

lowered : to_ascii_lowercase "#Chan[A]" ≡ "#chan[a]"
unfolding to_ascii_lowercase
lowered = refl
