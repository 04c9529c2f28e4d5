-- ===== src/Prelude/TextOrder.antt =====
-- The order of texts by code points, as `str`'s `<`.
use Prim.Native.Nat.{ℕ, compare as compare_ℕ, Ordering}
use Prim.Native.Char.{Char, code}
use Prim.Native.String.compare
use Prim.Native.String.{String, compare, then}
use mathlib.Core.Path.{◌≡◌, sym, ◌∙◌}
use mathlib.Core.Bool.{Bool, true, false}
use mathlib.Core.Logic.{◌⊎◌, inl, inr}
use native.Mathlib.Omega.{arith}
use text.Mathlib.Text.{is_lt}
use text.Mathlib.TextEquality.{path_by_compare}
use text.Mathlib.TextPositions.{compare_refl}

cons_lt :
    (c d : Char) (s t : String)
    → compare (String.◌∷◌ c s) (String.◌∷◌ d t) ≡ then (compare_ℕ (code c) (code d)) (compare s t)
cons_lt c d s t = compare.cons-cons c d s t

cons_nil : (c : Char) (s : String) → compare (String.◌∷◌ c s) String.[] ≡ Ordering.gt
cons_nil c s = compare.cons-nil c s

nil_cons : (c : Char) (s : String) → compare String.[] (String.◌∷◌ c s) ≡ Ordering.lt
nil_cons c s = compare.nil-cons c s

then_lt :
    (a b : ℕ) (o : Ordering)
    → then (compare_ℕ a b) o ≡ Ordering.lt
    → (compare_ℕ a b ≡ Ordering.lt) ⊎ ((a ≡ b) × (o ≡ Ordering.lt))
then_lt a b o h = ground arith

trans_codes :
    (a b c : ℕ) (o p r : Ordering)
    → (o ≡ Ordering.lt → p ≡ Ordering.lt → r ≡ Ordering.lt)
    → then (compare_ℕ a b) o ≡ Ordering.lt
    → then (compare_ℕ b c) p ≡ Ordering.lt
    → then (compare_ℕ a c) r ≡ Ordering.lt
trans_codes a b c o p r h x y = ground (arith, h)

compare_trans :
    (s t u : String)
    → compare s t ≡ Ordering.lt
    → compare t u ≡ Ordering.lt
    → compare s u ≡ Ordering.lt
compare_trans String.[] String.[] u h k = k
compare_trans String.[] (String.◌∷◌ d t) String.[] h k = cc (cons_nil d t, k)
compare_trans String.[] (String.◌∷◌ d t) (String.◌∷◌ e u) h k = nil_cons e u
compare_trans (String.◌∷◌ c s) String.[] u h k = cc (cons_nil c s, h)
compare_trans (String.◌∷◌ c s) (String.◌∷◌ d t) String.[] h k = cc (cons_nil d t, k)
compare_trans (String.◌∷◌ c s) (String.◌∷◌ d t) (String.◌∷◌ e u) h k =
    cons_lt c e s u
    ∙ trans_codes (code c) (code d) (code e) _ _ _ (compare_trans s t u) (sym (cons_lt c d s t) ∙ h)
        (sym (cons_lt d e t u) ∙ k)

-- Exactly one of the two orders, or none and then the texts are equal.
abbrev Opposed : Ordering → Ordering → Type 0
Opposed o p =
    ((o ≡ Ordering.lt) × (p ≡ Ordering.gt))
    ⊎ (((o ≡ Ordering.eq) × (p ≡ Ordering.eq)) ⊎ ((o ≡ Ordering.gt) × (p ≡ Ordering.lt)))

Opposed-codes :
    (a b : ℕ) (o p : Ordering)
    → Opposed o p
    → Opposed (then (compare_ℕ a b) o) (then (compare_ℕ b a) p)
Opposed-codes a b o p h = ground arith

compare-Opposed : (s t : String) → Opposed (compare s t) (compare t s)
compare-Opposed String.[] String.[] = inr (inl (compare_refl String.[], compare_refl String.[]))
compare-Opposed String.[] (String.◌∷◌ d t) = inl (nil_cons d t, cons_nil d t)
compare-Opposed (String.◌∷◌ c s) String.[] = inr (inr (cons_nil c s, nil_cons c s))
compare-Opposed (String.◌∷◌ c s) (String.◌∷◌ d t) =
    rw (cons_lt c d s t, cons_lt d c t s)
      (Opposed-codes (code c) (code d) _ _ (compare-Opposed s t))

-- `s < t`
unfoldable pub str_lt : String → String → Bool
str_lt s t = is_lt (compare s t)

pub str_lt_asymm : (s t : String) → str_lt s t ≡ true → str_lt t s ≡ false
unfolding str_lt
str_lt_asymm s t h = ground (arith, compare-Opposed s t)

pub str_lt_trans : (s t u : String) → str_lt s t ≡ true → str_lt t u ≡ true → str_lt s u ≡ true
unfolding str_lt
str_lt_trans s t u h k = ground (arith, compare_trans s t u)

pub str_lt_connected : (s t : String) → str_lt s t ≡ false → str_lt t s ≡ false → s ≡ t
unfolding str_lt
str_lt_connected s t h k = path_by_compare s t (ground (arith, compare-Opposed s t))
