-- ===== src/Prelude/Lists.antt =====
-- Vectors as lists, under the words that the source uses.
use Prim.Native.Nat.{ℕ, zero, suc, ◌+◌, ◌≤◌, ◌<◌}
use mathlib.Core.Path.{◌≡◌, refl}
use mathlib.Core.Bool.{Bool, true, false, not, ◌||◌}
use mathlib.Core.List.{List, [], ◌∷◌, ◌++◌}
use mathlib.Core.Option.{Option, none, some}
use native.Mathlib.Omega.{arith}
use echo_services.Prelude.Tests.{if◌then◌else◌}

module _ {ℓ} {A : Type ℓ} where
  abbrev pub length : List A → ℕ
  length [] = 0
  length (x ∷ xs) = suc (length xs)

  abbrev pub push : List A → A → List A
  push xs x = xs ++ x ∷ []

  unfoldable pub retain : (A → Bool) → List A → List A
  retain p [] = []
  retain p (x ∷ xs) = if p x then x ∷ retain p xs else retain p xs

  abbrev pub is_empty : List A → Bool
  is_empty [] = true
  is_empty (x ∷ xs) = false

  abbrev pub drop : ℕ → List A → List A
  drop zero xs = xs
  drop (suc n) [] = []
  drop (suc n) (x ∷ xs) = drop n xs

  unfoldable pub any : (A → Bool) → List A → Bool
  any p [] = false
  any p (x ∷ xs) = p x || any p xs

  unfoldable pub find : (A → Bool) → List A → Option A
  find p [] = none
  find p (x ∷ xs) = if p x then some x else find p xs

  -- `iter_mut().find(p)` and a write through the reference: the first match alone is changed.
  unfoldable pub modify_first : (A → Bool) → (A → A) → List A → List A
  modify_first p f [] = []
  modify_first p f (x ∷ xs) = if p x then f x ∷ xs else x ∷ modify_first p f xs

  abbrev pub get_elem? : List A → ℕ → Option A
  get_elem? [] i = none
  get_elem? (x ∷ xs) zero = some x
  get_elem? (x ∷ xs) (suc i) = get_elem? xs i

  -- A write out of bounds changes nothing.
  unfoldable pub modify_at : ℕ → (A → A) → List A → List A
  modify_at i f [] = []
  modify_at zero f (x ∷ xs) = f x ∷ xs
  modify_at (suc i) f (x ∷ xs) = x ∷ modify_at i f xs

  unfoldable pub remove_at : ℕ → List A → List A
  remove_at i [] = []
  remove_at zero (x ∷ xs) = xs
  remove_at (suc i) (x ∷ xs) = x ∷ remove_at i xs

  pub length-append : (xs ys : List A) → length (xs ++ ys) ≡ length xs + length ys
  length-append [] ys = omega arith
  length-append (x ∷ xs) ys = omega (arith, length-append xs ys)

  pub length-retain-le : (p : A → Bool) (xs : List A) → length (retain p xs) ≤ length xs
  unfolding retain
  length-retain-le p [] = omega arith
  length-retain-le p (x ∷ xs) = ground (arith, length-retain-le p xs)

  pub any-retain-not : (p : A → Bool) (xs : List A) → any p (retain (λ x. not (p x)) xs) ≡ false
  unfolding any retain
  any-retain-not p [] = refl
  any-retain-not p (x ∷ xs) = ground (arith, any-retain-not p xs)

  -- Where nothing matches, there is nothing to take out.
  pub retain-not-of_none :
      (p : A → Bool) (xs : List A) → any p xs ≡ false → retain (λ x. not (p x)) xs ≡ xs
  unfolding any retain
  retain-not-of_none p [] h = refl
  retain-not-of_none p (x ∷ xs) h = ground (arith, retain-not-of_none p xs)

  -- Replacing a match makes the list no longer.
  pub length-retain-lt :
      (p : A → Bool) (xs : List A)
      → any p xs ≡ true
      → length (retain (λ x. not (p x)) xs) < length xs
  unfolding any retain
  length-retain-lt p [] h = ground arith
  length-retain-lt p (x ∷ xs) h =
      ground (arith, length-retain-lt p xs, length-retain-le (λ x. not (p x)) xs)
