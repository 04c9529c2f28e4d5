-- ===== src/HashMap.antt =====
-- Rust's `HashMap<String, V>` (also `BTreeMap`), as a list of entries in some iteration order.
pub mod Laws
pub mod Everywhere
pub mod Unique
use echo_services.Prelude.{
  ℕ, String, Bool, true, false, Option, none, some, List, [], ◌∷◌, ◌==◌, if◌then◌else◌, is_some,
}

abbrev pub HashMap {ℓ} : Type ℓ → Type ℓ
HashMap V = List (String × V)

module _ {ℓ} {V : Type ℓ} where
  unfoldable pub get : HashMap V → String → Option V
  get [] k = none
  get ((j, v) ∷ m) k = if j == k then some v else get m k

  abbrev pub contains_key : HashMap V → String → Bool
  contains_key m k = is_some (get m k)

  -- A key that is there keeps its place.
  unfoldable pub insert : HashMap V → String → V → HashMap V
  insert [] k v = (k, v) ∷ []
  insert ((j, w) ∷ m) k v = if j == k then (k, v) ∷ m else (j, w) ∷ insert m k v

  unfoldable pub remove : HashMap V → String → HashMap V
  remove [] k = []
  remove ((j, v) ∷ m) k = if j == k then remove m k else (j, v) ∷ remove m k

  -- `if let Some(v) = m.get_mut(k) { … }`
  unfoldable pub modify : HashMap V → String → (V → V) → HashMap V
  modify [] k f = []
  modify ((j, v) ∷ m) k f = if j == k then (j, f v) ∷ m else (j, v) ∷ modify m k f

  -- `for v in m.values_mut() { … }`
  unfoldable pub modify_all : (V → V) → HashMap V → HashMap V
  modify_all f [] = []
  modify_all f ((j, v) ∷ m) = (j, f v) ∷ modify_all f m

  -- `m.retain(|_, v| p(v))`
  unfoldable pub retain_values : (V → Bool) → HashMap V → HashMap V
  retain_values p [] = []
  retain_values p ((j, v) ∷ m) = if p v then (j, v) ∷ retain_values p m else retain_values p m

  -- `m.values()`
  unfoldable pub values : HashMap V → List V
  values [] = []
  values ((j, v) ∷ m) = v ∷ values m

  -- `pairs.into_iter().collect()`: a later pair replaces an earlier one of its key.
  unfoldable pub collect : HashMap V → List (String × V) → HashMap V
  collect m [] = m
  collect m ((k, v) ∷ ps) = collect (insert m k v) ps
