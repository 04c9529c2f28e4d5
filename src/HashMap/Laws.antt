-- ===== src/HashMap/Laws.antt =====
-- The laws of the map operations, each as the reading of a key after the operation.
use echo_services.Prelude.{
  String, ◌≡◌, refl, Bool, true, none, some, [], ◌∷◌, arith, ◌==◌, eq_iff, if◌then◌else◌,
  option_map,
}
use echo_services.HashMap.{HashMap, get, insert, remove, modify, modify_all, retain_values}

module _ {ℓ} {V : Type ℓ} where
  pub get-insert :
      (m : HashMap V) (k : String) (v : V) (j : String)
      → get (insert m k v) j ≡ (if k == j then some v else get m j)
  unfolding get insert
  get-insert [] k v j = refl
  get-insert ((i, w) ∷ m) k v j =
      ground (arith, eq_iff k j, eq_iff i k, eq_iff i j, get-insert m k v j)

  pub get-remove :
      (m : HashMap V) (k j : String) → get (remove m k) j ≡ (if k == j then none else get m j)
  unfolding get remove
  get-remove [] k j = ground arith
  get-remove ((i, w) ∷ m) k j = ground (arith, eq_iff k j, eq_iff i k, eq_iff i j, get-remove m k j)

  pub get-modify :
      (m : HashMap V) (k : String) (f : V → V) (j : String)
      → get (modify m k f) j ≡ (if k == j then option_map f (get m j) else get m j)
  unfolding get modify
  get-modify [] k f j = ground arith
  get-modify ((i, w) ∷ m) k f j =
      ground (arith, eq_iff k j, eq_iff i k, eq_iff i j, get-modify m k f j)

  pub get-modify_all :
      (f : V → V) (m : HashMap V) (j : String) → get (modify_all f m) j ≡ option_map f (get m j)
  unfolding get modify_all
  get-modify_all f [] j = refl
  get-modify_all f ((i, w) ∷ m) j = ground (arith, get-modify_all f m j)

  -- What is left after `retain` passes its test.
  pub retain_values_sound :
      (p : V → Bool) (m : HashMap V) (j : String) (v : V)
      → get (retain_values p m) j ≡ some v
      → p v ≡ true
  unfolding get retain_values
  retain_values_sound p [] j v h = ground arith
  retain_values_sound p ((i, w) ∷ m) j v h = ground (arith, retain_values_sound p m j v)

pub ruleset map_laws = (get-insert, get-remove, get-modify, get-modify_all)
