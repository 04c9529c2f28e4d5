-- ===== src/HashMap/Unique.antt =====
-- Maps that hold each key once, as Rust's do.
use echo_services.Prelude.{
  String, Bool, ◌≡◌, refl, none, some, [], ◌∷◌, arith, ◌==◌, eq_iff, if◌then◌else◌, Bool-cases, inl,
  inr,
}
use echo_services.HashMap.{HashMap, get, insert, retain_values}
use echo_services.HashMap.Laws.{get-insert}

module _ {V : Type 0} where
  -- No key stands twice.
  abbrev pub Unique : HashMap V → Type 0
  Unique [] = Unit {0}
  Unique ((k, v) ∷ m) = (get m k ≡ none) × Unique m

  pub insert-Unique : (m : HashMap V) (k : String) (v : V) → Unique m → Unique (insert m k v)
  unfolding insert get
  insert-Unique [] k v u = (refl, tt)
  insert-Unique ((j, w) ∷ m) k v u = elim (Bool-cases (j == k)) [
    | inl e ↦ let same : j ≡ k = (eq_iff j k).0 e in rw e (rw (← same) (u.0), u.1)
    | inr e ↦
        rw e
          (ground (arith, get-insert m k v j, eq_iff k j, eq_iff j k, u.0), insert-Unique m k v u.1)
  ]

  -- What passes the test stays where it was, and what does not is gone.
  pub get-retain_values :
      (p : V → Bool) (m : HashMap V) (k : String)
      → Unique m
      → get (retain_values p m) k
        ≡ (elim (get m k) [ none ↦ none | some v ↦ if p v then some v else none ])
  unfolding get retain_values
  get-retain_values p [] k u = refl
  get-retain_values p ((j, v) ∷ m) k u =
      ground (arith, eq_iff j k, get-retain_values p m k u.1, u.0)

  absent-retain :
      (p : V → Bool) (m : HashMap V) (k : String)
      → get m k ≡ none
      → get (retain_values p m) k ≡ none
  unfolding get retain_values
  absent-retain p [] k h = refl
  absent-retain p ((j, v) ∷ m) k h = ground (arith, h, absent-retain p m k)

  pub retain-Unique : (p : V → Bool) (m : HashMap V) → Unique m → Unique (retain_values p m)
  unfolding retain_values
  retain-Unique p [] u = tt
  retain-Unique p ((j, v) ∷ m) u = elim (Bool-cases (p v)) [
    | inl e ↦ rw e (absent-retain p m j u.0, retain-Unique p m u.1)
    | inr e ↦ rw e (retain-Unique p m u.1)
  ]
