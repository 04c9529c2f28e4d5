-- ===== src/HashMap/Everywhere.antt =====
-- What holds of every value of a map, and of the maps that the operations make of it.
use echo_services.Prelude.{
  String, Bool, true, false, Option, none, some, ◌≡◌, refl, arith, subst, ◌==◌, if◌then◌else◌,
  option_map, sym, eq_iff,
}
use echo_services.HashMap.{HashMap, get, insert, remove, modify, modify_all}
use echo_services.HashMap.Laws.{get-insert, get-remove, get-modify, get-modify_all}

module _ {V : Type 0} (P : V → Type 0) where
  abbrev pub Everywhere : HashMap V → Type 0
  Everywhere m = (k : String) (v : V) → get m k ≡ some v → P v

  at_some : (a v : V) → ◌≡◌ {A = Option V} (some a) (some v) → P a → P v
  at_some a v h p =
      subst (λ (o : Option V). elim o as (λ _. Type 0) [ none ↦ P a | some x ↦ P x ]) h p

  if_some :
      (b : Bool) (x : V) (o : Option V) (v : V)
      → P x
      → ((w : V) → o ≡ some w → P w)
      → (if b then some x else o) ≡ some v
      → P v
  if_some true x o v p q h = at_some x v h p
  if_some false x o v p q h = q v h

  mapped :
      (o : Option V) (f : V → V) (v : V)
      → ((w : V) → o ≡ some w → P (f w))
      → option_map f o ≡ some v
      → P v
  mapped none f v q h = ground (arith)
  mapped (some w) f v q h = at_some (f w) v h (q w refl)

  if_mapped :
      (b : Bool) (o : Option V) (f : V → V) (v : V)
      → ((w : V) → b ≡ true → o ≡ some w → P (f w))
      → ((w : V) → o ≡ some w → P w)
      → (if b then option_map f o else o) ≡ some v
      → P v
  if_mapped true o f v q r h = mapped o f v (λ w. q w refl) h
  if_mapped false o f v q r h = r v h

  if_none :
      (b : Bool) (o : Option V) (v : V)
      → ((w : V) → o ≡ some w → P w)
      → (if b then none else o) ≡ some v
      → P v
  if_none true o v q h = ground (arith)
  if_none false o v q h = q v h

  pub insert-Everywhere :
      (m : HashMap V) (k : String) (x : V) → P x → Everywhere m → Everywhere (insert m k x)
  insert-Everywhere m k x p h j v = rw (get-insert m k x j) (if_some (k == j) x (get m j) v p (h j))

  pub remove-Everywhere : (m : HashMap V) (k : String) → Everywhere m → Everywhere (remove m k)
  remove-Everywhere m k h j v = rw (get-remove m k j) (if_none (k == j) (get m j) v (h j))

  pub modify-Everywhere :
      (m : HashMap V) (k : String) (f : V → V)
      → ((v : V) → get m k ≡ some v → P v → P (f v))
      → Everywhere m
      → Everywhere (modify m k f)
  modify-Everywhere m k f small h j v = rw (get-modify m k f j) (
      if_mapped (k == j) (get m j) f v
        (λ w b q.
          small w (subst (λ (i : String). get m i ≡ some w) (sym ((eq_iff k j).0 b)) q) (h j w q))
        (h j))

  pub modify_all-Everywhere :
      (m : HashMap V) (f : V → V)
      → ((v : V) → P v → P (f v))
      → Everywhere m
      → Everywhere (modify_all f m)
  modify_all-Everywhere m f small h j v =
      rw (get-modify_all f m j) (mapped (get m j) f v (λ w q. small w (h j w q)))
