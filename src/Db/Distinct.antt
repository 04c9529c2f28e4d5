-- ===== src/Db/Distinct.antt =====
-- The access and auto-kick lists name nobody twice (src/engine/db/channel.rs).
use echo_services.Prelude.{
  String, Bool, true, false, not, ◌&&◌, ◌||◌, List, [], ◌∷◌, ◌≡◌, refl, arith, retain, push, any,
  any-retain-not, eq_iff,
}
use echo_services.HashMap.{HashMap}
use echo_services.HashMap.Everywhere.{Everywhere}
use echo_services.Data.{State, ChannelInfo}
use echo_services.Event.{Event}
use echo_services.Fold.{apply}
use echo_services.Fold.Updates.{key}
use echo_services.Db.ChannelLists.{apply-Listed, same_as, account_of, mask_of}
use echo_services.Db.Traced.{Admits}

-- No two entries have one name, by the comparison that ignores case.
unfoldable pub distinct : {A : Type 0} → (A → String) → List A → Bool
distinct name [] = true
distinct name (x ∷ xs) = not (any (same_as name (name x)) xs) && distinct name xs

any-retain-none :
    {A : Type 0} (p q : A → Bool) (xs : List A) → any p xs ≡ false → any p (retain q xs) ≡ false
unfolding any retain
any-retain-none p q [] h = refl
any-retain-none p q (x ∷ xs) h = ground (arith, any-retain-none p q xs)

any-push : {A : Type 0} (p : A → Bool) (xs : List A) (x : A) → any p (push xs x) ≡ (any p xs || p x)
unfolding any
any-push p [] x = ground arith
any-push p (y ∷ xs) x = ground (arith, any-push p xs x)

same_comm :
    {A : Type 0} (name : A → String) (x y : A) → same_as name (name x) y ≡ same_as name (name y) x
same_comm name x y =
    ground (arith, eq_iff (key (name x)) (key (name y)), eq_iff (key (name y)) (key (name x)))

distinct-retain :
    {A : Type 0} (name : A → String) (p : A → Bool) (xs : List A)
    → distinct name xs ≡ true
    → distinct name (retain p xs) ≡ true
unfolding distinct retain
distinct-retain name p [] h = refl
distinct-retain name p (x ∷ xs) h =
    ground (arith, distinct-retain name p xs, any-retain-none (same_as name (name x)) p xs)

distinct-push :
    {A : Type 0} (name : A → String) (xs : List A) (x : A)
    → any (same_as name (name x)) xs ≡ false
    → distinct name xs ≡ true
    → distinct name (push xs x) ≡ true
unfolding distinct any
distinct-push name [] x n h = refl
distinct-push name (y ∷ xs) x n h =
    ground
      (arith, distinct-push name xs x, any-push (same_as name (name y)) xs x, same_comm name x y)

abbrev pub IsDistinct : HashMap ChannelInfo → Type 0
IsDistinct m =
    Everywhere (λ c. (distinct account_of c.access ≡ true) × (distinct mask_of c.akick ≡ true)) m

pub apply-IsDistinct :
    (s : State) (e : Event) → Admits s e → IsDistinct s.channels → IsDistinct (apply s e).channels
unfolding distinct
apply-IsDistinct =
    apply-Listed (λ A name xs. distinct name xs ≡ true) (λ A name. nil_distinct name)
      (λ A name p xs. distinct-retain name p xs)
      λ A name xs x _ h.
        distinct-push name (retain (λ a. not (same_as name (name x) a)) xs) x
          (any-retain-not (same_as name (name x)) xs)
          (distinct-retain name (λ a. not (same_as name (name x) a)) xs h)
  where
    nil_distinct : {A : Type 0} (name : A → String) → distinct name [] ≡ true
    nil_distinct name = refl
