-- ===== src/Db/Bounds.antt =====
-- The access and auto-kick lists stay within `MAX_CHAN_LIST` (src/engine/db/channel.rs).
use echo_services.Prelude.{
  ◌≤◌, Bool, false, not, List, [], ◌∷◌, ◌≡◌, arith, length, retain, push, any, length-append,
  length-retain-le, length-retain-lt, Bool-cases, inl, inr,
}
use echo_services.HashMap.{HashMap}
use echo_services.HashMap.Everywhere.{Everywhere}
use echo_services.Data.{State, ChannelInfo}
use echo_services.Event.{Event}
use echo_services.Fold.{apply}
use echo_services.Db.AccessLists.{max_chan_list}
use echo_services.Db.ChannelLists.{apply-Listed, same_as}
use echo_services.Db.Traced.{Admits, overflows}

abbrev pub IsSmall : ChannelInfo → Type 0
IsSmall c = (length c.access ≤ max_chan_list) × (length c.akick ≤ max_chan_list)

-- No channel has a longer list.
abbrev pub IsBounded : HashMap ChannelInfo → Type 0
IsBounded m = Everywhere IsSmall m

-- A list in which the new entry replaces the entries of its name, where there was room.
length-replace :
    {A : Type 0} (same : A → Bool) (xs : List A) (x : A)
    → overflows same xs ≡ false
    → length xs ≤ max_chan_list
    → length (push (retain (λ a. not (same a)) xs) x) ≤ max_chan_list
length-replace same xs x room h = elim (Bool-cases (any same xs)) [
  | inl y ↦
      omega (
        arith,
        h,
        length-append (retain (λ a. not (same a)) xs) (x ∷ []),
        length-retain-lt same xs y,
      )
  | inr n ↦ ground (
    arith,
    length-append (retain (λ a. not (same a)) xs) (x ∷ []),
    length-retain-le (λ a. not (same a)) xs,
  )
]

shrink :
    {A : Type 0} (p : A → Bool) (xs : List A)
    → length xs ≤ max_chan_list
    → length (retain p xs) ≤ max_chan_list
shrink p xs h = omega (arith, h, length-retain-le p xs)

pub apply-IsBounded :
    (s : State) (e : Event) → Admits s e → IsBounded s.channels → IsBounded (apply s e).channels
apply-IsBounded =
    apply-Listed (λ A name xs. length xs ≤ max_chan_list) (λ A name. omega arith)
      (λ A name p xs. shrink p xs) λ A name xs x. length-replace (same_as name (name x)) xs x
