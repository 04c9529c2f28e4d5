-- ===== src/Fold/Claims.antt =====
-- Rival registrations of one name (`owns_over` and the account case of `apply`,
-- src/engine/db/event.rs).
use echo_services.Prelude.{
  String, true, false, Option, none, some, List, [], ◌∷◌, map, ◌≡◌, ◌∙◌, Bool-cases, refl, sym, ap,
  arith, if◌then◌else◌, ◌==◌, eq_iff, inl, inr, str_lt_asymm, str_lt_trans, str_lt_connected,
  Option-cases,
}
use text.Mathlib.TextEquality.{IsScalar-prop}
use mathlib.Core.List.Permᴰ
use mathlib.Core.Logic.{∥∥₁_elim}
use mathlib.Core.List.{Perm, Permᴰ, Mem, mem-cons_of_mem, mem-cons_self}
use echo_services.HashMap
use echo_services.HashMap.{HashMap}
use echo_services.HashMap.Laws.{get-insert}
use echo_services.Data.{Account, State}
use echo_services.Event.{Event}
use echo_services.Fold.Updates.{key, owns_over, register_account}
use echo_services.Fold.{apply, replay}

owns_over_asymm : (a b : Account) → owns_over a b ≡ true → owns_over b a ≡ false
unfolding owns_over
owns_over_asymm a b h = ground (arith, str_lt_asymm a.home b.home)

owns_over_trans :
    (a b c : Account) → owns_over a b ≡ true → owns_over b c ≡ true → owns_over a c ≡ true
unfolding owns_over
owns_over_trans a b c h k = ground (arith, str_lt_trans a.home b.home c.home)

-- Claims of which neither is earlier are of one time and one home.
owns_over_tied :
    (a b : Account)
    → owns_over a b ≡ false
    → owns_over b a ≡ false
    → (a.ts ≡ b.ts) × (a.home ≡ b.home)
unfolding owns_over
owns_over_tied a b h k = ground (arith, str_lt_connected a.home b.home)

owns_over-eq_left :
    (a b c : Account) → a.ts ≡ b.ts → a.home ≡ b.home → owns_over a c ≡ owns_over b c
unfolding owns_over
owns_over-eq_left a b c p q = rw (p, q) refl

owns_over-eq_right :
    (a b c : Account) → a.ts ≡ b.ts → a.home ≡ b.home → owns_over c a ≡ owns_over c b
unfolding owns_over
owns_over-eq_right a b c p q = rw (p, q) refl

-- The claim that stands after a rival one.
abbrev pub winner : Option Account → Account → Account
winner none a = a
winner (some cur) a = if owns_over cur a then cur else a

-- Two claims to one name that tie in time and home are one claim.
abbrev pub Agree : Account → Account → Type 0
Agree a b = key a.name ≡ key b.name → a.ts ≡ b.ts → a.home ≡ b.home → a ≡ b

winner_comm :
    (o : Option Account) (a b : Account)
    → (a.ts ≡ b.ts → a.home ≡ b.home → a ≡ b)
    → winner (some (winner o a)) b ≡ winner (some (winner o b)) a
winner_comm none a b tie = ground (arith, owns_over_asymm a b, owns_over_tied a b, tie)
winner_comm (some c) a b tie = ground (
  arith,
  owns_over_asymm a b,
  owns_over_tied a b,
  tie,
  owns_over_asymm a c,
  owns_over_asymm b c,
  owns_over_trans a b c,
  owns_over_trans c a b,
  owns_over_trans a c b,
  owns_over_trans b a c,
  owns_over_trans c b a,
  owns_over_trans b c a,
  owns_over_tied a c,
  owns_over_tied b c,
  owns_over-eq_left a c b,
  owns_over-eq_left b c a,
  owns_over-eq_right a c b,
  owns_over-eq_right b c a,
)

get-register_account :
    (m : HashMap Account) (a : Account) (k : String)
    → HashMap.get (register_account a m) k
      ≡ (if key a.name == k then some (winner (HashMap.get m k) a) else HashMap.get m k)
unfolding register_account
get-register_account m a k = elim (Option-cases (HashMap.get m (key a.name))) [
  | inl n ↦
      rw (n, register_account)
        (ground (arith, get-insert m (key a.name) a k, eq_iff (key a.name) k))
  | inr (c, n) ↦
      rw (n, register_account)
        (ground (arith, get-insert m (key a.name) a k, eq_iff (key a.name) k))
]

-- The account that holds the name `k` after a list of claims.
abbrev standing : String → Option Account → List Account → Option Account
standing k o [] = o
standing k o (a ∷ cs) = standing k (if key a.name == k then some (winner o a) else o) cs

get-replay :
    (s : State) (cs : List Account) (k : String)
    → HashMap.get (replay s (map Event.account_registered cs)).accounts k
      ≡ standing k (HashMap.get s.accounts k) cs
unfolding replay apply
get-replay s [] k = refl
get-replay s (a ∷ cs) k =
    get-replay (apply s (Event.account_registered a)) cs k
    ∙ ap (λ o. standing k o cs) (get-register_account s.accounts a k)

-- Any two of the claims agree.
abbrev pub AllAgree : List Account → Type 0
AllAgree cs = (a b : Account) → Mem a cs → Mem b cs → Agree a b

AllAgree-tail : (a : Account) (cs : List Account) → AllAgree (a ∷ cs) → AllAgree cs
AllAgree-tail a cs h b c mb mc = h b c (mem-cons_of_mem a mb) (mem-cons_of_mem a mc)

standing-swap :
    (k : String) (o : Option Account) (a b : Account)
    → Agree a b
    → ◌≡◌ {A = Option Account}
        (if key b.name == k
          then some (winner (if key a.name == k then some (winner o a) else o) b)
          else (if key a.name == k then some (winner o a) else o))
        (if key a.name == k
          then some (winner (if key b.name == k then some (winner o b) else o) a)
          else (if key b.name == k then some (winner o b) else o))
standing-swap k o a b h = elim (Bool-cases (key a.name == k)) [
  | inr x ↦ rw x refl
  | inl x ↦ elim (Bool-cases (key b.name == k)) [
    | inr y ↦ rw (x, y) refl
    | inl y ↦
        rw (x, y)
          (ap some
            (winner_comm o a b (h (ground (arith, eq_iff (key a.name) k, eq_iff (key b.name) k)))))
  ]
]

standing-perm :
    (k : String) (o : Option Account) {cs ds : List Account}
    → Permᴰ cs ds
    → AllAgree cs
    → standing k o cs ≡ standing k o ds
standing-perm k o Permᴰ.nil h = refl
standing-perm k o (Permᴰ.cons {a = a} {b = b} {l₁ = cs} {l₂ = ds} e p) h =
    standing-perm k (if key a.name == k then some (winner o a) else o) p (AllAgree-tail a cs h)
    ∙ ap (λ (x : Account). standing k (if key x.name == k then some (winner o x) else o) ds) e
standing-perm k o (Permᴰ.swap {a = a} {b = b} {l = l} e f) h =
    ap (λ (x : Option Account). standing k x l)
      (standing-swap k o a b (h a b mem-cons_self (mem-cons_of_mem a mem-cons_self)))
    ∙ λ i. standing k o (f i ∷ e i ∷ l)
standing-perm k o (Permᴰ.trans {l₁ = cs} {l₂ = ds} p q) h =
    standing-perm k o p h
    ∙ standing-perm k o q
        (λ a b ma mb. h a b (Permᴰ.mem (Permᴰ.symm p) ma) (Permᴰ.mem (Permᴰ.symm p) mb))

Account-set : IsSet (Option Account)
Account-set = hlevel IsScalar-prop

pub Account-IsSet : IsSet Account
Account-IsSet = hlevel IsScalar-prop

-- Rival registrations converge: the same claims, folded in in any order from the same store, leave
-- the same account under every name. The condition: two of the claims that are of one name, one
-- time and one home are the same claim.
pub replay-perm :
    (s : State) (cs ds : List Account) (k : String)
    → Perm cs ds
    → AllAgree cs
    → HashMap.get (replay s (map Event.account_registered cs)).accounts k
      ≡ HashMap.get (replay s (map Event.account_registered ds)).accounts k
replay-perm s cs ds k p h = ∥∥₁_elim p (Account-set _ _) λ q.
    get-replay s cs k ∙ standing-perm k (HashMap.get s.accounts k) q h ∙ sym (get-replay s ds k)
