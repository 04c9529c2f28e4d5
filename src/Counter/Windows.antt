-- ===== src/Counter/Windows.antt =====
-- One window: its order, and what expiry leaves (src/engine/security/counter.rs).
use echo_services.Prelude.{
  ℕ, ◌+◌, ◌≤◌, ◌≡◌, refl, inl, inr, false, List, [], ◌∷◌, ltb, leb, if◌then◌else◌, is_some_and,
  push, length, arith, Bool-cases,
}
use echo_services.Counter.{expire, back}

abbrev pub AllFrom : ℕ → List ℕ → Type 0
AllFrom n [] = Unit {0}
AllFrom n (t ∷ ts) = (n ≤ t) × AllFrom n ts

-- The times rise, and none is later than `now`.
abbrev pub Ordered : ℕ → List ℕ → Type 0
Ordered now [] = Unit {0}
Ordered now (t ∷ ts) = (t ≤ now) × AllFrom t ts × Ordered now ts

-- How many times of the list are not before `from`
unfoldable pub since : ℕ → List ℕ → ℕ
since from [] = 0
since from (t ∷ ts) = (if leb from t then 1 else 0) + since from ts

pub Ordered-later : (n m : ℕ) (ts : List ℕ) → n ≤ m → Ordered n ts → Ordered m ts
Ordered-later n m [] h o = tt
Ordered-later n m (t ∷ ts) h o = (omega (arith, o.0), o.1, Ordered-later n m ts h o.2)

AllFrom-push : (n now : ℕ) (ts : List ℕ) → n ≤ now → AllFrom n ts → AllFrom n (push ts now)
AllFrom-push n now [] h a = (h, tt)
AllFrom-push n now (t ∷ ts) h a = (a.0, AllFrom-push n now ts h a.1)

pub Ordered-push : (now : ℕ) (ts : List ℕ) → Ordered now ts → Ordered now (push ts now)
Ordered-push now [] o = (omega arith, tt, tt)
Ordered-push now (t ∷ ts) o = (o.0, AllFrom-push t now ts o.0 o.1, Ordered-push now ts o.2)

pub Ordered-expire : (now c : ℕ) (ts : List ℕ) → Ordered now ts → Ordered now (expire c ts)
unfolding expire
Ordered-expire now c [] o = tt
Ordered-expire now c (t ∷ ts) o = elim (Bool-cases (ltb t c)) [
  | inl e ↦ rw e (Ordered-expire now c ts o.2)
  | inr e ↦ rw e o
]

pub since-push :
    (c : ℕ) (ts : List ℕ) (t : ℕ) → since c (push ts t) ≡ since c ts + (if leb c t then 1 else 0)
unfolding since
since-push c [] t = omega arith
since-push c (u ∷ ts) t = omega (arith, since-push c ts t)

pub since-anti : (c d : ℕ) (ts : List ℕ) → c ≤ d → since d ts ≤ since c ts
unfolding since
since-anti c d [] h = omega arith
since-anti c d (t ∷ ts) h = ground (arith, since-anti c d ts h)

since-all : (c n : ℕ) (ts : List ℕ) → AllFrom n ts → c ≤ n → since c ts ≡ length ts
unfolding since
since-all c n [] a h = refl
since-all c n (t ∷ ts) a h = ground (arith, since-all c n ts a.1 h, a.0)

-- Expiry leaves what is not before the cutoff.
pub length-expire : (now c : ℕ) (ts : List ℕ) → Ordered now ts → length (expire c ts) ≡ since c ts
unfolding expire since
length-expire now c [] o = refl
length-expire now c (t ∷ ts) o = elim (Bool-cases (ltb t c)) [
  | inl e ↦ rw e (ground (arith, e, length-expire now c ts o.2))
  | inr e ↦ rw e (ground (arith, e, since-all c t ts o.1))
]

-- Expiry does not change what a later cutoff counts.
pub since-expire : (c d : ℕ) (ts : List ℕ) → c ≤ d → since d (expire c ts) ≡ since d ts
unfolding expire since
since-expire c d [] h = refl
since-expire c d (t ∷ ts) h = elim (Bool-cases (ltb t c)) [
  | inl e ↦ rw e (ground (arith, e, since-expire c d ts h))
  | inr e ↦ rw e refl
]

-- If the last time is before the cutoff, then all are.
pub since-back :
    (now c : ℕ) (ts : List ℕ)
    → Ordered now ts
    → is_some_and (back ts) (λ t. leb c t) ≡ false
    → since c ts ≡ 0
unfolding since back
since-back now c [] o h = refl
since-back now c (t ∷ []) o h = ground (arith, h)
since-back now c (t ∷ u ∷ ts) o h =
    let rest : since c (u ∷ ts) ≡ 0 = since-back now c (u ∷ ts) o.2 h in ground (arith, rest, o.1.0)
