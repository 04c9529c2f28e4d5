-- ===== src/Db/Masks/Allowance.antt =====
-- The session allowance of an address, and the ignores (src/engine/db/network.rs).
use echo_services.Prelude.{
  ℕ, ◌≤◌, Char, String, none, some, List, [], ◌∷◌, ◌≡◌, ◌⊎◌, inl, inr, refl, map, retain, arith,
  leb, eqb, Bool, true, false, Bool-cases, ◌≢◌, sym, ◌∙◌, if_rule, to_ascii_lowercase,
}
use echo_services.Data.{SessionException}
use echo_services.Db.{Db}
use echo_services.Glob.{lowered}
use echo_services.Glob.Meaning.{matches, NoStar, glob_match_exact}
use echo_services.Db.Masks.{u32_max, allowance, max_by, covers, session_exception_for}

-- Every number of the list is at most this much.
abbrev AllWithin : ℕ → List ℕ → Type 0
AllWithin n [] = Unit {0}
AllWithin n (x ∷ xs) = (allowance x ≤ n) × AllWithin n xs

-- The value stands in the list.
abbrev Among : ℕ → List ℕ → Type 0
Among n [] = ⊥
Among n (x ∷ xs) = (x ≡ n) ⊎ Among n xs

-- The search from a best value so far finds one at least as good that is in the list or is that one.
max_by-best :
    (b : ℕ) (xs : List ℕ)
    → (r : ℕ) × (max_by allowance (some b) xs ≡ some r)
      × (allowance b ≤ allowance r)
      × AllWithin (allowance r) xs
      × ((b ≡ r) ⊎ Among r xs)
unfolding max_by
max_by-best b [] = (b, refl, omega arith, tt, inl refl)
max_by-best b (x ∷ xs) = elim (Bool-cases (leb (allowance b) (allowance x))) [
  | inl up ↦
      let (r, e, le, all, at) = max_by-best x xs in
      rw up (r, e, ground (arith, up), (le, all), inr at)
  | inr down ↦
      let (r, e, le, all, at) = max_by-best b xs in
      rw down
        (r, e, le, (ground (arith, down), all), elim at [ inl h ↦ inl h | inr h ↦ inr (inr h) ])
]

-- The largest is among the limits, and none of them is larger.
most :
    (limits : List ℕ)
    → ((limits ≡ []) × (max_by allowance none limits ≡ none))
      ⊎ ((r : ℕ) × (max_by allowance none limits ≡ some r)
          × Among r limits
          × AllWithin (allowance r) limits)
unfolding max_by
most [] = inl (refl, refl)
most (x ∷ xs) = let (r, e, le, all, at) = max_by-best x xs in inr (r, e, at, (le, all))

-- The first limit allows as much as the second: 0 allows any number, and so does, as far as a `u32`
-- goes, the largest one.
abbrev AtLeast : ℕ → ℕ → Type 0
AtLeast r x = (r ≡ 0) ⊎ ((u32_max ≤ r) ⊎ ((x ≢ 0) × (x ≤ r)))

allowance-AtLeast : (r x : ℕ) → allowance x ≤ allowance r → AtLeast r x
allowance-AtLeast r x h = elim (Bool-cases (eqb r 0)) [
  | inl none_set ↦ inl (ground (arith, none_set))
  | inr set ↦ elim (Bool-cases (eqb x 0)) [
    | inl open_end ↦ inr (inl (ground (arith, h, set, open_end)))
    | inr bound ↦ inr (inr ((λ e. ground (arith, e, bound)), ground (arith, h, set, bound)))
  ]
]

module _ (lower : Char → List Char) (ip : String) where
  -- The mask of the exception matches the address, whatever the case of their letters, a star
  -- standing for any run.
  abbrev matching : SessionException → Bool
  matching e =
      matches (lowered lower (to_ascii_lowercase e.mask)) (lowered lower (to_ascii_lowercase ip))

  -- None of the exceptions matches the address.
  abbrev pub NoneMatching : List SessionException → Type 0
  NoneMatching [] = Unit {0}
  NoneMatching (e ∷ es) = (matching e ≡ false) × NoneMatching es

  -- Some exception that matches the address has this limit.
  abbrev pub SomeLimit : ℕ → List SessionException → Type 0
  SomeLimit r [] = ⊥
  SomeLimit r (e ∷ es) = ((matching e ≡ true) × (e.limit ≡ r)) ⊎ SomeLimit r es

  -- The limit allows as much as every exception that matches the address.
  abbrev pub AllAllowed : ℕ → List SessionException → Type 0
  AllAllowed r [] = Unit {0}
  AllAllowed r (e ∷ es) = (matching e ≡ true → AtLeast r e.limit) × AllAllowed r es

  module _ (plain : NoStar (lowered lower (to_ascii_lowercase ip))) where
    covers-matching : (e : SessionException) → covers lower ip e ≡ matching e
    covers-matching e =
        glob_match_exact lower (to_ascii_lowercase e.mask) (to_ascii_lowercase ip) plain

    limits-none :
        (es : List SessionException)
        → map (λ (e : SessionException). e.limit) (retain (covers lower ip) es) ≡ []
        → NoneMatching es
    unfolding retain
    limits-none [] h = tt
    limits-none (e ∷ es) h = elim (Bool-cases (covers lower ip e)) [
      | inl yes_covered ↦ absurd (ground (arith, h, yes_covered))
      | inr not_covered ↦
          (sym (covers-matching e) ∙ not_covered, limits-none es (ground (arith, h, not_covered)))
    ]

    Among-SomeLimit :
        (es : List SessionException) (r : ℕ)
        → Among r (map (λ (e : SessionException). e.limit) (retain (covers lower ip) es))
        → SomeLimit r es
    unfolding retain
    Among-SomeLimit [] r h = h
    Among-SomeLimit (e ∷ es) r given =
        if_rule
          (λ (kept : List SessionException).
            Among r (map (λ (x : SessionException). x.limit) kept) → SomeLimit r (e ∷ es))
          (covers lower ip e)
          (λ yes_covered h. elim h [
            | inl here ↦ inl (sym (covers-matching e) ∙ yes_covered, here)
            | inr later ↦ inr (Among-SomeLimit es r later)
          ])
          (λ not_covered h. inr (Among-SomeLimit es r h)) given

    AllWithin-AllAllowed :
        (es : List SessionException) (r : ℕ)
        → AllWithin
            (allowance r)
            (map (λ (e : SessionException). e.limit) (retain (covers lower ip) es))
        → AllAllowed r es
    unfolding retain
    AllWithin-AllAllowed [] r h = tt
    AllWithin-AllAllowed (e ∷ es) r given =
        if_rule
          (λ (kept : List SessionException).
            AllWithin (allowance r) (map (λ (x : SessionException). x.limit) kept)
            → AllAllowed r (e ∷ es))
          (covers lower ip e)
          (λ yes_covered h. ((λ m. allowance-AtLeast r e.limit h.0), AllWithin-AllAllowed es r h.1))
          (λ not_covered h. (
            (λ m. absurd (ground (arith, sym (covers-matching e) ∙ not_covered, m))),
            AllWithin-AllAllowed es r h,
          ))
          given

    -- Of an address without `*` in it: where it has no session allowance of its own, no exception's
    -- mask matches it; and where it has one, that is the limit of an exception whose mask matches
    -- it, and it allows as much as the limit of every other such exception, a limit of 0 being no
    -- limit, which only 0 and the largest `u32` allow as much as.
    pub session_exception_for-most :
        (db : Db)
        → let es = db.state.net.sess_exceptions in
          ((session_exception_for lower db ip ≡ none) × NoneMatching es)
          ⊎ ((r : ℕ) × (session_exception_for lower db ip ≡ some r)
              × SomeLimit r es
              × AllAllowed r es)
    unfolding session_exception_for
    session_exception_for-most db =
        elim (most (
          map (λ (e : SessionException). e.limit)
            (retain (covers lower ip) db.state.net.sess_exceptions))) [
              | inl (e, h) ↦ inl (h, limits-none db.state.net.sess_exceptions e)
              | inr (r, h, among, within) ↦ inr (
                r,
                h,
                Among-SomeLimit db.state.net.sess_exceptions r among,
                AllWithin-AllAllowed db.state.net.sess_exceptions r within,
              )
            ]
