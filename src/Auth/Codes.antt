-- ===== src/Auth/Codes.antt =====
-- How often an emailed code can be guessed at (`take_code`, src/engine/db/account.rs).
use echo_services.Prelude.{
  ℕ, ◌+◌, ◌-◌, ◌≤◌, ◌<◌, String, Bool, true, false, ◌&&◌, none, some, List, [], ◌∷◌, ◌≡◌, refl,
  arith, length, if_rule, ap, ◌∙◌, ◌⊎◌, inl, inr, eq_refl, ◌==◌, leb, eqb,
}
use echo_services.HashMap
use echo_services.HashMap.{HashMap}
use echo_services.HashMap.Laws.{get-insert, get-remove}
use echo_services.Fold.Updates.{key}
use echo_services.Auth.{
  PendingCode, CodeKind, reset, confirm, same_kind, issue_code, take_code, burn, seconds,
}

-- A guess: when, for which purpose, and the text.
pub record Guess : Type 0 where
  pub at : ℕ
  pub kind : CodeKind
  pub code : String

-- The pending codes after guesses at an account's code.
unfoldable pub after_guesses : HashMap PendingCode → String → List Guess → HashMap PendingCode
after_guesses codes account [] = codes
after_guesses codes account (g ∷ gs) =
    after_guesses (take_code g.at codes account g.kind g.code).0 account gs

-- Every guess is wrong, by the purpose or the text.
abbrev pub AreWrong : CodeKind → String → List Guess → Type 0
AreWrong kind code [] = Unit {0}
AreWrong kind code (g ∷ gs) =
    ((same_kind kind g.kind && code == g.code) ≡ false) × AreWrong kind code gs

-- Every guess is made before the deadline.
abbrev pub AreInTime : ℕ → List Guess → Type 0
AreInTime deadline [] = Unit {0}
AreInTime deadline (g ∷ gs) = (g.at < deadline) × AreInTime deadline gs

get-removed :
    (codes : HashMap PendingCode) (k : String) → HashMap.get (HashMap.remove codes k) k ≡ none
get-removed codes k = rw (get-remove codes k k, eq_refl k) refl

get-inserted :
    (codes : HashMap PendingCode) (k : String) (pc : PendingCode)
    → HashMap.get (HashMap.insert codes k pc) k ≡ some pc
get-inserted codes k pc = rw (get-insert codes k pc k, eq_refl k) refl

-- There is no code to guess at.
vain_guess :
    (codes : HashMap PendingCode) (account : String) (g : Guess)
    → HashMap.get codes (key account) ≡ none
    → take_code g.at codes account g.kind g.code ≡ (codes, false)
unfolding take_code
vain_guess codes account g h = rw (take_code, h) refl

-- No code is no code after any guesses.
after_guesses-none :
    (codes : HashMap PendingCode) (account : String) (gs : List Guess)
    → HashMap.get codes (key account) ≡ none
    → HashMap.get (after_guesses codes account gs) (key account) ≡ none
unfolding after_guesses
after_guesses-none codes account [] h = h
after_guesses-none codes account (g ∷ gs) h =
    rw (vain_guess codes account g h) (after_guesses-none codes account gs h)

-- A wrong guess takes a code's last try, or one of its tries.
wrong_guess :
    (codes : HashMap PendingCode) (account : String) (g : Guess) (pc : PendingCode)
    → HashMap.get codes (key account) ≡ some pc
    → (same_kind pc.kind g.kind && pc.code == g.code) ≡ false
    → g.at < pc.deadline
    → take_code g.at codes account g.kind g.code ≡ (burn codes (key account) pc, false)
unfolding take_code
wrong_guess codes account g pc h w t = rw (take_code, h, w) (ground arith)

late_guess :
    (codes : HashMap PendingCode) (account : String) (g : Guess) (pc : PendingCode)
    → HashMap.get codes (key account) ≡ some pc
    → pc.deadline ≤ g.at
    → take_code g.at codes account g.kind g.code ≡ (HashMap.remove codes (key account), false)
unfolding take_code
late_guess codes account g pc h t = rw (take_code, h) (ground arith)

-- What a wrong guess leaves of the code, by the tries that are left.
get-burn_last :
    (codes : HashMap PendingCode) (k : String) (pc : PendingCode)
    → pc.tries_left ≤ 1
    → HashMap.get (burn codes k pc) k ≡ none
get-burn_last codes k pc h =
    if_rule (λ (m : HashMap PendingCode). HashMap.get m k ≡ none) (eqb (pc.tries_left - 1) 0)
      (λ _. get-removed codes k) λ b. ground arith

get-burn_more :
    (codes : HashMap PendingCode) (k : String) (pc : PendingCode)
    → 1 < pc.tries_left
    → HashMap.get (burn codes k pc) k ≡ some (record pc { tries_left = pc.tries_left - 1 })
get-burn_more codes k pc h =
    if_rule
      (λ (m : HashMap PendingCode).
        HashMap.get m k ≡ some (record pc { tries_left = pc.tries_left - 1 }))
      (eqb (pc.tries_left - 1) 0) (λ b. ground arith)
      λ _. get-inserted codes k (record pc { tries_left = pc.tries_left - 1 })

-- After guesses that are all wrong and in time and fewer than the tries left, the code is pending
-- still, with one try less for each guess.
after_guesses-pending :
    (codes : HashMap PendingCode) (account : String) (gs : List Guess) (pc : PendingCode)
    → HashMap.get codes (key account) ≡ some pc
    → AreWrong pc.kind pc.code gs
    → AreInTime pc.deadline gs
    → length gs < pc.tries_left
    → HashMap.get (after_guesses codes account gs) (key account)
      ≡ some (record pc { tries_left = pc.tries_left - length gs })
unfolding after_guesses
after_guesses-pending codes account [] pc h w t l =
    h ∙ ap (λ (n : ℕ). some (record pc { tries_left = n })) (omega arith)
after_guesses-pending codes account (g ∷ gs) pc h w t l =
    let less : PendingCode = record pc { tries_left = pc.tries_left - 1 } in
    rw (wrong_guess codes account g pc h w.0 t.0) (
      after_guesses-pending (burn codes (key account) pc) account gs less
        (get-burn_more codes (key account) pc (omega (arith, l))) w.1 t.1 (omega (arith, l))
      ∙ ap (λ (n : ℕ). some (record pc { tries_left = n })) (omega (arith, l)))

-- After guesses that are all wrong and no fewer than the tries left, the code is gone.
after_guesses-gone :
    (codes : HashMap PendingCode) (account : String) (gs : List Guess) (pc : PendingCode)
    → HashMap.get codes (key account) ≡ some pc
    → AreWrong pc.kind pc.code gs
    → pc.tries_left ≤ length gs
    → 0 < pc.tries_left
    → HashMap.get (after_guesses codes account gs) (key account) ≡ none
unfolding after_guesses
after_guesses-gone codes account [] pc h w l p = ground arith
after_guesses-gone codes account (g ∷ gs) pc h w l p =
    let less : PendingCode = record pc { tries_left = pc.tries_left - 1 } in
    if_rule (λ (b : Bool). HashMap.get (after_guesses codes account (g ∷ gs)) (key account) ≡ none)
      (leb pc.deadline g.at) {x = true} {y = false}
      (λ late. rw (late_guess codes account g pc h (ground arith)) (
        after_guesses-none (HashMap.remove codes (key account)) account gs
          (get-removed codes (key account))))
      λ soon.
        rw (wrong_guess codes account g pc h w.0 (ground arith)) (elim (le_or_lt pc.tries_left 1) [
          | inl last ↦
              after_guesses-none (burn codes (key account) pc) account gs
                (get-burn_last codes (key account) pc last)
          | inr more ↦
              after_guesses-gone (burn codes (key account) pc) account gs less
                (get-burn_more codes (key account) pc more) w.1 (omega (arith, l))
                (omega (arith, more))
        ])
  where
    le_or_lt : (m n : ℕ) → (m ≤ n) ⊎ (n < m)
    le_or_lt m n = omega arith

-- An emailed code that was guessed wrong five times, by its text or its purpose, at any times, is
-- gone: no further guess, right or wrong, succeeds, and none brings it back.
pub issue_code-guesses :
    (now : ℕ) (codes : HashMap PendingCode) (account : String) (kind : CodeKind) (code : String)
    (gs : List Guess) (more : List Guess) (last : Guess)
    → AreWrong kind code gs
    → 5 ≤ length gs
    → let left =
        after_guesses
          (after_guesses (issue_code now codes account kind code) account gs)
          account
          more in
      take_code last.at left account last.kind last.code ≡ (left, false)
unfolding issue_code
issue_code-guesses now codes account kind code gs more last w l =
    let pc : PendingCode = record {
      kind = kind;
      code = code;
      issued = now;
      deadline = now + seconds 900;
      tries_left = 5;
    } in
    let issued : HashMap PendingCode = HashMap.insert codes (key account) pc in
    let burnt : HashMap PendingCode = after_guesses issued account gs in
    vain_guess (after_guesses burnt account more) account last (
      after_guesses-none burnt account more (
        after_guesses-gone issued account gs pc (get-inserted codes (key account) pc) w l
          (omega arith)))

same_kind_refl : (kind : CodeKind) → same_kind kind kind ≡ true
unfolding same_kind
same_kind_refl reset = refl
same_kind_refl confirm = refl

right_guess :
    (codes : HashMap PendingCode) (account : String) (at : ℕ) (pc : PendingCode)
    → HashMap.get codes (key account) ≡ some pc
    → at < pc.deadline
    → take_code at codes account pc.kind pc.code ≡ (HashMap.remove codes (key account), true)
unfolding take_code
right_guess codes account at pc h t =
    rw (take_code, h, same_kind_refl pc.kind, eq_refl pc.code) (ground arith)

-- An emailed code is good once: after at most four wrong guesses, all within its 15 minutes, the
-- right one within them succeeds, and after that no guess does.
pub issue_code-take_code :
    (now : ℕ) (codes : HashMap PendingCode) (account : String) (kind : CodeKind) (code : String)
    (gs : List Guess) (at : ℕ) (last : Guess)
    → AreWrong kind code gs
    → AreInTime (now + seconds 900) gs
    → length gs ≤ 4
    → at < now + seconds 900
    → let left = after_guesses (issue_code now codes account kind code) account gs in
      let taken = take_code at left account kind code in
      (taken.1 ≡ true) × (take_code last.at taken.0 account last.kind last.code ≡ (taken.0, false))
unfolding issue_code
issue_code-take_code now codes account kind code gs at last w t l a =
    let pc : PendingCode = record {
      kind = kind;
      code = code;
      issued = now;
      deadline = now + seconds 900;
      tries_left = 5;
    } in
    let issued : HashMap PendingCode = HashMap.insert codes (key account) pc in
    let left : HashMap PendingCode = after_guesses issued account gs in
    let right : take_code at left account kind code ≡ (HashMap.remove left (key account), true) =
      right_guess left account at (record pc { tries_left = 5 - length gs })
        (after_guesses-pending issued account gs pc (get-inserted codes (key account) pc) w t
          (omega (arith, l)))
        a in
    rw right (
      refl,
      vain_guess (HashMap.remove left (key account)) account last (get-removed left (key account)),
    )
