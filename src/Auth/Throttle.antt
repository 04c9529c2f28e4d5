-- ===== src/Auth/Throttle.antt =====
-- How long wrong passwords lock an account for (`note_auth`, `auth_lockout`,
-- src/engine/db/account.rs).
use echo_services.Prelude.{
  ℕ, ◌+◌, ◌-◌, ◌/◌, ◌%◌, ◌^◌, ◌≤◌, ◌<◌, String, Bool, true, false, none, some, Option, List, [],
  ◌∷◌, ◌≡◌, refl, arith, length, eq_refl, subst, ap, ◌∙◌, Bool-cases, inl, inr, ◌⊎◌, min, unwrap_or,
  ltb, if◌then◌else◌,
}
use echo_services.HashMap
use echo_services.HashMap.{HashMap}
use echo_services.HashMap.Laws.{get-insert, get-remove}
use echo_services.Db.{Db}
use echo_services.Auth.{
  AuthThrottle, auth_lockout, note_auth, throttle_key, failed_once, seconds, wait_for,
}

-- The failures at these times, one after the other.
unfoldable pub after_failures : Db → HashMap AuthThrottle → String → List ℕ → HashMap AuthThrottle
after_failures db fails account [] = fails
after_failures db fails account (t ∷ ts) =
    after_failures db (note_auth t db fails account false) account ts

-- What is on record for a key, or a fresh record.
abbrev entry_of : HashMap AuthThrottle → String → AuthThrottle
entry_of fails k = unwrap_or (HashMap.get fails k) (record { failures = 0; locked_until = none })

-- A record of this many failures, of which the first three lock nothing.
record Counts (n : ℕ) (t : AuthThrottle) : Type 0 where
  count : t.failures ≡ n
  free : n ≤ 3 → t.locked_until ≡ none

entry-note_auth :
    (now : ℕ) (db : Db) (fails : HashMap AuthThrottle) (account : String)
    → HashMap.get (note_auth now db fails account false) (throttle_key db account)
      ≡ some (failed_once now (entry_of fails (throttle_key db account)))
unfolding note_auth
entry-note_auth now db fails account =
    rw
      (
        get-insert fails (throttle_key db account)
            (failed_once now (entry_of fails (throttle_key db account))) (throttle_key db account),
        eq_refl (throttle_key db account),
      )
      refl

failed_once-Counts :
    (now n : ℕ) (t : AuthThrottle)
    → n < 4294967295
    → Counts n t
    → Counts (n + 1) (failed_once now t)
failed_once-Counts now n t h c = record {
  count = omega (arith, h, c.count);
  free = λ le. ground (arith, c.count, c.free);
}

after_failures-Counts :
    (db : Db) (fails : HashMap AuthThrottle) (account : String) (ts : List ℕ) (n : ℕ)
    → n + length ts < 4294967296
    → Counts n (entry_of fails (throttle_key db account))
    → Counts
        (n + length ts)
        (entry_of (after_failures db fails account ts) (throttle_key db account))
unfolding after_failures
after_failures-Counts db fails account [] n h c =
    subst (λ (m : ℕ). Counts m (entry_of fails (throttle_key db account))) {x = n} {y = n + 0}
      (omega arith) c
after_failures-Counts db fails account (t ∷ ts) n h c =
    let k : String = throttle_key db account in
    let next : HashMap AuthThrottle = note_auth t db fails account false in
    let once : Counts (n + 1) (entry_of next k) =
      rw (entry-note_auth t db fails account)
        (failed_once-Counts t n (entry_of fails k) (omega (arith, h)) c) in
    subst (λ (m : ℕ). Counts m (entry_of (after_failures db next account ts) k))
      {x = n + 1 + length ts} {y = n + length (t ∷ ts)} (omega arith)
      (after_failures-Counts db next account ts (n + 1) (omega (arith, h)) once)

-- What `auth_lockout` answers from the end of a lock.
abbrev answer : ℕ → Option ℕ → Option ℕ
answer now none = none
answer now (some until) = if ltb now until then some (wait_for until now) else none

lockout-found :
    (now : ℕ) (db : Db) (fails : HashMap AuthThrottle) (account : String) (t : AuthThrottle)
    → HashMap.get fails (throttle_key db account) ≡ some t
    → auth_lockout now db fails account ≡ answer now t.locked_until
unfolding auth_lockout
lockout-found now db fails account t h = rw (auth_lockout, h) (same t.locked_until)
  where
    same :
        (o : Option ℕ)
        → (elim o [
          | none ↦ none
          | some until ↦ if ltb now until then some (wait_for until now) else none
        ])
          ≡ answer now o
    same none = refl
    same (some until) = refl

-- The failure after n others locks from the fourth on.
locked_lem :
    (at n : ℕ) (t : AuthThrottle)
    → n < 4294967295
    → Counts n t
    → (failed_once at t).locked_until
      ≡ (if ltb n 3 then none else some (at + seconds (min (2 ^ min (n - 3) 9) 300)))
locked_lem at n t h c =
    let q : (t.failures + 1) % 2 ^ 32 ≡ n + 1 = omega (arith, h, c.count) in
    rw q (elim (Bool-cases (ltb n 3)) [
      | inl y ↦ rw y (ground (arith, c.free))
      | inr y ↦
          let b : ltb 3 (n + 1) ≡ true = ground arith in
          let e : n + 1 - 3 - 1 ≡ n - 3 = omega arith in rw (y, b, e) refl
    ])

answers :
    (now : ℕ) (b : Bool) (until : ℕ)
    → answer now (if b then none else some until)
      ≡ (if b then none else if ltb now until then some ((until - now) / 1000000000 + 1) else none)
answers now true until = refl
answers now false until = refl

-- No failure counts against the account: there is none on record, or an attempt at some earlier time,
-- whatever was on record before it, has just succeeded.
abbrev pub IsUntried : Db → HashMap AuthThrottle → String → Type 0
IsUntried db fails account =
    (HashMap.get fails (throttle_key db account) ≡ none)
    ⊎ ((earlier : HashMap AuthThrottle) × (t : ℕ) × (fails ≡ note_auth t db earlier account true))

untried_none :
    (db : Db) (fails : HashMap AuthThrottle) (account : String)
    → IsUntried db fails account
    → HashMap.get fails (throttle_key db account) ≡ none
unfolding note_auth
untried_none db fails account (inl h) = h
untried_none db fails account (inr (earlier, t, e)) =
    let k : String = throttle_key db account in
    ap (λ (m : HashMap AuthThrottle). HashMap.get m k) e
    ∙ rw (get-remove earlier k k, eq_refl k) refl

-- Who guesses at a password is slowed down. Of an account with no failures on record, or whose last
-- attempt succeeded, the first three failures lock nothing; after a failure that comes after n others,
-- n being at least 3, the account is locked from that time on for 2^(n - 3) seconds, but never for
-- more than 300, and for no longer. While it is locked, the answer is the time left in seconds,
-- rounded down, and one more. The condition: the count of failures fits in a `u32`.
pub note_auth-auth_lockout :
    (db : Db) (fails : HashMap AuthThrottle) (account : String) (ts : List ℕ) (at now : ℕ)
    → IsUntried db fails account
    → length ts < 4294967295
    → let n = length ts in
      let until = at + seconds (min (2 ^ min (n - 3) 9) 300) in
      auth_lockout now db
        (note_auth at db (after_failures db fails account ts) account false)
        account
      ≡ (if ltb n 3
          then none
          else if ltb now until
          then some ((until - now) / 1000000000 + 1)
          else none)
note_auth-auth_lockout db fails account ts at now untried l =
    let h = untried_none db fails account untried in
    let k : String = throttle_key db account in
    let before : HashMap AuthThrottle = after_failures db fails account ts in
    let fresh : Counts 0 (entry_of fails k) = rw h (record { count = refl; free = λ _. refl }) in
    let c : Counts (length ts) (entry_of before k) =
      subst (λ (m : ℕ). Counts m (entry_of before k)) {x = 0 + length ts} {y = length ts}
        (omega arith) (after_failures-Counts db fails account ts 0 (omega (arith, l)) fresh) in
    lockout-found now db (note_auth at db before account false) account
      (failed_once at (entry_of before k)) (entry-note_auth at db before account)
    ∙ ap (answer now) (locked_lem at (length ts) (entry_of before k) l c)
    ∙ answers now (ltb (length ts) 3) (at + seconds (min (2 ^ min (length ts - 3) 9) 300))
