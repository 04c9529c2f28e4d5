-- ===== src/Auth.antt =====
-- Emailed codes and the throttle on passwords (src/engine/db/account.rs, src/engine/db/mod.rs). An
-- `Instant` is a number of nanoseconds; the text of a fresh code is an argument.
pub mod Codes
pub mod Throttle
use echo_services.Prelude.{
  ℕ, ◌+◌, ◌-◌, ◌*◌, ◌/◌, ◌%◌, ◌^◌, String, Bool, true, false, ◌&&◌, Option, none, some, ◌==◌, eqb,
  leb, ltb, min, option_map, unwrap_or, if◌then◌else◌,
}
use echo_services.HashMap
use echo_services.HashMap.{HashMap}
use echo_services.Fold.Updates.{key}
use echo_services.Db.{Db, resolved_key}

pub data CodeKind : Type 0 where
  reset confirm : CodeKind

unfoldable pub same_kind : CodeKind → CodeKind → Bool
same_kind reset reset = true
same_kind reset confirm = false
same_kind confirm reset = false
same_kind confirm confirm = true

pub record PendingCode : Type 0 where
  pub kind : CodeKind
  pub code : String
  pub issued : ℕ
  pub deadline : ℕ
  pub tries_left : ℕ

pub record AuthThrottle : Type 0 where
  pub failures : ℕ
  pub locked_until : Option ℕ

-- `CODE_TRIES`
abbrev pub code_tries : ℕ
code_tries = 5

-- `AUTH_FREE_TRIES`
abbrev pub auth_free_tries : ℕ
auth_free_tries = 3

-- `AUTH_MAX_BACKOFF_SECS`
abbrev pub auth_max_backoff_secs : ℕ
auth_max_backoff_secs = 300

-- `CODE_ISSUE_COOLDOWN`, in seconds
abbrev pub code_issue_cooldown : ℕ
code_issue_cooldown = 60

-- `Duration::from_secs`
abbrev pub seconds : ℕ → ℕ
seconds n = n * 1000000000

-- What is left until an instant: the whole seconds of it, and one more.
abbrev pub wait_for : ℕ → ℕ → ℕ
wait_for until now = (until - now) / 1000000000 + 1

unfoldable pub issue_code :
    ℕ → HashMap PendingCode → String → CodeKind → String → HashMap PendingCode
issue_code now codes account kind code = HashMap.insert codes (key account) (record {
  kind = kind;
  code = code;
  issued = now;
  deadline = now + seconds 900;
  tries_left = code_tries;
})

-- `checked_duration_since` answers where the instant is not in the past.
unfoldable pub code_issue_wait : ℕ → HashMap PendingCode → String → ℕ
code_issue_wait now codes account = elim (HashMap.get codes (key account)) [
  | none ↦ 0
  | some pc ↦
      if leb now (pc.issued + seconds code_issue_cooldown)
      then wait_for (pc.issued + seconds code_issue_cooldown) now
      else 0
]

-- A wrong guess: the code is dropped with its last try.
abbrev pub burn : HashMap PendingCode → String → PendingCode → HashMap PendingCode
burn codes k pc =
    if eqb (pc.tries_left - 1) 0
    then HashMap.remove codes k
    else HashMap.insert codes k (record pc { tries_left = pc.tries_left - 1 })

unfoldable pub take_code :
    ℕ → HashMap PendingCode → String → CodeKind → String → HashMap PendingCode × Bool
unfolding same_kind
take_code now codes account kind code = elim (HashMap.get codes (key account)) [
  | none ↦ (codes, false)
  | some pc ↦
      if leb pc.deadline now
      then (HashMap.remove codes (key account), false)
      else if same_kind pc.kind kind && pc.code == code
      then (HashMap.remove codes (key account), true)
      else (burn codes (key account) pc, false)
]

-- The key that all spellings of one account share.
abbrev pub throttle_key : Db → String → String
throttle_key db account = unwrap_or (resolved_key db account) (key account)

unfoldable pub auth_lockout : ℕ → Db → HashMap AuthThrottle → String → Option ℕ
auth_lockout now db auth_fails account = elim (HashMap.get auth_fails (throttle_key db account)) [
  | none ↦ none
  | some t ↦ elim t.locked_until [
    | none ↦ none
    | some until ↦ if ltb now until then some (wait_for until now) else none
  ]
]

-- The seconds that this many failures lock an account for: they double up to the cap.
abbrev pub backoff : ℕ → ℕ
backoff n = min (2 ^ min (n - auth_free_tries - 1) 9) auth_max_backoff_secs

abbrev pub failed_once : ℕ → AuthThrottle → AuthThrottle
failed_once now t =
    let n : ℕ = (t.failures + 1) % 2 ^ 32 in
    record {
      failures = n;
      locked_until =
          if ltb auth_free_tries n then some (now + seconds (backoff n)) else t.locked_until;
    }

unfoldable pub note_auth : ℕ → Db → HashMap AuthThrottle → String → Bool → HashMap AuthThrottle
note_auth now db auth_fails account true = HashMap.remove auth_fails (throttle_key db account)
note_auth now db auth_fails account false = HashMap.insert auth_fails (throttle_key db account) (
    failed_once now (
      unwrap_or (HashMap.get auth_fails (throttle_key db account))
        (record { failures = 0; locked_until = none })))
