-- ===== src/Db/Members.antt =====
-- Registration, credentials, certificates, auto-join, vhosts and expiry pins
-- (src/engine/db/account.rs, register.rs for what they are built on).
use echo_services.Prelude.{
  ℕ, ◌+◌, code, Char, String, Bool, true, false, not, ◌&&◌, ◌||◌, ◌==◌, eqb, leb, Option, none,
  some, [], if◌then◌else◌, is_some, option_map, any, find, push, retain, length, Result, ok, err,
  to_ascii_lowercase, eq_ignore_ascii_case,
}
use echo_services.HashMap
use echo_services.Data.{State, Account, AjoinEntry}
use echo_services.Event.{Event}
use echo_services.Fold.Purge.{purge_account_refs}
use echo_services.Fold.Updates.{key}
use echo_services.Db.{Db, World, commit, account_exists}
use echo_services.Db.Accounts.{put_account, edit_account}
use echo_services.Db.Bans.{RegError}

-- `Credentials`
pub record Credentials : Type 0 where
  pub scram256 : String
  pub scram512 : String

-- What the session has from its configuration
pub record Session : Type 0 where
  pub registration_vouch : Bool
  pub email_enabled : Bool

-- The account that a registration creates
unfoldable pub new_account :
    String → Option String → ℕ → String → String → Option String → Bool → Account
new_account name email ts home scram256 scram512 verified = record {
  name = name;
  email = email;
  ts = ts;
  home = home;
  scram256 = some scram256;
  scram512 = scram512;
  certfps = [];
  pubkey = none;
  verified = verified;
  ajoin = [];
  suspension = none;
  memos = [];
  memo_ignore = [];
  memo_notify = true;
  memo_limit = none;
  greet = "";
  no_autoop = false;
  no_protect = false;
  hide_status = false;
  snotice = false;
  language = none;
  profile = record { avatar = none; bio = none; pronouns = none; timezone = none; url = none };
  vhost = none;
  vhost_request = none;
  last_seen = ts;
  noexpire = false;
  expiry_warned = false;
  oper_note = none;
  swhois = none;
  signore = [];
}

abbrev insert_account : String → Account → State → State
insert_account name a s = record s { accounts = HashMap.insert s.accounts (key name) a }

unfoldable pub register_prepared :
    World → Session → Db → String → Credentials → Option String → Db × Result (Unit {0}) RegError
unfolding new_account
register_prepared w cfg db name creds email =
    if account_exists db name
    then (db, err RegError.exists)
    else let verified : Bool =
        not (cfg.registration_vouch || (cfg.email_enabled && is_some email)) in
      let a : Account =
        new_account name email w.now db.log.origin creds.scram256 (some creds.scram512) verified in
      commit w db (Event.account_registered a) RegError.internal (insert_account name a) tt

-- `(!s.is_empty()).then(|| s.to_string())`
abbrev pub unless_empty : String → Option String
unless_empty s = if s == "" then none else some s

unfoldable pub provision_account :
    World → Db → String → String → String → Option String → Db × Result (Unit {0}) RegError
unfolding new_account
provision_account w db name scram256 scram512 email =
    if name == "" || scram256 == ""
    then (db, err RegError.internal)
    else if account_exists db name
    then commit w db (Event.account_password_set name scram256 scram512) RegError.internal
        (edit_account (key name) (λ (a : Account). record a {
          scram256 = some scram256;
          scram512 = unless_empty scram512;
        }))
        tt
    else let a : Account =
        new_account name email w.now db.log.origin scram256 (unless_empty scram512) true in
      commit w db (Event.account_registered a) RegError.internal (insert_account name a) tt

unfoldable pub set_credentials : World → Db → String → Credentials → Db × Result (Unit {0}) RegError
unfolding put_account
set_credentials w db account creds =
    put_account w db account (Event.account_password_set account creds.scram256 creds.scram512)
      (λ a. record a { scram256 = some creds.scram256; scram512 = some creds.scram512 })

-- `validate` is `ecdsa::validate_pubkey`, the normal form of a valid key.
unfoldable pub set_pubkey :
    (String → Option String) → World → Db → String → Option String → Db × Result (Unit {0}) RegError
unfolding put_account
set_pubkey validate w db account pubkey =
    if HashMap.contains_key db.state.accounts (key account)
    then elim pubkey [
      | none ↦
          put_account w db account (Event.account_pubkey_set account none)
            (λ a. record a { pubkey = none })
      | some raw ↦ elim (validate raw) [
        | none ↦ (db, err RegError.invalid)
        | some valid ↦
            put_account w db account (Event.account_pubkey_set account (some valid))
              (λ a. record a { pubkey = some valid })
      ]
    ]
    else (db, err RegError.internal)

unfoldable pub drop_account : World → Db → String → Db × Result Bool RegError
drop_account w db account =
    if HashMap.contains_key db.state.accounts (key account)
    then commit w db (Event.account_dropped account) RegError.internal
        (λ (s : State).
          purge_account_refs account
            (record s { accounts = HashMap.remove s.accounts (key account) }))
        true
    else (db, ok false)

pub data CertError : Type 0 where
  invalid in_use no_account full internal : CertError

-- `c.is_ascii_hexdigit()`
unfoldable pub is_hex : Char → Bool
is_hex c =
    (leb b'0' (code c) && leb (code c) b'9')
    || (leb b'A' (code c) && leb (code c) b'F')
    || (leb b'a' (code c) && leb (code c) b'f')

-- The characters that are no colons, and whether all are hexadecimal digits or colons
unfoldable pub fp_digits : String → ℕ
fp_digits String.[] = 0
fp_digits (String.◌∷◌ c s) = if eqb (code c) b':' then fp_digits s else fp_digits s + 1

unfoldable pub fp_chars : String → Bool
unfolding is_hex
fp_chars String.[] = true
fp_chars (String.◌∷◌ c s) = (is_hex c || eqb (code c) b':') && fp_chars s

unfoldable pub valid_fp : String → Bool
unfolding fp_digits fp_chars
valid_fp fp = leb 32 (fp_digits fp) && leb (fp_digits fp) 128 && fp_chars fp

abbrev pub has_cert : String → Account → Bool
has_cert fp a = any (λ c. c == fp) a.certfps

unfoldable pub certfp_owner : Db → String → Option String
certfp_owner db fp =
    option_map (λ (a : Account). a.name)
      (find (has_cert (to_ascii_lowercase fp)) (HashMap.values db.state.accounts))

-- `MAX_CERTFP`
abbrev pub max_certfp : ℕ
max_certfp = 25

unfoldable pub certfp_add : World → Db → String → String → Db × Result (Unit {0}) CertError
unfolding certfp_owner valid_fp
certfp_add w db account raw =
    let fp : String = to_ascii_lowercase raw in
    if valid_fp fp
    then if is_some (certfp_owner db fp)
      then (db, err in_use)
      else elim (HashMap.get db.state.accounts (key account)) [
        | none ↦ (db, err no_account)
        | some a0 ↦
            if leb max_certfp (length a0.certfps)
            then (db, err full)
            else commit w db (Event.cert_added account fp) internal
                (edit_account (key account)
                  (λ (a : Account). record a { certfps = push a.certfps fp }))
                tt
      ]
    else (db, err invalid)

unfoldable pub certfp_del : World → Db → String → String → Db × Result Bool CertError
certfp_del w db account raw =
    let fp : String = to_ascii_lowercase raw in
    elim (HashMap.get db.state.accounts (key account)) [
      | none ↦ (db, err no_account)
      | some a0 ↦
          if has_cert fp a0
          then commit w db (Event.cert_removed account fp) internal
              (edit_account (key account)
                (λ (a : Account). record a { certfps = retain (λ c. not (c == fp)) a.certfps }))
              true
          else (db, ok false)
    ]

abbrev pub joins : String → AjoinEntry → Bool
joins channel e = eq_ignore_ascii_case e.channel channel

unfoldable pub ajoin_add : World → Db → String → String → String → Db × Result Bool RegError
ajoin_add w db account channel join_key = elim (HashMap.get db.state.accounts (key account)) [
  | none ↦ (db, err RegError.internal)
  | some a0 ↦
      commit w db (Event.ajoin_added account channel join_key) RegError.internal
        (edit_account (key account) (λ (a : Account). record a {
          ajoin =
              push (retain (λ e. not (joins channel e)) a.ajoin)
                (record { channel = channel; key = join_key });
        }))
        (not (any (joins channel) a0.ajoin))
]

unfoldable pub ajoin_del : World → Db → String → String → Db × Result Bool RegError
ajoin_del w db account channel = elim (HashMap.get db.state.accounts (key account)) [
  | none ↦ (db, err RegError.internal)
  | some a0 ↦
      if any (joins channel) a0.ajoin
      then commit w db (Event.ajoin_removed account channel) RegError.internal
          (edit_account (key account)
            (λ (a : Account). record a { ajoin = retain (λ e. not (joins channel e)) a.ajoin }))
          true
      else (db, ok false)
]
