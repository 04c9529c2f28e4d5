-- ===== src/Db/Accounts.antt =====
-- The settings of an account (src/engine/db/account.rs).
use echo_services.Prelude.{
  ℕ, String, Bool, true, false, not, Option, none, some, List, if◌then◌else◌, is_none, Result, ok,
  err,
}
use echo_services.HashMap
use echo_services.Data.{State, Account}
use echo_services.Data.Profiles
use echo_services.Data.Profiles.{ProfileField, avatar, bio, pronouns, timezone, url}
use echo_services.Event.{Event}
use echo_services.Fold.Updates.{key}
use echo_services.Db.{Db, World, commit}
use echo_services.Db.Bans.{RegError, internal}
use echo_services.Db.Calls.{report}

-- `self.accounts.get_mut(&k).unwrap()` and the writes to it
abbrev pub edit_account : String → (Account → Account) → State → State
edit_account k f s = record s { accounts = HashMap.modify s.accounts k f }

-- The guard on the account, the event, and the writes to the account, which the setters share.
unfoldable pub put_account :
    World → Db → String → Event → (Account → Account) → Db × Result (Unit {0}) RegError
put_account w db account event f =
    if HashMap.contains_key db.state.accounts (key account)
    then commit w db event internal (edit_account (key account) f) tt
    else (db, err internal)

unfoldable pub verify_account : World → Db → String → Db × Result (Unit {0}) RegError
unfolding put_account
verify_account w db account =
    put_account w db account (Event.account_verified account) (λ a. record a { verified = true })

unfoldable pub set_email : World → Db → String → Option String → Db × Result (Unit {0}) RegError
unfolding put_account
set_email w db account email =
    put_account w db account (Event.account_email_set account email)
      (λ a. record a { email = email })

unfoldable pub set_greet : World → Db → String → String → Db × Result (Unit {0}) RegError
unfolding put_account
set_greet w db account greet =
    put_account w db account (Event.account_greet_set account greet)
      (λ a. record a { greet = greet })

unfoldable pub set_language : World → Db → String → Option String → Db × Result (Unit {0}) RegError
unfolding put_account
set_language w db account language =
    put_account w db account (Event.account_language_set account language)
      (λ a. record a { language = language })

unfoldable pub set_swhois : World → Db → String → Option String → Db × Result (Unit {0}) RegError
unfolding put_account
set_swhois w db account text =
    put_account w db account (Event.account_swhois_set account text)
      (λ a. record a { swhois = text })

unfoldable pub set_signore : World → Db → String → List String → Db × Result (Unit {0}) RegError
unfolding put_account
set_signore w db account list =
    put_account w db account (Event.account_signore_set account list)
      (λ a. record a { signore = list })

unfoldable pub set_account_autoop : World → Db → String → Bool → Db × Result (Unit {0}) RegError
unfolding put_account
set_account_autoop w db account on =
    put_account w db account (Event.account_auto_op_set account on)
      (λ a. record a { no_autoop = not on })

unfoldable pub set_account_kill : World → Db → String → Bool → Db × Result (Unit {0}) RegError
unfolding put_account
set_account_kill w db account on =
    put_account w db account (Event.account_kill_set account on)
      (λ a. record a { no_protect = not on })

unfoldable pub set_account_hide_status :
    World → Db → String → Bool → Db × Result (Unit {0}) RegError
unfolding put_account
set_account_hide_status w db account on =
    put_account w db account (Event.account_hide_status_set account on)
      (λ a. record a { hide_status = on })

unfoldable pub set_account_snotice : World → Db → String → Bool → Db × Result (Unit {0}) RegError
unfolding put_account
set_account_snotice w db account on =
    put_account w db account (Event.account_snotice_set account on) (λ a. record a { snotice = on })

-- `ProfileField::meta_key`
unfoldable pub meta_key : ProfileField → String
meta_key avatar = "avatar"
meta_key bio = "bio"
meta_key pronouns = "pronouns"
meta_key timezone = "timezone"
meta_key url = "url"

unfoldable pub set_profile :
    World → Db → String → ProfileField → Option String → Db × Result (Unit {0}) RegError
unfolding put_account meta_key
set_profile w db account field value =
    put_account w db account (Event.account_profile_set account (meta_key field) value)
      (λ a. record a { profile = Profiles.set a.profile field value })

unfoldable pub suspend_account :
    World → Db → String → String → String → Option ℕ → Db × Result (Unit {0}) RegError
unfolding put_account
suspend_account w db account by reason expires =
    put_account w db account (Event.account_suspended account by reason w.now expires) (λ a.
      record a {
        suspension = some (record { by = by; reason = reason; ts = w.now; expires = expires });
      })

unfoldable pub unsuspend_account : World → Db → String → Db × Result Bool RegError
unsuspend_account w db account = elim (HashMap.get db.state.accounts (key account)) [
  | none ↦ (db, err internal)
  | some a0 ↦
      if is_none a0.suspension
      then (db, ok false)
      else commit w db (Event.account_unsuspended account) internal
          (edit_account (key account) (λ (a : Account). record a { suspension = none })) true
]

-- Calls that change the settings of an account, as data.
pub data AccountCall : Type 0 where
  verify unsuspend : AccountCall
  change_email : Option String → AccountCall
  change_greet : String → AccountCall
  change_language : Option String → AccountCall
  change_swhois : Option String → AccountCall
  change_signore : List String → AccountCall
  change_account_autoop : Bool → AccountCall
  change_account_kill : Bool → AccountCall
  change_account_hide_status : Bool → AccountCall
  change_account_snotice : Bool → AccountCall
  change_profile : ProfileField → Option String → AccountCall
  suspend : String → String → Option ℕ → AccountCall

unfoldable pub account_call : World → Db → String → AccountCall → Db × Option RegError
account_call w db account verify = report (verify_account w db account)
account_call w db account unsuspend = report (unsuspend_account w db account)
account_call w db account (change_email email) = report (set_email w db account email)
account_call w db account (change_greet greet) = report (set_greet w db account greet)
account_call w db account (change_language language) = report (set_language w db account language)
account_call w db account (change_swhois text) = report (set_swhois w db account text)
account_call w db account (change_signore list) = report (set_signore w db account list)
account_call w db account (change_account_autoop on) = report (set_account_autoop w db account on)
account_call w db account (change_account_kill on) = report (set_account_kill w db account on)
account_call w db account (change_account_hide_status on) =
    report (set_account_hide_status w db account on)
account_call w db account (change_account_snotice on) = report (set_account_snotice w db account on)
account_call w db account (change_profile field value) =
    report (set_profile w db account field value)
account_call w db account (suspend by reason expires) =
    report (suspend_account w db account by reason expires)
