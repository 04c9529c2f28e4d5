-- ===== src/Db/AccountTracing.antt =====
-- The calls of `AccountCall` are traced by the log (src/engine/db/account.rs).
use echo_services.Prelude.{
  to_ascii_lowercase, String, true, Option, none, ◌≡◌, refl, if_rule, option_rule, is_none, Result,
}
use echo_services.HashMap
use echo_services.Data.{Account}
use echo_services.Data.Profiles
use echo_services.Data.Profiles.{ProfileField, avatar, bio, pronouns, timezone, url}
use echo_services.Event.{Event}
use echo_services.Fold.{apply}
use echo_services.Fold.Updates
use echo_services.Fold.Updates.{key}
use echo_services.Db.{Db, World}
use echo_services.Db.Accounts
use echo_services.Db.Accounts.{AccountCall, account_call, put_account, edit_account}
use echo_services.Db.Bans.{RegError, internal}
use echo_services.Db.Calls.{report}
use echo_services.Db.Traced.{Traced, Admits, commit-Traced, fails, skips}

abbrev Ends : {T : Type 0} → Db → Db × Result T RegError → Type 0
Ends db r = Traced db (report r)

put_account-Traced :
    (w : World) (db : Db) (account : String) (event : Event) (f : Account → Account)
    → Admits db.state event
    → edit_account (key account) f db.state ≡ apply db.state event
    → Ends db (put_account w db account event f)
unfolding put_account
put_account-Traced w db account event f a h =
    if_rule (Ends db) (HashMap.contains_key db.state.accounts (key account))
      (λ _. commit-Traced w db event internal (edit_account (key account) f) tt a h)
      λ _. fails db internal

set_profile-Traced :
    (w : World) (db : Db) (account : String) (field : ProfileField) (value : Option String)
    → Ends db (Accounts.set_profile w db account field value)
unfolding apply Accounts.set_profile Accounts.meta_key Updates.set_profile_field Profiles.parse
    to_ascii_lowercase
set_profile-Traced w db account avatar value =
    put_account-Traced w db account (Event.account_profile_set account "avatar" value) _ tt refl
set_profile-Traced w db account bio value =
    put_account-Traced w db account (Event.account_profile_set account "bio" value) _ tt refl
set_profile-Traced w db account pronouns value =
    put_account-Traced w db account (Event.account_profile_set account "pronouns" value) _ tt refl
set_profile-Traced w db account timezone value =
    put_account-Traced w db account (Event.account_profile_set account "timezone" value) _ tt refl
set_profile-Traced w db account url value =
    put_account-Traced w db account (Event.account_profile_set account "url" value) _ tt refl

-- Each of these calls on an account: to mark it as verified, to suspend it or lift that, to set its
-- email, greeting, language, swhois text, services ignores, automatic op, kill protection, hidden
-- status or notices of services, and a field of its profile. The call either fails, and then writes
-- nothing and leaves the store as it was, or succeeds; then it does so too (there was no suspension
-- to lift), or it writes one event, in memory and on file, and changes the store in the way that
-- replaying that event does. It says nothing of the other calls, such as the credentials, the memo
-- settings and the notes on an account.
pub account_call-Traced :
    (w : World) (db : Db) (account : String) (c : AccountCall)
    → Traced db (account_call w db account c)
unfolding apply account_call Accounts.verify_account Accounts.unsuspend_account
    Accounts.suspend_account Accounts.set_email Accounts.set_greet Accounts.set_language
    Accounts.set_swhois Accounts.set_signore Accounts.set_account_autoop Accounts.set_account_kill
    Accounts.set_account_hide_status Accounts.set_account_snotice
account_call-Traced w db account Accounts.verify =
    put_account-Traced w db account (Event.account_verified account) _ tt refl
account_call-Traced w db account Accounts.unsuspend =
    option_rule (Ends db) (HashMap.get db.state.accounts (key account)) (λ _. fails db internal)
      λ a _.
        if_rule (Ends db) (is_none a.suspension) (λ _. skips RegError db)
          λ _.
            commit-Traced w db (Event.account_unsuspended account) internal
              (edit_account (key account) (λ (x : Account). record x { suspension = none })) true tt
              refl
account_call-Traced w db account (Accounts.change_email email) =
    put_account-Traced w db account (Event.account_email_set account email) _ tt refl
account_call-Traced w db account (Accounts.change_greet greet) =
    put_account-Traced w db account (Event.account_greet_set account greet) _ tt refl
account_call-Traced w db account (Accounts.change_language language) =
    put_account-Traced w db account (Event.account_language_set account language) _ tt refl
account_call-Traced w db account (Accounts.change_swhois text) =
    put_account-Traced w db account (Event.account_swhois_set account text) _ tt refl
account_call-Traced w db account (Accounts.change_signore list) =
    put_account-Traced w db account (Event.account_signore_set account list) _ tt refl
account_call-Traced w db account (Accounts.change_account_autoop on) =
    put_account-Traced w db account (Event.account_auto_op_set account on) _ tt refl
account_call-Traced w db account (Accounts.change_account_kill on) =
    put_account-Traced w db account (Event.account_kill_set account on) _ tt refl
account_call-Traced w db account (Accounts.change_account_hide_status on) =
    put_account-Traced w db account (Event.account_hide_status_set account on) _ tt refl
account_call-Traced w db account (Accounts.change_account_snotice on) =
    put_account-Traced w db account (Event.account_snotice_set account on) _ tt refl
account_call-Traced w db account (Accounts.change_profile field value) =
    set_profile-Traced w db account field value
account_call-Traced w db account (Accounts.suspend by reason expires) =
    put_account-Traced w db account (Event.account_suspended account by reason w.now expires) _ tt
      refl
