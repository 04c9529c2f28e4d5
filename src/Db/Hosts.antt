-- ===== src/Db/Hosts.antt =====
-- Vhosts, their menu and the pins against expiry (src/engine/db/account.rs).
use echo_services.Prelude.{
  ℕ, zero, suc, ◌+◌, ◌%◌, ◌^◌, String, Bool, true, false, not, ◌==◌, Option, none, some, List,
  if◌then◌else◌, is_some, option_map, any, push, retain, get_elem?, Result, ok, err,
}
use echo_services.HashMap
use echo_services.Data.{State, Account, HostConfig, PendingVhost}
use echo_services.Event.{Event}
use echo_services.Fold.Updates.{key}
use echo_services.Db.{Db, World, commit}
use echo_services.Db.ChannelConfig.{same_bool}
use echo_services.Db.Accounts.{put_account, edit_account}
use echo_services.Db.Bans.{RegError}

-- `ttl.map(|t| ts + t)`
unfoldable pub set_vhost :
    World → Db → String → String → String → Option ℕ → Db × Result (Unit {0}) RegError
unfolding put_account
set_vhost w db account host setter ttl =
    let expires : Option ℕ = option_map (λ t. (w.now + t) % 2 ^ 64) ttl in
    put_account w db account (Event.vhost_set account host setter w.now expires) (λ a. record a {
      vhost = some (record { host = host; setter = setter; ts = w.now; expires = expires });
    })

unfoldable pub del_vhost : World → Db → String → Db × Result Bool RegError
del_vhost w db account = elim (HashMap.get db.state.accounts (key account)) [
  | none ↦ (db, err RegError.internal)
  | some a0 ↦
      if is_some a0.vhost
      then commit w db (Event.vhost_deleted account) RegError.internal
          (edit_account (key account) (λ (a : Account). record a { vhost = none })) true
      else (db, ok false)
]

unfoldable pub take_vhost_request : World → Db → String → Db × Result (Option String) RegError
take_vhost_request w db account = elim (HashMap.get db.state.accounts (key account)) [
  | none ↦ (db, err RegError.internal)
  | some a0 ↦
      let host : Option String = option_map (λ (r : PendingVhost). r.host) a0.vhost_request in
      if is_some host
      then commit w db (Event.vhost_request_cleared account) RegError.internal
          (edit_account (key account) (λ (a : Account). record a { vhost_request = none })) host
      else (db, ok host)
]

-- A write to `self.host_cfg`
abbrev pub edit_hosts : (HostConfig → HostConfig) → State → State
edit_hosts f s = record s { host_cfg = f s.host_cfg }

unfoldable pub vhost_offer_add : World → Db → String → Db × Result Bool RegError
vhost_offer_add w db host =
    if any (λ o. o == host) db.state.host_cfg.offers
    then (db, ok false)
    else commit w db (Event.vhost_offer_added host) RegError.internal
        (edit_hosts (λ (h : HostConfig). record h { offers = push h.offers host })) true

-- The entry at a place counted from 1
abbrev pub entry_at : List String → ℕ → Option String
entry_at xs zero = none
entry_at xs (suc i) = get_elem? xs i

unfoldable pub vhost_offer_del : World → Db → ℕ → Db × Result (Option String) RegError
vhost_offer_del w db index = elim (entry_at db.state.host_cfg.offers index) [
  | none ↦ (db, ok none)
  | some host ↦
      commit w db (Event.vhost_offer_removed host) RegError.internal
        (edit_hosts
          (λ (h : HostConfig). record h { offers = retain (λ o. not (o == host)) h.offers }))
        (some host)
]

unfoldable pub vhost_forbid_add : World → Db → String → Db × Result Bool RegError
vhost_forbid_add w db pattern =
    if w.compiles pattern
    then if any (λ o. o == pattern) db.state.host_cfg.forbidden
      then (db, ok false)
      else commit w db (Event.vhost_forbid_added pattern) RegError.internal
          (edit_hosts (λ (h : HostConfig). record h { forbidden = push h.forbidden pattern })) true
    else (db, err RegError.internal)

unfoldable pub vhost_forbid_del : World → Db → ℕ → Db × Result (Option String) RegError
vhost_forbid_del w db index = elim (entry_at db.state.host_cfg.forbidden index) [
  | none ↦ (db, ok none)
  | some pattern ↦
      commit w db (Event.vhost_forbid_removed pattern) RegError.internal
        (edit_hosts (λ (h : HostConfig). record h {
          forbidden = retain (λ o. not (o == pattern)) h.forbidden;
        }))
        (some pattern)
]

unfoldable pub set_vhost_template : World → Db → Option String → Db × Result (Unit {0}) RegError
set_vhost_template w db template =
    commit w db (Event.vhost_template_set template) RegError.internal
      (edit_hosts (λ (h : HostConfig). record h { template = template })) tt

unfoldable pub set_account_noexpire : World → Db → String → Bool → Db × Result Bool RegError
set_account_noexpire w db account on = elim (HashMap.get db.state.accounts (key account)) [
  | none ↦ (db, err RegError.internal)
  | some a0 ↦
      if same_bool a0.noexpire on
      then (db, ok false)
      else commit w db (Event.account_no_expire account on) RegError.internal
          (edit_account (key account) (λ (a : Account). record a { noexpire = on })) true
]
