-- ===== src/Db/HostTracing.antt =====
-- The calls of `MemberCall` are traced by the log (src/engine/db/account.rs).
use echo_services.Prelude.{
  String, Bool, true, false, Option, none, some, List, ◌≡◌, refl, ap, ◌==◌, if_rule, option_rule,
  if◌then◌else◌, option_map, any, push, Result, ok,
}
use echo_services.HashMap
use echo_services.Data.{Account, PendingVhost, HostConfig}
use echo_services.Event.{Event}
use echo_services.Fold.{apply}
use echo_services.Fold.Lists
use echo_services.Fold.Updates
use echo_services.Fold.Updates.{key}
use echo_services.Db.{Db, World}
use echo_services.Db.Accounts.{edit_account}
use echo_services.Db.Bans.{RegError}
use echo_services.Db.Calls.{report}
use echo_services.Db.Hosts
use echo_services.Db.ChannelConfig.{same_bool}
use echo_services.Db.Members
use echo_services.Db.MemberCalls
use echo_services.Db.MemberCalls.{MemberCall, member_call}
use echo_services.Db.MemberTracing.{register-Traced, provision-Traced, put-Traced, pubkey-Traced}
use echo_services.Db.Traced.{Traced, commit-Traced, fails, skips}

abbrev Ends : {T : Type 0} → Db → Db × Result T RegError → Type 0
Ends db r = Traced db (report r)

-- Where there may be nothing to do
when-Traced :
    {T : Type 0} (db : Db) (b : Bool) (value : T) (r : Db × Result T RegError)
    → Ends db r
    → Ends db (if b then r else (db, ok value))
when-Traced db b value r h = if_rule (Ends db) b (λ _. h) (λ _. skips RegError db)

unless-Traced :
    {T : Type 0} (db : Db) (b : Bool) (value : T) (r : Db × Result T RegError)
    → (b ≡ false → Ends db r)
    → Ends db (if b then (db, ok value) else r)
unless-Traced db b value r h = if_rule (Ends db) b (λ _. skips RegError db) h

at-Traced :
    {T : Type 0} (db : Db) (o : Option String) (value : T) (f : String → Db × Result T RegError)
    → ((s : String) → Ends db (f s))
    → Ends {T = T} db (elim o [ none ↦ (db, ok value) | some s ↦ f s ])
at-Traced {T = T} db o value f h =
    option_rule (Ends {T = T} db) o (λ _. skips RegError db) (λ s _. h s)

unless_there-new :
    (x : String) (xs : List String)
    → any (λ o. o == x) xs ≡ false
    → push xs x ≡ Lists.add_unless_there x xs
unfolding Lists.add_unless_there
unless_there-new x xs h = rw h refl

-- Every call that registers, provisions or drops an account, sets its key, its auto-joins, its vhost
-- or its pin, or changes the menu of vhosts, either fails, and then writes nothing and leaves the
-- store as it was, or succeeds; then it does so too (there was nothing to do), or it writes one
-- event, in memory and on file, and changes the store in the way that replaying that event does.
pub member_call-Traced : (w : World) (db : Db) (c : MemberCall) → Traced db (member_call w db c)
unfolding member_call apply Members.drop_account Members.ajoin_add Members.ajoin_del Hosts.set_vhost
    Hosts.del_vhost Hosts.take_vhost_request Hosts.vhost_offer_add Hosts.vhost_offer_del
    Hosts.vhost_forbid_add Hosts.vhost_forbid_del Hosts.set_vhost_template
    Hosts.set_account_noexpire Updates.add_ajoin Updates.del_ajoin Lists.add_offer Lists.del_offer
    Lists.add_host_forbid Lists.del_host_forbid
member_call-Traced w db (MemberCalls.register cfg name creds email) =
    register-Traced w cfg db name creds email
member_call-Traced w db (MemberCalls.provision name scram256 scram512 email) =
    provision-Traced w db name scram256 scram512 email
member_call-Traced w db (MemberCalls.set_pubkey validate account pubkey) =
    pubkey-Traced validate w db account pubkey
member_call-Traced w db (MemberCalls.drop account) =
    when-Traced db _ false _
      (commit-Traced w db (Event.account_dropped account) RegError.internal _ true tt refl)
member_call-Traced w db (MemberCalls.join account channel join_key) =
    option_rule (Ends db) (HashMap.get db.state.accounts (key account))
      (λ _. fails db RegError.internal)
      (λ a _.
        commit-Traced w db (Event.ajoin_added account channel join_key) RegError.internal _ _ tt
          refl)
member_call-Traced w db (MemberCalls.part account channel) =
    option_rule (Ends db) (HashMap.get db.state.accounts (key account))
      (λ _. fails db RegError.internal)
      (λ a _.
        when-Traced db _ false _ (
          commit-Traced w db (Event.ajoin_removed account channel) RegError.internal _ true tt
            refl))
member_call-Traced w db (MemberCalls.give_vhost account host setter ttl) =
    put-Traced w db account (Event.vhost_set account host setter w.now _) _ tt refl
member_call-Traced w db (MemberCalls.take_vhost account) =
    option_rule (Ends db) (HashMap.get db.state.accounts (key account))
      (λ _. fails db RegError.internal)
      (λ a _.
        when-Traced db _ false _
          (commit-Traced w db (Event.vhost_deleted account) RegError.internal _ true tt refl))
member_call-Traced w db (MemberCalls.take_request account) =
    option_rule (Ends db) (HashMap.get db.state.accounts (key account))
      (λ _. fails db RegError.internal)
      (λ a _.
        when-Traced db _ (option_map (λ (r : PendingVhost). r.host) a.vhost_request) _
          (commit-Traced w db (Event.vhost_request_cleared account) RegError.internal _ _ tt refl))
member_call-Traced w db (MemberCalls.offer host) = unless-Traced db _ false _ (λ new.
    commit-Traced w db (Event.vhost_offer_added host) RegError.internal _ true tt (
      ap (λ xs. Hosts.edit_hosts (λ (h : HostConfig). record h { offers = xs }) db.state)
        (unless_there-new host db.state.host_cfg.offers new)))
member_call-Traced w db (MemberCalls.forbid pattern) =
    if_rule (Ends db) (w.compiles pattern)
      (λ _. unless-Traced db _ false _ (λ new.
        commit-Traced w db (Event.vhost_forbid_added pattern) RegError.internal _ true tt (
          ap (λ xs. Hosts.edit_hosts (λ (h : HostConfig). record h { forbidden = xs }) db.state)
            (unless_there-new pattern db.state.host_cfg.forbidden new))))
      (λ _. fails db RegError.internal)
member_call-Traced w db (MemberCalls.unoffer index) = at-Traced db _ none _ (λ host.
    commit-Traced w db (Event.vhost_offer_removed host) RegError.internal _ (some host) tt refl)
member_call-Traced w db (MemberCalls.unforbid index) = at-Traced db _ none _ (λ pattern.
    commit-Traced w db (Event.vhost_forbid_removed pattern) RegError.internal _ (some pattern) tt
      refl)
member_call-Traced w db (MemberCalls.template t) =
    commit-Traced w db (Event.vhost_template_set t) RegError.internal _ tt tt refl
member_call-Traced w db (MemberCalls.pin account on) =
    option_rule (Ends db) (HashMap.get db.state.accounts (key account))
      (λ _. fails db RegError.internal)
      (λ a _. unless-Traced db (same_bool a.noexpire on) false _ (λ _.
        commit-Traced w db (Event.account_no_expire account on) RegError.internal
          (edit_account (key account) (λ (a : Account). record a { noexpire = on })) true tt refl))
