-- ===== src/Db/NetTracing.antt =====
-- Each call on bans and grouped nicks is traced by the log (src/engine/db/network.rs,
-- src/engine/db/mod.rs).
use echo_services.Prelude.{Bool, refl, if_rule, if◌then◌else◌, Result, ok, err}
use echo_services.Event.{Event}
use echo_services.Fold.{apply}
use echo_services.Fold.Lists
use echo_services.Db.{Db, World}
use echo_services.Db.Bans
use echo_services.Db.Bans.{RegError, internal, xline_wire, forbid_wire}
use echo_services.Db.Calls.{report}
use echo_services.Db.NetCalls
use echo_services.Db.NetCalls.{NetCall, net_call}
use echo_services.Db.Traced.{Traced, commit-Traced, fails, skips}

abbrev Ends : {T : Type 0} → Db → Db × Result T RegError → Type 0
Ends db r = Traced db (report r)

when-Traced :
    {T : Type 0} (db : Db) (b : Bool) (value : T) (r : Db × Result T RegError)
    → Ends db r
    → Ends db (if b then r else (db, ok value))
when-Traced db b value r h = if_rule (Ends db) b (λ _. h) λ _. skips RegError db

present-Traced :
    {T : Type 0} (db : Db) (b : Bool) (r : Db × Result T RegError)
    → Ends db r
    → Ends db (if b then r else (db, err internal))
present-Traced db b r h = if_rule (Ends db) b (λ _. h) λ _. fails db internal

-- Every call on bans or grouped nicks either fails, and then writes nothing and leaves the store as
-- it was, or succeeds; then it does so too (there was nothing to lift), or it writes one event, in
-- memory and on file, and changes the store in the way that replaying that event does.
pub net_call-Traced : (w : World) (db : Db) (c : NetCall) → Traced db (net_call w db c)
unfolding apply net_call Bans.akill_add Bans.akill_del Bans.filter_add Bans.filter_del
    Bans.forbid_add Bans.forbid_del Bans.notify_add Bans.notify_del Bans.group_nick
    Bans.ungroup_nick Lists.add_akill Lists.del_akill Lists.add_filter Lists.del_filter
    Lists.add_forbid Lists.del_forbid Lists.add_notify Lists.del_notify
net_call-Traced w db (NetCalls.add_akill kind mask setter reason expires) =
    commit-Traced w db (Event.akill_added (xline_wire kind) mask setter reason w.now expires)
      internal _ _ tt refl
net_call-Traced w db (NetCalls.del_akill kind mask) =
    when-Traced db _ _ _
      (commit-Traced w db (Event.akill_removed (xline_wire kind) mask) internal _ _ tt refl)
net_call-Traced w db (NetCalls.add_filter pattern action flags setter reason expires) =
    commit-Traced w db (Event.filter_added pattern action flags reason setter w.now expires)
      internal _ _ tt refl
net_call-Traced w db (NetCalls.del_filter pattern) =
    when-Traced db _ _ _ (commit-Traced w db (Event.filter_removed pattern) internal _ _ tt refl)
net_call-Traced w db (NetCalls.del_notify mask) =
    when-Traced db _ _ _ (commit-Traced w db (Event.notify_removed mask) internal _ _ tt refl)
net_call-Traced w db (NetCalls.ungroup alias) =
    when-Traced db _ _ _ (commit-Traced w db (Event.nick_ungrouped alias) internal _ _ tt refl)
net_call-Traced w db (NetCalls.add_forbid kind mask setter reason) =
    commit-Traced w db (Event.forbid_added (forbid_wire kind) mask setter reason w.now) internal _ _
      tt refl
net_call-Traced w db (NetCalls.del_forbid kind mask) =
    when-Traced db _ _ _
      (commit-Traced w db (Event.forbid_removed (forbid_wire kind) mask) internal _ _ tt refl)
net_call-Traced w db (NetCalls.add_notify mask flags reason setter expires) =
    commit-Traced w db (Event.notify_added mask flags reason setter w.now expires) internal _ _ tt
      refl
net_call-Traced w db (NetCalls.group alias account) =
    present-Traced db _ _
      (commit-Traced w db (Event.nick_grouped alias account) internal _ _ tt refl)
