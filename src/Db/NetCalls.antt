-- ===== src/Db/NetCalls.antt =====
-- The calls that change bans and grouped nicks, as data (src/engine/db/network.rs,
-- src/engine/db/mod.rs).
use echo_services.Prelude.{ℕ, String, Option}
use echo_services.Db.{Db, World}
use echo_services.Db.Bans
use echo_services.Db.Bans.{XlineKind, ForbidKind, RegError}
use echo_services.Db.Calls.{report}

pub data NetCall : Type 0 where
  add_akill : XlineKind → String → String → String → Option ℕ → NetCall
  del_akill : XlineKind → String → NetCall
  add_filter : String → String → String → String → String → Option ℕ → NetCall
  del_filter del_notify ungroup : String → NetCall
  add_forbid : ForbidKind → String → String → String → NetCall
  del_forbid : ForbidKind → String → NetCall
  add_notify : String → String → String → String → Option ℕ → NetCall
  group : String → String → NetCall

unfoldable pub net_call : World → Db → NetCall → Db × Option RegError
net_call w db (add_akill kind mask setter reason expires) =
    report (Bans.akill_add w db kind mask setter reason expires)
net_call w db (del_akill kind mask) = report (Bans.akill_del w db kind mask)
net_call w db (add_filter pattern action flags setter reason expires) =
    report (Bans.filter_add w db pattern action flags setter reason expires)
net_call w db (del_filter pattern) = report (Bans.filter_del w db pattern)
net_call w db (del_notify mask) = report (Bans.notify_del w db mask)
net_call w db (ungroup alias) = report (Bans.ungroup_nick w db alias)
net_call w db (add_forbid kind mask setter reason) =
    report (Bans.forbid_add w db kind mask setter reason)
net_call w db (del_forbid kind mask) = report (Bans.forbid_del w db kind mask)
net_call w db (add_notify mask flags reason setter expires) =
    report (Bans.notify_add w db mask flags reason setter expires)
net_call w db (group alias account) = report (Bans.group_nick w db alias account)
