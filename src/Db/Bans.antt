-- ===== src/Db/Bans.antt =====
-- The bans that the network holds, and grouped nicks (src/engine/db/network.rs,
-- src/engine/db/mod.rs).
use echo_services.Prelude.{
  ℕ, String, Bool, true, false, not, ◌&&◌, Option, ◌==◌, ltb, if◌then◌else◌, is_none_or, Result, ok,
  err, any, retain, push, eq_ignore_ascii_case,
}
use echo_services.HashMap
use echo_services.Data.{State, NetData, Akill, Filter, Forbid, Notify}
use echo_services.Event.{Event}
use echo_services.Fold.Updates.{key}
use echo_services.Db.{Db, World, commit}
use echo_services.Db.Noted.{edit_net}

pub data RegError : Type 0 where
  exists internal invalid : RegError

pub data XlineKind : Type 0 where
  gline qline rline shun cban : XlineKind

-- `XlineKind::wire`
unfoldable pub xline_wire : XlineKind → String
xline_wire gline = "G"
xline_wire qline = "Q"
xline_wire rline = "R"
xline_wire shun = "SHUN"
xline_wire cban = "CBAN"

pub data ForbidKind : Type 0 where
  nick chan email : ForbidKind

-- `ForbidKind::wire`
unfoldable pub forbid_wire : ForbidKind → String
forbid_wire nick = "NICK"
forbid_wire chan = "CHAN"
forbid_wire email = "EMAIL"

-- Whether an entry with this end has not run out.
abbrev pub is_live : ℕ → Option ℕ → Bool
is_live now expires = is_none_or expires λ e. ltb now e

unfoldable pub akill_add :
    World → Db → XlineKind → String → String → String → Option ℕ → Db × Result Bool RegError
unfolding xline_wire
akill_add w db kind mask setter reason expires =
    let same : Akill → Bool = λ a. a.kind == xline_wire kind && eq_ignore_ascii_case a.mask mask in
    commit w db (Event.akill_added (xline_wire kind) mask setter reason w.now expires) internal
      (edit_net (λ (n : NetData). record n {
        akills = push (retain (λ (a : Akill). not (same a)) n.akills) (record {
          kind = xline_wire kind;
          mask = mask;
          setter = setter;
          reason = reason;
          ts = w.now;
          expires = expires;
        });
      }))
      (not (any (λ (a : Akill). same a && is_live w.now a.expires) db.state.net.akills))

unfoldable pub akill_del : World → Db → XlineKind → String → Db × Result Bool RegError
unfolding xline_wire
akill_del w db kind mask =
    let same : Akill → Bool = λ a. a.kind == xline_wire kind && eq_ignore_ascii_case a.mask mask in
    if any (λ (a : Akill). same a && is_live w.now a.expires) db.state.net.akills
    then commit w db (Event.akill_removed (xline_wire kind) mask) internal
        (edit_net
          (λ (n : NetData). record n { akills = retain (λ (a : Akill). not (same a)) n.akills }))
        true
    else (db, ok false)

unfoldable pub filter_add :
    World → Db → String → String → String → String → String → Option ℕ → Db × Result Bool RegError
filter_add w db pattern action flags setter reason expires =
    let same : Filter → Bool = λ f. eq_ignore_ascii_case f.pattern pattern in
    commit w db (Event.filter_added pattern action flags reason setter w.now expires) internal
      (edit_net (λ (n : NetData). record n {
        filters = push (retain (λ (f : Filter). not (same f)) n.filters) (record {
          pattern = pattern;
          action = action;
          flags = flags;
          reason = reason;
          setter = setter;
          ts = w.now;
          expires = expires;
        });
      }))
      (not (any (λ (f : Filter). same f && is_live w.now f.expires) db.state.net.filters))

unfoldable pub filter_del : World → Db → String → Db × Result Bool RegError
filter_del w db pattern =
    let same : Filter → Bool = λ f. eq_ignore_ascii_case f.pattern pattern in
    if any (λ (f : Filter). same f && is_live w.now f.expires) db.state.net.filters
    then commit w db (Event.filter_removed pattern) internal
        (edit_net
          (λ (n : NetData). record n { filters = retain (λ (f : Filter). not (same f)) n.filters }))
        true
    else (db, ok false)

unfoldable pub forbid_add :
    World → Db → ForbidKind → String → String → String → Db × Result Bool RegError
unfolding forbid_wire
forbid_add w db kind mask setter reason =
    let same : Forbid → Bool =
      λ f. f.kind == forbid_wire kind && eq_ignore_ascii_case f.mask mask in
    commit w db (Event.forbid_added (forbid_wire kind) mask setter reason w.now) internal
      (edit_net (λ (n : NetData). record n {
        forbids = push (retain (λ (f : Forbid). not (same f)) n.forbids) (record {
          kind = forbid_wire kind;
          mask = mask;
          setter = setter;
          reason = reason;
          ts = w.now;
        });
      }))
      (not (any same db.state.net.forbids))

unfoldable pub forbid_del : World → Db → ForbidKind → String → Db × Result Bool RegError
unfolding forbid_wire
forbid_del w db kind mask =
    let same : Forbid → Bool =
      λ f. f.kind == forbid_wire kind && eq_ignore_ascii_case f.mask mask in
    if any same db.state.net.forbids
    then commit w db (Event.forbid_removed (forbid_wire kind) mask) internal
        (edit_net
          (λ (n : NetData). record n { forbids = retain (λ (f : Forbid). not (same f)) n.forbids }))
        true
    else (db, ok false)

unfoldable pub notify_add :
    World → Db → String → String → String → String → Option ℕ → Db × Result Bool RegError
notify_add w db mask flags reason setter expires =
    let same : Notify → Bool = λ x. eq_ignore_ascii_case x.mask mask in
    commit w db (Event.notify_added mask flags reason setter w.now expires) internal
      (edit_net (λ (n : NetData). record n {
        notifies = push (retain (λ (x : Notify). not (same x)) n.notifies) (record {
          mask = mask;
          flags = flags;
          reason = reason;
          setter = setter;
          ts = w.now;
          expires = expires;
        });
      }))
      (not (any same db.state.net.notifies))

unfoldable pub notify_del : World → Db → String → Db × Result Bool RegError
notify_del w db mask =
    let same : Notify → Bool = λ x. eq_ignore_ascii_case x.mask mask in
    if any same db.state.net.notifies
    then commit w db (Event.notify_removed mask) internal
        (edit_net (λ (n : NetData). record n {
          notifies = retain (λ (x : Notify). not (same x)) n.notifies;
        }))
        true
    else (db, ok false)

unfoldable pub group_nick : World → Db → String → String → Db × Result (Unit {0}) RegError
group_nick w db alias account =
    if HashMap.contains_key db.state.accounts (key account)
    then commit w db (Event.nick_grouped alias account) internal
        (λ (s : State). record s { grouped = HashMap.insert s.grouped (key alias) account }) tt
    else (db, err internal)

unfoldable pub ungroup_nick : World → Db → String → Db × Result Bool RegError
ungroup_nick w db alias =
    if HashMap.contains_key db.state.grouped (key alias)
    then commit w db (Event.nick_ungrouped alias) internal
        (λ (s : State). record s { grouped = HashMap.remove s.grouped (key alias) }) true
    else (db, ok false)
