-- ===== src/Db/Groups.antt =====
-- The calls on groups of accounts (src/engine/db/network.rs).
use echo_services.Prelude.{
  code, String, Bool, true, false, not, Option, none, some, List, [], ◌∷◌, ◌||◌, ◌==◌, eqb,
  if◌then◌else◌, is_some, Result, ok, err, any, find, push, modify_first, retain,
  eq_ignore_ascii_case,
}
use echo_services.Data.{State, Group, GroupMember}
use echo_services.Event.{Event}
use echo_services.Fold.Updates.{key}
use echo_services.Db.{Db, World, ChanError, no_channel, exists, invalid_pattern, internal, commit}
use echo_services.Db.Calls.{report}

-- A write to `self.net.groups`
abbrev pub edit_groups : (List Group → List Group) → State → State
edit_groups f s = record s { net = record (s.net) { groups = f s.net.groups } }

-- `iter().find(|g| key(&g.name) == k)`
abbrev pub held_group : Db → String → Option Group
held_group db name = find (λ g. key g.name == key name) db.state.net.groups

-- `!name.starts_with('!') || name.len() < 2`, and not
unfoldable pub is_group_name : String → Bool
is_group_name String.[] = false
is_group_name (String.◌∷◌ c String.[]) = false
is_group_name (String.◌∷◌ c (String.◌∷◌ d s)) = eqb (code c) b'!'

unfoldable pub group_register : World → Db → String → String → Db × Result (Unit {0}) ChanError
unfolding is_group_name
group_register w db name founder =
    if is_group_name name
    then if is_some (held_group db name)
      then (db, err exists)
      else commit w db (Event.group_registered name founder w.now db.log.origin) internal
          (edit_groups (λ (gs : List Group). push gs (record {
            name = name;
            founder = founder;
            ts = w.now;
            home = db.log.origin;
            members = [];
          })))
          tt
    else (db, err invalid_pattern)

unfoldable pub group_drop : World → Db → String → Db × Result (Unit {0}) ChanError
group_drop w db name =
    if is_some (held_group db name)
    then commit w db (Event.group_dropped name) internal
        (edit_groups (λ (gs : List Group). retain (λ g. not (key g.name == key name)) gs)) tt
    else (db, err no_channel)

unfoldable pub group_set_flags :
    World → Db → String → String → String → Db × Result (Unit {0}) ChanError
group_set_flags w db name account flags =
    if is_some (held_group db name)
    then commit w db (Event.group_flags_set name account flags) internal
        (edit_groups (λ (gs : List Group).
          modify_first (λ g. key g.name == key name)
            (λ (g : Group). record g {
              members =
                  push
                    (retain (λ (m : GroupMember). not (eq_ignore_ascii_case m.account account))
                      g.members)
                    (record { account = account; flags = flags });
            })
            gs))
        tt
    else (db, err no_channel)

unfoldable pub group_del_member : World → Db → String → String → Db × Result Bool ChanError
group_del_member w db name account = elim (held_group db name) [
  | none ↦ (db, err no_channel)
  | some g ↦
      if any (λ (m : GroupMember). eq_ignore_ascii_case m.account account) g.members
      then commit w db (Event.group_member_del name account) internal
          (edit_groups (λ (gs : List Group).
            modify_first (λ g. key g.name == key name)
              (λ (g : Group). record g {
                members =
                    retain (λ (m : GroupMember). not (eq_ignore_ascii_case m.account account))
                      g.members;
              })
              gs))
          true
      else (db, ok false)
]

unfoldable pub group_set_founder : World → Db → String → String → Db × Result (Unit {0}) ChanError
group_set_founder w db name founder =
    if is_some (held_group db name)
    then commit w db (Event.group_founder_set name founder) internal
        (edit_groups (λ (gs : List Group).
          modify_first (λ g. key g.name == key name) (λ (g : Group). record g { founder = founder })
            gs))
        tt
    else (db, err no_channel)

pub data GroupCall : Type 0 where
  register found del_member : String → String → GroupCall
  drop : String → GroupCall
  set_flags : String → String → String → GroupCall

unfoldable pub group_call : World → Db → GroupCall → Db × Option ChanError
group_call w db (register name founder) = report (group_register w db name founder)
group_call w db (found name founder) = report (group_set_founder w db name founder)
group_call w db (del_member name account) = report (group_del_member w db name account)
group_call w db (drop name) = report (group_drop w db name)
group_call w db (set_flags name account flags) = report (group_set_flags w db name account flags)

-- `groups_of`, on the groups there are: those that the account founded or is a member of
unfoldable pub groups_of : String → List Group → List String
groups_of account [] = []
groups_of account (g ∷ gs) =
    if eq_ignore_ascii_case g.founder account
      || any (λ (m : GroupMember). eq_ignore_ascii_case m.account account) g.members
    then g.name ∷ groups_of account gs
    else groups_of account gs
