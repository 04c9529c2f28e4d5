-- ===== src/Db/GroupTracing.antt =====
-- Each call on groups is traced by the log (src/engine/db/network.rs).
use echo_services.Prelude.{
  Bool, false, List, [], ◌∷◌, ◌≡◌, refl, ap, arith, if_rule, option_rule, if◌then◌else◌, is_some,
  any, find, Result, ok, err, push,
}
use echo_services.Data.{Group}
use echo_services.Event.{Event}
use echo_services.Fold.{apply}
use echo_services.Fold.Lists.{
  register_group, drop_group, set_group_founder, set_group_flags, del_group_member, set_member,
  del_member, named,
}
use echo_services.Fold.Updates.{key}
use echo_services.Db.{Db, World, ChanError, no_channel, exists, invalid_pattern, internal}
use echo_services.Db.Calls.{report}
use echo_services.Db.Groups
use echo_services.Db.Groups.{GroupCall, group_call, edit_groups, held_group}
use echo_services.Db.Traced.{Traced, commit-Traced, fails, skips}

abbrev Ends : {T : Type 0} → Db → Db × Result T ChanError → Type 0
Ends db r = Traced db (report r)

pub any-find :
    {A : Type 0} (p : A → Bool) (xs : List A) → is_some (find p xs) ≡ false → any p xs ≡ false
unfolding any find
any-find p [] h = refl
any-find p (x ∷ xs) h = ground (arith, any-find p xs)

-- A group that is not there is added in the way that the fold adds it.
register_group-new :
    (claim : Group) (gs : List Group)
    → any (named (key claim.name)) gs ≡ false
    → push gs claim ≡ register_group claim gs
unfolding register_group
register_group-new claim gs h = rw h refl

there-Traced :
    {T : Type 0} (db : Db) (b : Bool) (r : Db × Result T ChanError)
    → Ends db r
    → Ends db (if b then r else (db, err no_channel))
there-Traced db b r h = if_rule (Ends db) b (λ _. h) λ _. fails db no_channel

when-Traced :
    {T : Type 0} (db : Db) (b : Bool) (value : T) (r : Db × Result T ChanError)
    → Ends db r
    → Ends db (if b then r else (db, ok value))
when-Traced db b value r h = if_rule (Ends db) b (λ _. h) λ _. skips ChanError db

-- Every call on groups either fails, and then writes nothing and leaves the store as it was, or
-- succeeds; then it does so too (the account was no member), or it writes one event, in memory and
-- on file, and changes the store in the way that replaying that event does.
pub group_call-Traced : (w : World) (db : Db) (c : GroupCall) → Traced db (group_call w db c)
unfolding apply group_call Groups.group_register Groups.group_drop Groups.group_set_flags
    Groups.group_del_member Groups.group_set_founder drop_group set_group_founder set_group_flags
    del_group_member set_member del_member
group_call-Traced w db (Groups.register name founder) =
    if_rule (Ends db) (Groups.is_group_name name)
      (λ _.
        if_rule (Ends db) (is_some (held_group db name)) (λ _. fails db exists)
          (λ h.
            commit-Traced w db (Event.group_registered name founder w.now db.log.origin) internal _
              tt tt
              (ap (λ gs. edit_groups (λ _. gs) db.state)
                (register_group-new _ db.state.net.groups (any-find _ db.state.net.groups h)))))
      (λ _. fails db invalid_pattern)
group_call-Traced w db (Groups.found name founder) =
    there-Traced db _ _
      (commit-Traced w db (Event.group_founder_set name founder) internal _ _ tt refl)
group_call-Traced w db (Groups.del_member name account) =
    option_rule (Ends db) (held_group db name) (λ _. fails db no_channel)
      (λ g _.
        when-Traced db _ false _
          (commit-Traced w db (Event.group_member_del name account) internal _ _ tt refl))
group_call-Traced w db (Groups.drop name) =
    there-Traced db _ _ (commit-Traced w db (Event.group_dropped name) internal _ _ tt refl)
group_call-Traced w db (Groups.set_flags name account flags) =
    there-Traced db _ _
      (commit-Traced w db (Event.group_flags_set name account flags) internal _ _ tt refl)
