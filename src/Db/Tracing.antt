-- ===== src/Db/Tracing.antt =====
-- The calls of `ChanCall` are traced by the log (src/engine/db/channel.rs).
use echo_services.Prelude.{
  String, Bool, true, false, not, Option, none, some, List, [], ◌≡◌, refl, ap, sym, arith, if_rule,
  option_rule, Result, ok, err, if◌then◌else◌, ◌==◌, length, push, retain, remove_at, ◌-◌,
  eq_ignore_ascii_case,
}
use echo_services.HashMap
use echo_services.Data.{State, ChannelInfo, ChanAccess, ChanAkick, Trigger}
use echo_services.Event.{Event}
use echo_services.Fold.{apply}
use echo_services.Fold.Updates
use echo_services.Fold.Updates.{key}
use echo_services.Db.{
  Db, World, ChanError, exists, no_channel, full, invalid_pattern, internal, edit_channel,
}
use echo_services.Db.Registry
use echo_services.Db.Registry.{move_channel}
use echo_services.Db.AccessLists
use echo_services.Db.AccessLists.{max_chan_list}
use echo_services.Db.ChannelConfig
use echo_services.Db.ChannelConfig.{put, with_setting, update_kickers, change_kickers}
use echo_services.Db.Patterns
use echo_services.Db.Patterns.{write_badwords, write_triggers}
use echo_services.Db.Calls
use echo_services.Db.Calls.{ChanCall, call, report}
use echo_services.Db.Traced.{Traced, Admits, overflows, commit-Traced, fails, skips}

-- What a call's result must satisfy.
abbrev Ends : {T : Type 0} → Db → Db × Result T ChanError → Type 0
Ends db r = Traced db (report r)

-- What is known of the channel that was found holds of any that is found under its key.
at_same :
    {o : Option ChannelInfo} (P : ChannelInfo → Bool) (c c' : ChannelInfo)
    → o ≡ some c
    → o ≡ some c'
    → P c ≡ false
    → P c' ≡ false
at_same P c c' h h' k = ground (arith)

put-Traced :
    (w : World) (db : Db) (channel : String) (event : Event) (f : ChannelInfo → ChannelInfo)
    → Admits db.state event
    → edit_channel (key channel) f db.state ≡ apply db.state event
    → Ends db (put w db channel event f)
unfolding put
put-Traced w db channel event f a h =
    if_rule (Ends db) (HashMap.contains_key db.state.channels (key channel))
      (λ _. commit-Traced w db event internal (edit_channel (key channel) f) tt a h)
      λ _. fails db no_channel

rename_found :
    (m : HashMap.HashMap ChannelInfo) (old new : String) (c : ChannelInfo)
    → HashMap.get m (key old) ≡ some c
    → Updates.rename old new m
      ≡ HashMap.insert (HashMap.remove m (key old)) (key new) (record c { name = new })
unfolding Updates.rename HashMap.insert
rename_found m old new c h = rw (Updates.rename, h) refl

rename_lem :
    (s : State) (old new : String) (c : ChannelInfo)
    → HashMap.get s.channels (key old) ≡ some c
    → move_channel old new c s ≡ apply s (Event.channel_renamed old new)
unfolding apply
rename_lem s old new c h =
    ap (λ m. record s { channels = m }) (sym (rename_found s.channels old new c h))

-- A call on a channel that must be registered.
found-Traced :
    {T : Type 0} (db : Db) (channel : String) (f : ChannelInfo → Db × Result T ChanError)
    → ((c : ChannelInfo) → HashMap.get db.state.channels (key channel) ≡ some c → Ends db (f c))
    → Ends {T = T} db (elim (HashMap.get db.state.channels (key channel)) [
      | none ↦ (db, err no_channel)
      | some c ↦ f c
    ])
found-Traced {T = T} db channel f k =
    option_rule (Ends {T = T} db) (HashMap.get db.state.channels (key channel))
      (λ _. fails db no_channel) k

-- A call that skips where it has nothing to do.
unless-Traced :
    {T : Type 0} (db : Db) (b : Bool) (value : T) (r : Db × Result T ChanError)
    → Ends db r
    → Ends db (if b then (db, ok value) else r)
unless-Traced db b value r h = if_rule (Ends db) b (λ _. skips ChanError db) λ _. h

when-Traced :
    {T : Type 0} (db : Db) (b : Bool) (value : T) (r : Db × Result T ChanError)
    → Ends db r
    → Ends db (if b then r else (db, ok value))
when-Traced db b value r h = if_rule (Ends db) b (λ _. h) λ _. skips ChanError db

present-Traced :
    {T : Type 0} (db : Db) (b : Bool) (r : Db × Result T ChanError)
    → Ends db r
    → Ends db (if b then r else (db, err no_channel))
present-Traced db b r h = if_rule (Ends db) b (λ _. h) λ _. fails db no_channel

refuse-Traced :
    {T : Type 0} (db : Db) (b : Bool) (e : ChanError) (r : Db × Result T ChanError)
    → Ends db r
    → Ends db (if b then (db, err e) else r)
refuse-Traced db b e r h = if_rule (Ends db) b (λ _. fails db e) λ _. h

pub write_badwords-Traced :
    {T : Type 0} (w : World) (db : Db) (channel : String) (list : List String) (value : T)
    → Ends db (write_badwords w db channel list value)
unfolding write_badwords apply Updates.set_badwords
write_badwords-Traced w db channel list value =
    commit-Traced w db (Event.channel_badwords_set channel list) internal _ value tt refl

write_triggers-Traced :
    {T : Type 0} (w : World) (db : Db) (channel : String) (list : List Trigger) (value : T)
    → Ends db (write_triggers w db channel list value)
unfolding write_triggers apply Updates.set_triggers
write_triggers-Traced w db channel list value =
    commit-Traced w db (Event.channel_triggers_set channel list) internal _ value tt refl

-- Each of these calls on a channel: to register, rename or drop it, to set its founder, its successor
-- or its pin against expiry, to suspend it or lift that, to assign a bot or take it away, to add or
-- delete an entry of the access or auto-kick list, to set or reset the level of a capability, to set
-- its topic, description, url, email, entry message, mode lock, a flag of its settings or its
-- kickers, and to add, delete or clear its badwords and triggers. The call either fails, and then
-- writes nothing and leaves the store as it was, or succeeds; then it does so too (it had nothing to
-- do), or it writes one event, in memory and on file, and changes the store in the way that replaying
-- that event does. It says nothing of the other calls, such as the copy of a bot's configuration,
-- which writes several events, and the notes and the marks of use on a channel.
pub call-Traced : (w : World) (db : Db) (call' : ChanCall) → Traced db (call w db call')
unfolding apply call Registry.register_channel Registry.rename_channel Registry.set_founder
    ChannelConfig.assign_bot Registry.drop_channel ChannelConfig.unsuspend_channel
    ChannelConfig.unassign_bot Patterns.badword_clear Patterns.trigger_clear Registry.set_successor
    AccessLists.access_add Updates.add_access AccessLists.akick_add Updates.add_akick
    AccessLists.level_set Updates.set_level ChannelConfig.set_channel_topic AccessLists.access_del
    Updates.del_access AccessLists.akick_del Updates.del_akick AccessLists.level_reset
    Updates.reset_level ChannelConfig.set_desc ChannelConfig.set_url ChannelConfig.set_channel_email
    ChannelConfig.set_entrymsg ChannelConfig.set_mlock_params ChannelConfig.set_channel_setting
    update_kickers ChannelConfig.suspend_channel Patterns.badword_add Patterns.badword_del
    Patterns.trigger_add Patterns.trigger_del ChannelConfig.set_channel_noexpire
call-Traced w db (Calls.register name founder) =
    refuse-Traced db _ exists _
      (commit-Traced w db (Event.channel_registered name founder w.now) internal _ tt tt refl)
call-Traced w db (Calls.rename old new) = found-Traced db old _ λ c h. refuse-Traced db _ exists _ (
    commit-Traced w db (Event.channel_renamed old new) internal (move_channel old new c) tt tt
      (rename_lem db.state old new c h))
call-Traced w db (Calls.found channel account) =
    present-Traced db _ _
      (commit-Traced w db (Event.channel_founder_set channel account) internal _ tt tt refl)
call-Traced w db (Calls.assign channel bot) =
    put-Traced w db channel (Event.channel_bot_assigned channel bot) _ tt refl
call-Traced w db (Calls.drop name) =
    present-Traced db _ _ (commit-Traced w db (Event.channel_dropped name) internal _ tt tt refl)
call-Traced w db (Calls.unsuspend channel) = found-Traced db channel _ λ c _.
    unless-Traced db _ false _
      (commit-Traced w db (Event.channel_unsuspended channel) internal _ true tt refl)
call-Traced w db (Calls.unassign channel) = found-Traced db channel _ λ c _.
    unless-Traced db _ false _
      (commit-Traced w db (Event.channel_bot_unassigned channel) internal _ true tt refl)
call-Traced w db (Calls.clear_badwords channel) =
    found-Traced db channel _
      λ c _. when-Traced db _ _ _ (write_badwords-Traced w db channel [] (length c.badwords))
call-Traced w db (Calls.clear_triggers channel) =
    found-Traced db channel _
      λ c _. when-Traced db _ _ _ (write_triggers-Traced w db channel [] (length c.triggers))
call-Traced w db (Calls.succeed channel successor) =
    present-Traced db _ _
      (commit-Traced w db (Event.channel_successor_set channel successor) internal _ tt tt refl)
call-Traced w db (Calls.add_access channel account level) = found-Traced db channel _ λ c h.
    if_rule (Ends db)
      (overflows (λ (a : ChanAccess). eq_ignore_ascii_case a.account account) c.access)
      (λ _. fails db full)
      λ room.
        (commit-Traced w db (Event.channel_access_add channel account level) internal
          (edit_channel (key channel) (Updates.add_access account level)) tt
          (λ c' h'.
            at_same
              (λ (x : ChannelInfo).
                overflows (λ (a : ChanAccess). eq_ignore_ascii_case a.account account) x.access)
              c c' h h' room)
          refl)
call-Traced w db (Calls.add_akick channel mask reason) = found-Traced db channel _ λ c h.
    if_rule (Ends db) (overflows (λ (a : ChanAkick). eq_ignore_ascii_case a.mask mask) c.akick)
      (λ _. fails db full)
      λ room.
        (commit-Traced w db (Event.channel_akick_add channel mask reason) internal
          (edit_channel (key channel) (Updates.add_akick mask reason)) tt
          (λ c' h'.
            at_same
              (λ (x : ChannelInfo).
                overflows (λ (a : ChanAkick). eq_ignore_ascii_case a.mask mask) x.akick)
              c c' h h' room)
          refl)
call-Traced w db (Calls.set_level channel capability role) =
    present-Traced db _ _
      (commit-Traced w db (Event.channel_level_set channel capability role) internal _ tt tt refl)
call-Traced w db (Calls.set_topic channel topic setter) =
    put-Traced w db channel (Event.channel_topic_set channel topic setter) _ tt refl
call-Traced w db (Calls.del_access channel account) = found-Traced db channel _ λ c _.
    when-Traced db _ false _
      (commit-Traced w db (Event.channel_access_del channel account) internal _ true tt refl)
call-Traced w db (Calls.del_akick channel mask) = found-Traced db channel _ λ c _.
    when-Traced db _ false _
      (commit-Traced w db (Event.channel_akick_del channel mask) internal _ true tt refl)
call-Traced w db (Calls.reset_level channel capability) = found-Traced db channel _ λ c _.
    when-Traced db _ false _
      (commit-Traced w db (Event.channel_level_reset channel capability) internal _ true tt refl)
call-Traced w db (Calls.set_desc channel desc) =
    put-Traced w db channel (Event.channel_desc_set channel desc) _ tt refl
call-Traced w db (Calls.set_url channel url) =
    put-Traced w db channel (Event.channel_url_set channel url) _ tt refl
call-Traced w db (Calls.set_email channel email) =
    put-Traced w db channel (Event.channel_email_set channel email) _ tt refl
call-Traced w db (Calls.set_entrymsg channel msg) =
    put-Traced w db channel (Event.channel_entry_msg_set channel msg) _ tt refl
call-Traced w db (Calls.set_mlock name on off params) =
    put-Traced w db name (Event.channel_mlock name on off params) _ tt refl
call-Traced w db (Calls.set_setting channel setting on) = found-Traced db channel _ λ c _.
    (commit-Traced w db (Event.channel_settings_set channel (with_setting setting on c.settings))
      internal _ tt tt refl)
call-Traced w db (Calls.set_kickers channel change) = found-Traced db channel _ λ c _.
    (commit-Traced w db (Event.channel_kicker_set channel (change_kickers change c.kickers))
      internal _ tt tt refl)
call-Traced w db (Calls.suspend channel by reason expires) =
    put-Traced w db channel (Event.channel_suspended channel by reason w.now expires) _ tt refl
call-Traced w db (Calls.add_badword channel pattern) = refuse-Traced db _ invalid_pattern _ (
    found-Traced db channel _ λ c _.
      unless-Traced db _ false _
        (write_badwords-Traced w db channel (push c.badwords pattern) true))
call-Traced w db (Calls.del_badword channel pattern) = found-Traced db channel _ λ c _.
    when-Traced db _ false _
      (write_badwords-Traced w db channel (retain (λ x. not (x == pattern)) c.badwords) true)
call-Traced w db (Calls.add_trigger channel pattern response cooldown) =
    refuse-Traced db _ invalid_pattern _ (
      found-Traced db channel _ λ c _. unless-Traced db _ false _ (
        write_triggers-Traced w db channel
          (push c.triggers (record { pattern = pattern; response = response; cooldown = cooldown }))
          true))
call-Traced w db (Calls.del_trigger channel index) = found-Traced db channel _ λ c _.
    unless-Traced db _ false _
      (write_triggers-Traced w db channel (remove_at (index - 1) c.triggers) true)
call-Traced w db (Calls.pin channel on) = found-Traced db channel _ λ c _.
    unless-Traced db _ false _
      (commit-Traced w db (Event.channel_no_expire channel on) internal _ true tt refl)
