-- ===== src/Db/Calls.antt =====
-- Calls that change a channel, as data (src/engine/db/channel.rs).
use echo_services.Prelude.{ℕ, Char, String, Bool, Option, none, some, List, Result, ok, err}
use echo_services.Db.{Db, World, ChanError}
use echo_services.Db.Registry
use echo_services.Db.AccessLists
use echo_services.Db.ChannelConfig
use echo_services.Db.ChannelConfig.{ChanSetting, KickerChange, change_kickers, update_kickers}
use echo_services.Db.Patterns

pub data ChanCall : Type 0 where
  register rename found assign : String → String → ChanCall
  drop unsuspend unassign clear_badwords clear_triggers : String → ChanCall
  succeed : String → Option String → ChanCall
  add_access add_akick set_level set_topic : String → String → String → ChanCall
  del_access del_akick reset_level : String → String → ChanCall
  set_desc set_url set_email set_entrymsg : String → String → ChanCall
  set_mlock : String → String → String → List (Char × String) → ChanCall
  set_setting : String → ChanSetting → Bool → ChanCall
  set_kickers : String → KickerChange → ChanCall
  suspend : String → String → String → Option ℕ → ChanCall
  add_badword del_badword : String → String → ChanCall
  add_trigger : String → String → String → ℕ → ChanCall
  del_trigger : String → ℕ → ChanCall
  pin : String → Bool → ChanCall

-- The store after a call, and its error, if it failed.
abbrev pub report : {T E : Type 0} → Db × Result T E → Db × Option E
report (db, ok _) = (db, none)
report (db, err e) = (db, some e)

unfoldable pub call : World → Db → ChanCall → Db × Option ChanError
call w db (register name founder) = report (Registry.register_channel w db name founder)
call w db (rename old new) = report (Registry.rename_channel w db old new)
call w db (found channel account) = report (Registry.set_founder w db channel account)
call w db (assign channel bot) = report (ChannelConfig.assign_bot w db channel bot)
call w db (drop name) = report (Registry.drop_channel w db name)
call w db (unsuspend channel) = report (ChannelConfig.unsuspend_channel w db channel)
call w db (unassign channel) = report (ChannelConfig.unassign_bot w db channel)
call w db (clear_badwords channel) = report (Patterns.badword_clear w db channel)
call w db (clear_triggers channel) = report (Patterns.trigger_clear w db channel)
call w db (succeed channel successor) = report (Registry.set_successor w db channel successor)
call w db (add_access channel account level) =
    report (AccessLists.access_add w db channel account level)
call w db (add_akick channel mask reason) = report (AccessLists.akick_add w db channel mask reason)
call w db (set_level channel capability role) =
    report (AccessLists.level_set w db channel capability role)
call w db (set_topic channel topic setter) =
    report (ChannelConfig.set_channel_topic w db channel topic setter)
call w db (del_access channel account) = report (AccessLists.access_del w db channel account)
call w db (del_akick channel mask) = report (AccessLists.akick_del w db channel mask)
call w db (reset_level channel capability) =
    report (AccessLists.level_reset w db channel capability)
call w db (set_desc channel desc) = report (ChannelConfig.set_desc w db channel desc)
call w db (set_url channel url) = report (ChannelConfig.set_url w db channel url)
call w db (set_email channel email) = report (ChannelConfig.set_channel_email w db channel email)
call w db (set_entrymsg channel msg) = report (ChannelConfig.set_entrymsg w db channel msg)
call w db (set_mlock name on off params) =
    report (ChannelConfig.set_mlock_params w db name on off params)
call w db (set_setting channel setting on) =
    report (ChannelConfig.set_channel_setting w db channel setting on)
call w db (set_kickers channel change) =
    report (update_kickers w db channel (change_kickers change))
call w db (suspend channel by reason expires) =
    report (ChannelConfig.suspend_channel w db channel by reason expires)
call w db (add_badword channel pattern) = report (Patterns.badword_add w db channel pattern)
call w db (del_badword channel pattern) = report (Patterns.badword_del w db channel pattern)
call w db (add_trigger channel pattern response cooldown) =
    report (Patterns.trigger_add w db channel pattern response cooldown)
call w db (del_trigger channel index) = report (Patterns.trigger_del w db channel index)
call w db (pin channel on) = report (ChannelConfig.set_channel_noexpire w db channel on)
