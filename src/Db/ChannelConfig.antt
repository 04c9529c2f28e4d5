-- ===== src/Db/ChannelConfig.antt =====
-- The settings of a channel (src/engine/db/channel.rs), and its pin against expiry
-- (src/engine/db/account.rs).
use echo_services.Prelude.{
  ℕ, Char, String, Bool, true, false, not, Option, none, some, List, if◌then◌else◌, is_none, Result,
  ok, err,
}
use echo_services.HashMap
use echo_services.Data.{ChannelInfo, ChanSettings, KickerSettings}
use echo_services.Event.{Event}
use echo_services.Fold.Updates.{key}
use echo_services.Db.{Db, World, ChanError, no_channel, internal, commit, edit_channel}

pub data ChanSetting : Type 0 where
  sign_kick sign_kick_level private peace secure_ops secure_voices keep_topic topic_lock restricted
        auto_op bot_greet no_bot :
      ChanSetting

pub data Kicker : Type 0 where
  caps bolds colors underlines reverses italics flood repeat badwords warn dont_kick_ops
        dont_kick_voices :
      Kicker

-- The guard on the channel, the event, and the writes to the channel, which the setters share.
unfoldable pub put :
    World → Db → String → Event → (ChannelInfo → ChannelInfo) → Db × Result (Unit {0}) ChanError
put w db channel event f =
    if HashMap.contains_key db.state.channels (key channel)
    then commit w db event internal (edit_channel (key channel) f) tt
    else (db, err no_channel)

unfoldable pub set_mlock_params :
    World → Db → String → String → String → List (Char × String) → Db × Result (Unit {0}) ChanError
unfolding put
set_mlock_params w db name on off params =
    put w db name (Event.channel_mlock name on off params)
      (λ c. record c { lock_params = params; lock_on = on; lock_off = off })

unfoldable pub set_desc : World → Db → String → String → Db × Result (Unit {0}) ChanError
unfolding put
set_desc w db channel desc =
    put w db channel (Event.channel_desc_set channel desc) (λ c. record c { desc = desc })

unfoldable pub set_url : World → Db → String → String → Db × Result (Unit {0}) ChanError
unfolding put
set_url w db channel url =
    put w db channel (Event.channel_url_set channel url) (λ c. record c { url = url })

unfoldable pub set_channel_email : World → Db → String → String → Db × Result (Unit {0}) ChanError
unfolding put
set_channel_email w db channel email =
    put w db channel (Event.channel_email_set channel email) (λ c. record c { email = email })

unfoldable pub set_entrymsg : World → Db → String → String → Db × Result (Unit {0}) ChanError
unfolding put
set_entrymsg w db channel msg =
    put w db channel (Event.channel_entry_msg_set channel msg) (λ c. record c { entrymsg = msg })

unfoldable pub set_channel_topic :
    World → Db → String → String → String → Db × Result (Unit {0}) ChanError
unfolding put
set_channel_topic w db channel topic setter =
    put w db channel (Event.channel_topic_set channel topic setter)
      (λ c. record c { topic = topic; topic_setter = setter })

-- AUTOOP is stored inverted.
unfoldable pub with_setting : ChanSetting → Bool → ChanSettings → ChanSettings
with_setting sign_kick on s = record s { signkick = on }
with_setting sign_kick_level on s = record s { signkick_level = on }
with_setting private on s = record s { private = on }
with_setting peace on s = record s { peace = on }
with_setting secure_ops on s = record s { secureops = on }
with_setting secure_voices on s = record s { securevoices = on }
with_setting keep_topic on s = record s { keeptopic = on }
with_setting topic_lock on s = record s { topiclock = on }
with_setting restricted on s = record s { restricted = on }
with_setting auto_op on s = record s { noautoop = not on }
with_setting bot_greet on s = record s { bot_greet = on }
with_setting no_bot on s = record s { nobot = on }

-- The settings are computed before the write, and written whole.
unfoldable pub set_channel_setting :
    World → Db → String → ChanSetting → Bool → Db × Result (Unit {0}) ChanError
set_channel_setting w db channel setting on = elim (HashMap.get db.state.channels (key channel)) [
  | none ↦ (db, err no_channel)
  | some c0 ↦
      commit w db (Event.channel_settings_set channel (with_setting setting on c0.settings))
        internal
        (edit_channel (key channel)
          (λ (c : ChannelInfo). record c { settings = with_setting setting on c0.settings }))
        tt
]

unfoldable pub update_kickers :
    World → Db → String → (KickerSettings → KickerSettings) → Db × Result (Unit {0}) ChanError
update_kickers w db channel f = elim (HashMap.get db.state.channels (key channel)) [
  | none ↦ (db, err no_channel)
  | some c0 ↦
      commit w db (Event.channel_kicker_set channel (f c0.kickers)) internal
        (edit_channel (key channel) (λ (c : ChannelInfo). record c { kickers = f c0.kickers })) tt
]

unfoldable pub with_kicker : Kicker → Bool → KickerSettings → KickerSettings
with_kicker caps on k = record k { caps = on }
with_kicker bolds on k = record k { bolds = on }
with_kicker colors on k = record k { colors = on }
with_kicker underlines on k = record k { underlines = on }
with_kicker reverses on k = record k { reverses = on }
with_kicker italics on k = record k { italics = on }
with_kicker flood on k = record k { flood = on }
with_kicker repeat on k = record k { repeat = on }
with_kicker badwords on k = record k { badwords = on }
with_kicker warn on k = record k { warn = on }
with_kicker dont_kick_ops on k = record k { dontkickops = on }
with_kicker dont_kick_voices on k = record k { dontkickvoices = on }

-- What the seven kicker commands do to the kickers.
pub data KickerChange : Type 0 where
  set_kicker : Kicker → Bool → KickerChange
  set_caps_kicker set_flood_kicker : ℕ → ℕ → KickerChange
  set_repeat_kicker set_ttb set_ban_expire set_votekick : ℕ → KickerChange

unfoldable pub change_kickers : KickerChange → KickerSettings → KickerSettings
unfolding with_kicker
change_kickers (set_kicker kicker on) k = with_kicker kicker on k
change_kickers (set_caps_kicker lo percent) k = record k {
  caps = true;
  caps_min = lo;
  caps_percent = percent;
}
change_kickers (set_flood_kicker lines secs) k = record k {
  flood = true;
  flood_lines = lines;
  flood_secs = secs;
}
change_kickers (set_repeat_kicker times) k = record k { repeat = true; repeat_times = times }
change_kickers (set_ttb ttb) k = record k { ttb = ttb }
change_kickers (set_ban_expire secs) k = record k { ban_expire = secs }
change_kickers (set_votekick votes) k = record k { votekick = votes }

unfoldable pub suspend_channel :
    World → Db → String → String → String → Option ℕ → Db × Result (Unit {0}) ChanError
unfolding put
suspend_channel w db channel by reason expires =
    put w db channel (Event.channel_suspended channel by reason w.now expires) (λ c. record c {
      suspension = some (record { by = by; reason = reason; ts = w.now; expires = expires });
    })

unfoldable pub unsuspend_channel : World → Db → String → Db × Result Bool ChanError
unsuspend_channel w db channel = elim (HashMap.get db.state.channels (key channel)) [
  | none ↦ (db, err no_channel)
  | some c0 ↦
      if is_none c0.suspension
      then (db, ok false)
      else commit w db (Event.channel_unsuspended channel) internal
          (edit_channel (key channel) (λ (c : ChannelInfo). record c { suspension = none })) true
]

unfoldable pub assign_bot : World → Db → String → String → Db × Result (Unit {0}) ChanError
unfolding put
assign_bot w db channel bot =
    put w db channel (Event.channel_bot_assigned channel bot)
      (λ c. record c { assigned_bot = some bot })

unfoldable pub unassign_bot : World → Db → String → Db × Result Bool ChanError
unassign_bot w db channel = elim (HashMap.get db.state.channels (key channel)) [
  | none ↦ (db, err no_channel)
  | some c0 ↦
      if is_none c0.assigned_bot
      then (db, ok false)
      else commit w db (Event.channel_bot_unassigned channel) internal
          (edit_channel (key channel) (λ (c : ChannelInfo). record c { assigned_bot = none })) true
]

-- `==` on `bool`
abbrev pub same_bool : Bool → Bool → Bool
same_bool true b = b
same_bool false b = not b

unfoldable pub set_channel_noexpire : World → Db → String → Bool → Db × Result Bool ChanError
set_channel_noexpire w db channel on = elim (HashMap.get db.state.channels (key channel)) [
  | none ↦ (db, err ChanError.no_channel)
  | some c0 ↦
      if same_bool c0.noexpire on
      then (db, ok false)
      else commit w db (Event.channel_no_expire channel on) ChanError.internal
          (edit_channel (key channel) (λ (c : ChannelInfo). record c { noexpire = on })) true
]
