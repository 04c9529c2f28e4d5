-- ===== src/Db/Patterns.antt =====
-- The badword and trigger patterns of a channel (src/engine/db/channel.rs). Whether a pattern
-- compiles within the size limit is the regex library's answer.
use echo_services.Prelude.{
  ℕ, ◌+◌, ◌-◌, ◌%◌, ◌^◌, String, Bool, true, false, not, ◌||◌, none, some, List, [], ◌==◌, eqb, ltb,
  if◌then◌else◌, Result, ok, err, any, retain, push, length, remove_at,
}
use echo_services.HashMap
use echo_services.Data.{ChannelInfo, Trigger}
use echo_services.Event.{Event}
use echo_services.Fold.Updates.{key}
use echo_services.Db.{
  Db, World, ChanError, no_channel, invalid_pattern, internal, commit, edit_channel,
}
use echo_services.Db.ChannelConfig.{set_channel_setting, bot_greet, no_bot}

unfoldable pub write_badwords :
    {T : Type 0} → World → Db → String → List String → T → Db × Result T ChanError
write_badwords w db channel list value =
    commit w db (Event.channel_badwords_set channel list) internal
      (edit_channel (key channel) (λ (c : ChannelInfo). record c {
        badwords = list;
        badwords_rev = (c.badwords_rev + 1) % 2 ^ 64;
      }))
      value

unfoldable pub badword_add : World → Db → String → String → Db × Result Bool ChanError
unfolding write_badwords
badword_add w db channel pattern =
    if not (w.compiles pattern)
    then (db, err invalid_pattern)
    else elim (HashMap.get db.state.channels (key channel)) [
      | none ↦ (db, err no_channel)
      | some c ↦
          if any (λ x. x == pattern) c.badwords
          then (db, ok false)
          else write_badwords w db channel (push c.badwords pattern) true
    ]

unfoldable pub badword_del : World → Db → String → String → Db × Result Bool ChanError
unfolding write_badwords
badword_del w db channel pattern = elim (HashMap.get db.state.channels (key channel)) [
  | none ↦ (db, err no_channel)
  | some c ↦
      if any (λ x. x == pattern) c.badwords
      then write_badwords w db channel (retain (λ x. not (x == pattern)) c.badwords) true
      else (db, ok false)
]

unfoldable pub badword_clear : World → Db → String → Db × Result ℕ ChanError
unfolding write_badwords
badword_clear w db channel = elim (HashMap.get db.state.channels (key channel)) [
  | none ↦ (db, err no_channel)
  | some c ↦
      if ltb 0 (length c.badwords)
      then write_badwords w db channel [] (length c.badwords)
      else (db, ok (length c.badwords))
]

unfoldable pub write_triggers :
    {T : Type 0} → World → Db → String → List Trigger → T → Db × Result T ChanError
write_triggers w db channel list value =
    commit w db (Event.channel_triggers_set channel list) internal
      (edit_channel (key channel) (λ (c : ChannelInfo). record c {
        triggers = list;
        triggers_rev = (c.triggers_rev + 1) % 2 ^ 64;
      }))
      value

unfoldable pub trigger_add : World → Db → String → String → String → ℕ → Db × Result Bool ChanError
unfolding write_triggers
trigger_add w db channel pattern response cooldown =
    if not (w.compiles pattern)
    then (db, err invalid_pattern)
    else elim (HashMap.get db.state.channels (key channel)) [
      | none ↦ (db, err no_channel)
      | some c ↦
          if any (λ (t : Trigger). t.pattern == pattern) c.triggers
          then (db, ok false)
          else write_triggers w db channel
              (push c.triggers
                (record { pattern = pattern; response = response; cooldown = cooldown }))
              true
    ]

-- The index counts from 1.
unfoldable pub trigger_del : World → Db → String → ℕ → Db × Result Bool ChanError
unfolding write_triggers
trigger_del w db channel index = elim (HashMap.get db.state.channels (key channel)) [
  | none ↦ (db, err no_channel)
  | some c ↦
      if eqb index 0 || ltb (length c.triggers) index
      then (db, ok false)
      else write_triggers w db channel (remove_at (index - 1) c.triggers) true
]

unfoldable pub trigger_clear : World → Db → String → Db × Result ℕ ChanError
unfolding write_triggers
trigger_clear w db channel = elim (HashMap.get db.state.channels (key channel)) [
  | none ↦ (db, err no_channel)
  | some c ↦
      if ltb 0 (length c.triggers)
      then write_triggers w db channel [] (length c.triggers)
      else (db, ok (length c.triggers))
]

-- `?`: the next step runs where this one succeeded.
unfoldable pub and_then :
    {T U : Type 0}
    → Db × Result T ChanError
    → (Db → Db × Result U ChanError)
    → Db × Result U ChanError
and_then (db, ok _) next = next db
and_then (db, err e) next = (db, err e)

abbrev copy_onto : World → Db → ChannelInfo → String → Db × Result (Unit {0}) ChanError
copy_onto w db s dst =
    and_then
      (commit w db (Event.channel_kicker_set dst s.kickers) internal
        (edit_channel (key dst) (λ (c : ChannelInfo). record c { kickers = s.kickers })) tt)
      λ db₁. and_then (write_badwords w db₁ dst s.badwords tt) λ db₂.
        and_then (set_channel_setting w db₂ dst bot_greet s.settings.bot_greet)
          λ db₃. set_channel_setting w db₃ dst no_bot s.settings.nobot

-- The four writes are four events; a failure leaves the earlier ones in place.
unfoldable pub copy_bot_config : World → Db → String → String → Db × Result (Unit {0}) ChanError
unfolding and_then write_badwords set_channel_setting
copy_bot_config w db src dst = elim (HashMap.get db.state.channels (key src)) [
  | none ↦ (db, err no_channel)
  | some s ↦
      if HashMap.contains_key db.state.channels (key dst)
      then copy_onto w db s dst
      else (db, err no_channel)
]
