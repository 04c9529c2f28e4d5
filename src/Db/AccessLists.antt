-- ===== src/Db/AccessLists.antt =====
-- The access, auto-kick and level lists of a channel (src/engine/db/channel.rs).
use echo_services.Prelude.{
  ℕ, String, Bool, true, false, not, ◌&&◌, none, some, if◌then◌else◌, leb, Result, ok, err, any,
  retain, push, length, eq_ignore_ascii_case,
}
use echo_services.HashMap
use echo_services.Data.{ChannelInfo, ChanAccess, ChanAkick}
use echo_services.Event.{Event}
use echo_services.Fold.Updates.{key}
use echo_services.Db.{Db, World, ChanError, no_channel, full, internal, commit, edit_channel}

-- `MAX_CHAN_LIST`
abbrev pub max_chan_list : ℕ
max_chan_list = 256

-- An account that is listed already may be listed again at another level.
unfoldable pub access_add : World → Db → String → String → String → Db × Result (Unit {0}) ChanError
access_add w db channel account level = elim (HashMap.get db.state.channels (key channel)) [
  | none ↦ (db, err no_channel)
  | some c0 ↦
      if leb max_chan_list (length c0.access)
        && not (any (λ (a : ChanAccess). eq_ignore_ascii_case a.account account) c0.access)
      then (db, err full)
      else commit w db (Event.channel_access_add channel account level) internal
          (edit_channel (key channel) (λ (c : ChannelInfo). record c {
            access =
                push
                  (retain (λ (a : ChanAccess). not (eq_ignore_ascii_case a.account account))
                    c.access)
                  (record { account = account; level = level });
          }))
          tt
]

unfoldable pub access_del : World → Db → String → String → Db × Result Bool ChanError
access_del w db channel account = elim (HashMap.get db.state.channels (key channel)) [
  | none ↦ (db, err no_channel)
  | some c0 ↦
      if any (λ (a : ChanAccess). eq_ignore_ascii_case a.account account) c0.access
      then commit w db (Event.channel_access_del channel account) internal
          (edit_channel (key channel) (λ (c : ChannelInfo). record c {
            access =
                retain (λ (a : ChanAccess). not (eq_ignore_ascii_case a.account account)) c.access;
          }))
          true
      else (db, ok false)
]

unfoldable pub akick_add : World → Db → String → String → String → Db × Result (Unit {0}) ChanError
akick_add w db channel mask reason = elim (HashMap.get db.state.channels (key channel)) [
  | none ↦ (db, err no_channel)
  | some c0 ↦
      if leb max_chan_list (length c0.akick)
        && not (any (λ (a : ChanAkick). eq_ignore_ascii_case a.mask mask) c0.akick)
      then (db, err full)
      else commit w db (Event.channel_akick_add channel mask reason) internal
          (edit_channel (key channel) (λ (c : ChannelInfo). record c {
            akick =
                push (retain (λ (a : ChanAkick). not (eq_ignore_ascii_case a.mask mask)) c.akick)
                  (record { mask = mask; reason = reason });
          }))
          tt
]

unfoldable pub akick_del : World → Db → String → String → Db × Result Bool ChanError
akick_del w db channel mask = elim (HashMap.get db.state.channels (key channel)) [
  | none ↦ (db, err no_channel)
  | some c0 ↦
      if any (λ (a : ChanAkick). eq_ignore_ascii_case a.mask mask) c0.akick
      then commit w db (Event.channel_akick_del channel mask) internal
          (edit_channel (key channel) (λ (c : ChannelInfo). record c {
            akick = retain (λ (a : ChanAkick). not (eq_ignore_ascii_case a.mask mask)) c.akick;
          }))
          true
      else (db, ok false)
]

unfoldable pub level_set : World → Db → String → String → String → Db × Result (Unit {0}) ChanError
level_set w db channel capability role =
    if HashMap.contains_key db.state.channels (key channel)
    then commit w db (Event.channel_level_set channel capability role) internal
        (edit_channel (key channel) (λ (c : ChannelInfo). record c {
          levels =
              push
                (retain (λ (l : String × String). not (eq_ignore_ascii_case l.0 capability))
                  c.levels)
                (capability, role);
        }))
        tt
    else (db, err no_channel)

unfoldable pub level_reset : World → Db → String → String → Db × Result Bool ChanError
level_reset w db channel capability = elim (HashMap.get db.state.channels (key channel)) [
  | none ↦ (db, err no_channel)
  | some c0 ↦
      if any (λ (l : String × String). eq_ignore_ascii_case l.0 capability) c0.levels
      then commit w db (Event.channel_level_reset channel capability) internal
          (edit_channel (key channel) (λ (c : ChannelInfo). record c {
            levels =
                retain (λ (l : String × String). not (eq_ignore_ascii_case l.0 capability))
                  c.levels;
          }))
          true
      else (db, ok false)
]
