-- ===== src/Db/Registry.antt =====
-- Which channels are registered, and to whom (src/engine/db/channel.rs).
use echo_services.Prelude.{
  String, Bool, true, false, not, ◌&&◌, Option, none, some, List, [], ◌∷◌, map, ◌==◌, if◌then◌else◌,
  Result, ok, err, retain, eq_ignore_ascii_case,
}
use echo_services.HashMap
use echo_services.Data.{State, ChannelInfo, new_channel}
use echo_services.Event.{Event}
use echo_services.Fold.Updates.{key}
use echo_services.Db.{
  Db, World, ChanError, exists, no_channel, internal, commit, edit_channel, account_exists,
}

unfoldable pub register_channel : World → Db → String → String → Db × Result (Unit {0}) ChanError
register_channel w db name founder =
    if HashMap.contains_key db.state.channels (key name)
    then (db, err exists)
    else commit w db (Event.channel_registered name founder w.now) internal
        (λ (s : State). record s {
          channels = HashMap.insert s.channels (key name) (new_channel name founder w.now);
        })
        tt

unfoldable pub drop_channel : World → Db → String → Db × Result (Unit {0}) ChanError
drop_channel w db name =
    if HashMap.contains_key db.state.channels (key name)
    then commit w db (Event.channel_dropped name) internal
        (λ (s : State). record s { channels = HashMap.remove s.channels (key name) }) tt
    else (db, err no_channel)

-- `remove`, the new name, and `insert`
abbrev pub move_channel : String → String → ChannelInfo → State → State
move_channel old new c s = record s {
  channels =
      HashMap.insert (HashMap.remove s.channels (key old)) (key new) (record c { name = new });
}

-- A change of case alone is allowed.
unfoldable pub rename_channel : World → Db → String → String → Db × Result (Unit {0}) ChanError
rename_channel w db old new = elim (HashMap.get db.state.channels (key old)) [
  | none ↦ (db, err no_channel)
  | some c ↦
      if not (key old == key new) && HashMap.contains_key db.state.channels (key new)
      then (db, err exists)
      else commit w db (Event.channel_renamed old new) internal (move_channel old new c) tt
]

unfoldable pub set_founder : World → Db → String → String → Db × Result (Unit {0}) ChanError
set_founder w db channel account =
    if HashMap.contains_key db.state.channels (key channel)
    then commit w db (Event.channel_founder_set channel account) internal
        (edit_channel (key channel) (λ (c : ChannelInfo). record c { founder = account })) tt
    else (db, err no_channel)

unfoldable pub set_successor :
    World → Db → String → Option String → Db × Result (Unit {0}) ChanError
set_successor w db channel successor =
    if HashMap.contains_key db.state.channels (key channel)
    then commit w db (Event.channel_successor_set channel successor) internal
        (edit_channel (key channel) (λ (c : ChannelInfo). record c { successor = successor })) tt
    else (db, err no_channel)

-- `channels_owned_by`
unfoldable pub channels_owned_by : Db → String → List String
channels_owned_by db account =
    map (λ (c : ChannelInfo). c.name)
      (retain (λ (c : ChannelInfo). eq_ignore_ascii_case c.founder account)
        (HashMap.values db.state.channels))

-- `channel_successor`
abbrev pub channel_successor : Db → String → Option String
channel_successor db channel = elim (HashMap.get db.state.channels (key channel)) [
  | none ↦ none
  | some c ↦ c.successor
]

-- The successor of the channel, if it is not the account itself and is registered.
abbrev pub valid_successor : Db → String → String → Option String
valid_successor db account channel = elim (channel_successor db channel) [
  | none ↦ none
  | some s ↦ if not (eq_ignore_ascii_case s account) && account_exists db s then some s else none
]

abbrev pub is_ok : {T E : Type 0} → Result T E → Bool
is_ok (ok _) = true
is_ok (err _) = false

-- One turn of the loop: the channel goes to its successor, or it is dropped. The flag says which;
-- the results of clearing the successor and of the drop are ignored.
unfoldable pub release_channel : World → Db → String → String → Db × Option String
unfolding set_founder set_successor drop_channel
release_channel w db account channel = elim (valid_successor db account channel) [
  | none ↦ ((drop_channel w db channel).0, none)
  | some s ↦
      if is_ok (set_founder w db channel s).1
      then ((set_successor w (set_founder w db channel s).0 channel none).0, some s)
      else ((drop_channel w (set_founder w db channel s).0 channel).0, none)
]

abbrev pub released :
    String
    → Option String
    → Db × List (String × String) × List String
    → Db × List (String × String) × List String
released channel none (db, transferred, dropped) = (db, transferred, channel ∷ dropped)
released channel (some s) (db, transferred, dropped) = (db, (channel, s) ∷ transferred, dropped)

unfoldable pub release_channels :
    World → Db → String → List String → Db × List (String × String) × List String
unfolding release_channel
release_channels w db account [] = (db, [], [])
release_channels w db account (channel ∷ channels) =
    let (db', successor) = release_channel w db account channel in
    released channel successor (release_channels w db' account channels)

unfoldable pub release_founded_channels :
    World → Db → String → Db × List (String × String) × List String
unfolding release_channels channels_owned_by
release_founded_channels w db account = release_channels w db account (channels_owned_by db account)
