-- ===== src/Db.antt =====
-- `Db` (src/engine/db/mod.rs): the log and what is folded from it. Its other fields are caches of
-- the session and settings, which no event sets.
pub mod Registry
pub mod AccessLists
pub mod ChannelConfig
pub mod Patterns
pub mod Calls
pub mod Bans
pub mod Groups
pub mod GroupTracing
pub mod Noted
pub mod Desk
pub mod Masks
pub mod Members
pub mod Hosts
pub mod MemberCalls
pub mod MemberTracing
pub mod HostTracing
pub mod Traced
pub mod Tracing
pub mod NetCalls
pub mod Accounts
pub mod AccountTracing
pub mod NetTracing
pub mod Ingest
pub mod Restart
pub mod Runs
pub mod Invariants
pub mod Limits
pub mod ChannelLists
pub mod Bounds
pub mod Distinct
use echo_services.Prelude.{
  ℕ, String, Bool, Option, some, List, if◌then◌else◌, is_some, option_map, Result, ok, err,
  eq_ignore_ascii_case,
}
use echo_services.HashMap
use echo_services.Data.{State, Account, ChannelInfo, empty_state}
use echo_services.Event.{Event}
use echo_services.Log.{EventLog, LogEntry, Disk, append, open_log, events_from}
use echo_services.Fold.{replay}
use echo_services.Fold.Updates.{key}

pub record Db : Type 0 where
  pub state : State
  pub log : EventLog

-- What a call reads outside the store: the clock, whether writes succeed, and which patterns the
-- regex library compiles within the size limit.
pub record World : Type 0 where
  pub now : ℕ
  pub disk : Disk
  pub compiles : String → Bool

pub data ChanError : Type 0 where
  exists no_channel invalid_pattern full internal : ChanError

-- `Db::open`, on the entries that the file's lines parse to
unfoldable pub open_db : String → List LogEntry → Db
open_db origin file =
    let log : EventLog = open_log origin file in
    record { state = replay empty_state (events_from log 0); log = log }

-- `self.log.append(event).map_err(|_| fault)?;`, the write to the store, and `Ok(value)`
unfoldable pub commit :
    {T E : Type 0} → World → Db → Event → E → (State → State) → T → Db × Result T E
commit w db event fault write value = elim (append w.disk db.log event).1 [
  | ok _ ↦ (record { state = write db.state; log = (append w.disk db.log event).0 }, ok value)
  | err _ ↦ (record db { log = (append w.disk db.log event).0 }, err fault)
]

-- `let c = self.channels.get_mut(&k).unwrap();` and the writes through `c`
abbrev pub edit_channel : String → (ChannelInfo → ChannelInfo) → State → State
edit_channel k f s = record s { channels = HashMap.modify s.channels k f }

-- `resolved_key`: the key of the account of this name, or of the account it is grouped to
unfoldable pub resolved_key : Db → String → Option String
resolved_key db name =
    if HashMap.contains_key db.state.accounts (key name)
    then some (key name)
    else option_map key (HashMap.get db.state.grouped (key name))

unfoldable pub account_exists : Db → String → Bool
unfolding resolved_key
account_exists db name = is_some (resolved_key db name)
