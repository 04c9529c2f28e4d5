-- ===== src/Db/Ingest.antt =====
-- `Db::ingest` and what it asks of the local ircd (src/engine/db/mod.rs).
pub mod Effects
use echo_services.Prelude.{
  ℕ, ◌-◌, String, Bool, true, false, not, ◌&&◌, Option, none, some, ◌==◌, leb, ltb, if◌then◌else◌,
  Result, ok, err, is_some_and, is_none_or,
}
use echo_services.HashMap
use echo_services.Data.{State, Account}
use echo_services.Event.{Event}
use echo_services.Log
use echo_services.Log.{EventLog, LogEntry, IoError}
use echo_services.Fold.{apply}
use echo_services.Fold.Updates.{key}
use echo_services.Db.{Db, World}

pub data IngestEffect : Type 0 where
  taken_over dropped suspended : String → IngestEffect
  ban_added : String → String → String → ℕ → String → IngestEffect
  ban_lifted : String → String → IngestEffect

-- `Db::account`
abbrev pub account : State → String → Option Account
account s name = HashMap.get s.accounts (key name)

-- `is_suspended`: a suspension that has not run out
unfoldable pub is_suspended : ℕ → State → String → Bool
is_suspended now s name =
    is_some_and (account s name)
      λ a. is_some_and a.suspension λ p. is_none_or p.expires λ e. ltb now e

unfoldable pub same_text : Option String → Option String → Bool
same_text none none = true
same_text none (some b) = false
same_text (some a) none = false
same_text (some a) (some b) = a == b

-- The account before and after: a takeover needs another home and another credential.
unfoldable pub owner_change : String → Option Account → Option Account → Option IngestEffect
unfolding same_text
owner_change name none cur = none
owner_change name (some prev) none = some (dropped name)
owner_change name (some prev) (some cur) =
    if not (cur.home == prev.home) && not (same_text cur.scram256 prev.scram256)
    then some (taken_over name)
    else none

-- The account that the incoming entry may take over or drop is watched.
unfoldable pub watched : Event → State → State → Option IngestEffect
unfolding owner_change
watched (Event.account_registered a) before after =
    owner_change a.name (account before a.name) (account after a.name)
watched (Event.account_dropped name) before after =
    owner_change name (account before name) (account after name)
watched _ before after = none

-- The effect of the applied event on sessions and bans. A ban that has run out is not installed.
unfoldable pub applied_effect : ℕ → State → Event → Option IngestEffect
unfolding is_suspended
applied_effect now after (Event.account_suspended name by reason ts expires) =
    if is_suspended now after name then some (suspended name) else none
applied_effect now after (Event.akill_added kind mask setter reason ts none) =
    some (ban_added kind mask setter 0 reason)
applied_effect now after (Event.akill_added kind mask setter reason ts (some x)) =
    if leb x now then none else some (ban_added kind mask setter (x - now) reason)
applied_effect now after (Event.akill_removed kind mask) = some (ban_lifted kind mask)
applied_effect now after _ = none

abbrev pub or_else : Option IngestEffect → Option IngestEffect → Option IngestEffect
or_else none other = other
or_else (some e) other = some e

-- What follows the log's `ingest`: the event that it hands out is folded in.
abbrev pub ingested :
    World
    → Db
    → LogEntry
    → EventLog × Result (Option Event) IoError
    → Db × Result (Option IngestEffect) IoError
ingested w db entry (log, err e) = (record db { log = log }, err e)
ingested w db entry (log, ok none) =
    (record db { log = log }, ok (watched entry.event db.state db.state))
ingested w db entry (log, ok (some event)) = (
  record { state = apply db.state event; log = log },
  ok (
      or_else (watched entry.event db.state (apply db.state event))
        (applied_effect w.now (apply db.state event) event)),
)

unfoldable pub ingest : World → Db → LogEntry → Db × Result (Option IngestEffect) IoError
unfolding watched applied_effect
ingest w db entry = ingested w db entry (Log.ingest w.disk db.log entry)
