-- ===== src/Log/Growth.antt =====
-- What an `append` does to the entries (src/engine/db/mod.rs).
use echo_services.Prelude.{
  List, true, false, Option, none, some, [], ◌∷◌, ◌++◌, ◌≡◌, refl, inl, inr, if_rule, Result, ok,
  err,
}
use echo_services.Event.{Event, scope, global}
use echo_services.Log.{
  EventLog, LogEntry, Disk, IoError, append, append_global, append_local, notify, stamp,
  stamp_local, keep, set_cursor, failed, permission_denied, tick, ingest, verified, accepts,
  receive,
}
use echo_services.HashMap
use echo_services.Log.Recovery.{scope_cases}
use echo_services.Log.Gossip.{ingest_global, ingest_local}

-- The log after one entry more, of this event, in memory and on file.
pub record Grown (log log' : EventLog) (event : Event) : Type 0 where
  pub entry : LogEntry
  pub carries : entry.event ≡ event
  pub entries : log'.entries ≡ log.entries ++ entry ∷ []
  pub file : log'.file ≡ log.file ++ entry ∷ []
  pub origin : log'.origin ≡ log.origin

pub record Unwritten (log log' : EventLog) : Type 0 where
  pub entries : log'.entries ≡ log.entries
  pub file : log'.file ≡ log.file
  pub origin : log'.origin ≡ log.origin

-- An append that succeeds grows the log by the event; one that fails writes nothing.
abbrev pub Appended : EventLog → Event → EventLog × Result (Unit {0}) IoError → Type 0
Appended log event (log', ok _) = Grown log log' event
Appended log event (log', err _) = Unwritten log log'

append_global-Appended :
    (disk : Disk) (log : EventLog) (event : Event)
    → Appended log event (append_global disk log event)
unfolding append_global notify
append_global-Appended disk log event =
    let e : LogEntry = stamp log event in
    if_rule (Appended log event) (disk log.entries e) {x = (keep (set_cursor log e) e, ok tt)}
      {y = (log, err failed)}
      (λ _. record { entry = e; carries = refl; entries = refl; file = refl; origin = refl })
      λ _. record { entries = refl; file = refl; origin = refl }

append_local-Appended :
    (disk : Disk) (log : EventLog) (event : Event)
    → Appended log event (append_local disk log event)
unfolding append_local notify
append_local-Appended disk log event =
    let e : LogEntry = stamp_local log 0 event in
    if_rule (Appended log event) (disk log.entries e) {x = (keep log e, ok tt)}
      {y = (log, err failed)}
      (λ _. record { entry = e; carries = refl; entries = refl; file = refl; origin = refl })
      λ _. record { entries = refl; file = refl; origin = refl }

-- The tick of the clock is not an entry.
Appended-tick :
    (log : EventLog) (event : Event) (r : EventLog × Result (Unit {0}) IoError)
    → Appended (tick log) event r
    → Appended log event r
Appended-tick log event (log', ok _) g = record {
  entry = g.entry;
  carries = g.carries;
  entries = g.entries;
  file = g.file;
  origin = g.origin;
}
Appended-tick log event (log', err _) u = record {
  entries = u.entries;
  file = u.file;
  origin = u.origin;
}

pub append-Appended :
    (disk : Disk) (log : EventLog) (event : Event) → Appended log event (append disk log event)
unfolding append
append-Appended disk log event =
    if_rule (Appended log event) log.readonly {x = (log, err permission_denied)}
      (λ _. record { entries = refl; file = refl; origin = refl })
      λ _. elim (scope_cases event) [
        | inl g ↦ rw g (
            Appended-tick log event (append_global disk (tick log) event)
              (append_global-Appended disk (tick log) event))
        | inr l ↦ rw l (append_local-Appended disk log event)
      ]

-- An append to a log that is not locked, on a disk that takes every write, succeeds.
pub append-ok :
    (disk : Disk) (log : EventLog) (event : Event)
    → log.readonly ≡ false
    → ((entries : List LogEntry) (entry : LogEntry) → disk entries entry ≡ true)
    → (append disk log event).1 ≡ ok tt
unfolding append append_global append_local
append-ok disk log event unlocked writable = rw unlocked (elim (scope_cases event) [
  | inl g ↦ rw g (rw (writable log.entries (stamp (tick log) event)) refl)
  | inr l ↦ rw l (rw (writable log.entries (stamp_local log 0 event)) refl)
])

-- An `ingest` that hands out an event grows the log by it, and it is of the global scope; any other
-- writes nothing.
abbrev pub Taken : EventLog → LogEntry → EventLog × Result (Option Event) IoError → Type 0
Taken log entry (log', ok none) = Unwritten log log'
Taken log entry (log', ok (some event)) =
    Grown log log' event × (scope event ≡ global) × (event ≡ entry.event)
Taken log entry (log', err _) = Unwritten log log'

unwritten : (log : EventLog) → Unwritten log log
unwritten log = record { entries = refl; file = refl; origin = refl }

pub ingest-Taken :
    (disk : Disk) (log : EventLog) (entry : LogEntry) → Taken log entry (ingest disk log entry)
unfolding notify
ingest-Taken disk log entry = elim (scope_cases entry.event) [
  | inr l ↦ rw (ingest_local disk log entry l) (unwritten log)
  | inl g ↦ rw (ingest_global disk log entry g) (
      if_rule (Taken log entry) (verified log entry) {y = (log, ok none)}
        (λ _.
          if_rule (Taken log entry)
            (accepts (HashMap.get log.versions entry.origin) entry.epoch entry.seq)
            {y = (log, ok none)}
            (λ _.
              if_rule (Taken log entry) (disk log.entries entry)
                {x = (keep (receive log entry) entry, ok (some entry.event))}
                {y = (log, err failed)}
                (λ _. (
                  record {
                    entry = entry;
                    carries = refl;
                    entries = refl;
                    file = refl;
                    origin = refl;
                  },
                  g,
                  refl,
                ))
                λ _. unwritten log)
            λ _. unwritten log)
        λ _. unwritten log)
]
