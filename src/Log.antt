-- ===== src/Log.antt =====
-- `LogEntry` and `EventLog` (src/engine/db/mod.rs): the append-only log, its version vector and its
-- Lamport clock. The file is the list of the entries whose lines were written; reading and writing
-- JSON is serde's. A write either succeeds or leaves the file as it was.

pub mod Recovery
pub mod Compaction
pub mod History
pub mod Gossip
pub mod CatchUp
pub mod Orderly
pub mod Growth
use echo_services.Prelude.{
  ℕ, ◌+◌, ◌%◌, ◌^◌, String, Bool, true, false, ◌&&◌, ◌||◌, Option, none, some, List, [], ◌∷◌, map,
  eqb, ltb, max, if◌then◌else◌, push, retain, length, drop, option_map, saturating_add, Result, ok,
  err, ◌==◌, is_empty,
}
use echo_services.HashMap
use echo_services.HashMap.{HashMap}
use echo_services.Event.{Event, Scope, global, local, scope}

-- `sign::Signing`, whose keys and signatures are those of the ed25519 library.
pub record Signing : Type 0 where
  pub sign : String → ℕ → ℕ → ℕ → Event → String
  pub verify : String → ℕ → ℕ → ℕ → Event → Option String → Bool

pub record LogEntry : Type 0 where
  pub origin : String
  pub seq : ℕ
  pub lamport : ℕ
  pub epoch : ℕ
  pub sig : Option String
  pub event : Event

pub record EventLog : Type 0 where
  pub origin : String
  pub lamport : ℕ
  pub epoch : ℕ
  pub versions : HashMap (ℕ × ℕ)
  pub entries : List LogEntry
  -- what the file holds
  pub file : List LogEntry
  -- what was pushed to the subscribers, if there are any
  pub outbound : Option (List LogEntry)
  pub readonly : Bool
  pub signing : Option Signing

pub data IoError : Type 0 where
  permission_denied failed : IoError

-- Whether the write of an entry succeeds, given the log so far.
abbrev pub Disk : Type 0
Disk = List LogEntry → LogEntry → Bool

-- Is `incoming` strictly newer than `have`?
unfoldable pub cursor_newer : ℕ × ℕ → ℕ × ℕ → Bool
cursor_newer have incoming =
    ltb have.0 incoming.0 || (eqb incoming.0 have.0 && ltb have.1 incoming.1)

abbrev pub merge_cursor : Option (ℕ × ℕ) → ℕ × ℕ → ℕ × ℕ
merge_cursor none cur = cur
merge_cursor (some c) cur = if cursor_newer c cur then cur else c

unfoldable pub absorb : EventLog → LogEntry → EventLog
absorb log entry =
    let log' : EventLog = record log {
      epoch = if entry.origin == log.origin then max log.epoch entry.epoch else log.epoch;
    } in
    elim (scope entry.event) [
      | local ↦ log'
      | global ↦ record log' {
        lamport = max log.lamport entry.lamport;
        versions =
            HashMap.insert log.versions entry.origin
              (merge_cursor (HashMap.get log.versions entry.origin) (entry.epoch, entry.seq));
      }
    ]

abbrev pub closed : String → EventLog
closed origin = record {
  origin = origin;
  lamport = 0;
  epoch = 0;
  versions = [];
  entries = [];
  file = [];
  outbound = none;
  readonly = false;
  signing = none;
}

unfoldable pub absorb_all : EventLog → List LogEntry → EventLog
absorb_all log [] = log
absorb_all log (e ∷ es) = absorb_all (absorb log e) es

-- `EventLog::open`, on the entries that the file's lines parse to
unfoldable pub open_log : String → List LogEntry → EventLog
unfolding absorb_all
open_log origin file = record (absorb_all (closed origin) file) { entries = file; file = file }

abbrev next_after : ℕ → Option (ℕ × ℕ) → ℕ
next_after epoch none = 0
next_after epoch (some (e, s)) = if eqb e epoch then (s + 1) % 2 ^ 64 else 0

unfoldable pub next_seq : EventLog → ℕ
next_seq log = next_after log.epoch (HashMap.get log.versions log.origin)

unfoldable pub notify : EventLog → LogEntry → EventLog
notify log entry = record log { outbound = option_map (λ sent. push sent entry) log.outbound }

-- The signature that the log puts on an entry of its own, where signing is on.
abbrev pub sign_with : EventLog → ℕ → Event → Option String
sign_with log seq event =
    option_map (λ (s : Signing). s.sign log.origin log.epoch seq log.lamport event) log.signing

abbrev pub stamp : EventLog → Event → LogEntry
stamp log event = record {
  origin = log.origin;
  seq = next_seq log;
  lamport = log.lamport;
  epoch = log.epoch;
  sig = sign_with log (next_seq log) event;
  event = event;
}

abbrev pub stamp_local : EventLog → ℕ → Event → LogEntry
stamp_local log epoch event = record {
  origin = log.origin;
  seq = 0;
  lamport = 0;
  epoch = epoch;
  sig = none;
  event = event;
}

-- What follows a write that succeeded: the entry is on file, sent and kept.
abbrev pub keep : EventLog → LogEntry → EventLog
keep log entry =
    let sent : EventLog = notify log entry in
    record sent { entries = push log.entries entry; file = push log.file entry }

abbrev pub set_cursor : EventLog → LogEntry → EventLog
set_cursor log entry = record log {
  versions = HashMap.insert log.versions entry.origin (entry.epoch, entry.seq);
}

abbrev pub tick : EventLog → EventLog
tick log = record log { lamport = saturating_add log.lamport 1 }

append_global : Disk → EventLog → Event → EventLog × Result (Unit {0}) IoError
append_global disk log event =
    if disk log.entries (stamp log event)
    then (keep (set_cursor log (stamp log event)) (stamp log event), ok tt)
    else (log, err failed)

append_local : Disk → EventLog → Event → EventLog × Result (Unit {0}) IoError
append_local disk log event =
    if disk log.entries (stamp_local log 0 event)
    then (keep log (stamp_local log 0 event), ok tt)
    else (log, err failed)

-- The clock ticks before the write, and is not turned back where the write fails.
unfoldable pub append : Disk → EventLog → Event → EventLog × Result (Unit {0}) IoError
unfolding append_global append_local
append disk log event = if log.readonly then (log, err permission_denied) else elim (scope event) [
  | global ↦ append_global disk (record log { lamport = saturating_add log.lamport 1 }) event
  | local ↦ append_local disk log event
]

-- In order within an epoch; a later epoch starts at 0; an earlier one is superseded.
unfoldable pub accepts : Option (ℕ × ℕ) → ℕ → ℕ → Bool
accepts none e s = eqb s 0
accepts (some (eb, sb)) e s =
    if eqb e eb then eqb s ((sb + 1) % 2 ^ 64) else if ltb eb e then eqb s 0 else false

abbrev pub verified : EventLog → LogEntry → Bool
verified log entry = elim log.signing [
  | none ↦ true
  | some s ↦ s.verify entry.origin entry.epoch entry.seq entry.lamport entry.event entry.sig
]

-- The Lamport receive rule, and the cursor of the entry's origin.
abbrev pub receive : EventLog → LogEntry → EventLog
receive log entry =
    set_cursor (record log { lamport = saturating_add (max log.lamport entry.lamport) 1 }) entry

-- `EventLog::ingest`
unfoldable pub ingest : Disk → EventLog → LogEntry → EventLog × Result (Option Event) IoError
unfolding accepts
ingest disk log entry = elim (scope entry.event) [
  | local ↦ (log, ok none)
  | global ↦
      if verified log entry
      then if accepts (HashMap.get log.versions entry.origin) entry.epoch entry.seq
        then if disk log.entries entry
          then (keep (receive log entry) entry, ok (some entry.event))
          else (log, err failed)
        else (log, ok none)
      else (log, ok none)
]

unfoldable pub events_from : EventLog → ℕ → List Event
events_from log mark = map (λ (e : LogEntry). e.event) (drop mark log.entries)

-- Whether a peer with this cursor lacks the entry.
abbrev pub lacks : HashMap (ℕ × ℕ) → LogEntry → Bool
lacks peer e = elim (HashMap.get peer e.origin) [
  | none ↦ true
  | some h ↦ cursor_newer h (e.epoch, e.seq)
]

abbrev pub is_global : Event → Bool
is_global event = elim (scope event) [ global ↦ true | local ↦ false ]

unfoldable pub missing_for : EventLog → HashMap (ℕ × ℕ) → List LogEntry
missing_for log peer = retain (lacks peer) (retain (λ e. is_global e.event) log.entries)

-- The entry that a snapshot makes of a global event.
abbrev pub snapshot_entry : EventLog → ℕ → Event → LogEntry
snapshot_entry log seq event = record {
  origin = log.origin;
  seq = seq;
  lamport = (tick log).lamport;
  epoch = log.epoch;
  sig = sign_with (tick log) seq event;
  event = event;
}

abbrev pub with_entry :
    LogEntry → EventLog × Option ℕ × List LogEntry → EventLog × Option ℕ × List LogEntry
with_entry entry (log, last, rest) = (log, last, entry ∷ rest)

-- The loop in `compact`, over the log, the next sequence number and the last one given out.
unfoldable pub snapshot : EventLog → ℕ → Option ℕ → List Event → EventLog × Option ℕ × List LogEntry
snapshot log seq last [] = (log, last, [])
snapshot log seq last (event ∷ events) = elim (scope event) [
  | global ↦
      with_entry (snapshot_entry log seq event)
        (snapshot (tick log) ((seq + 1) % 2 ^ 64) (some seq) events)
  | local ↦ with_entry (stamp_local log log.epoch event) (snapshot log seq last events)
]

abbrev pub fresh_versions : String → ℕ → Option ℕ → HashMap (ℕ × ℕ)
fresh_versions origin epoch none = []
fresh_versions origin epoch (some last) = (origin, (epoch, last)) ∷ []

-- `EventLog::compact`; `written` says whether the new file was written and moved into place.
unfoldable pub compact : Bool → EventLog → List Event → EventLog × Result (Unit {0}) IoError
unfolding snapshot
compact written log [] = (log, ok tt)
compact written log (event ∷ events) =
    let (log', last, entries) =
      snapshot (record log { epoch = saturating_add log.epoch 1 }) 0 none (event ∷ events) in
    if written
    then (
      record log' {
        versions = fresh_versions log'.origin log'.epoch last;
        entries = entries;
        file = entries;
      },
      ok tt,
    )
    else (log', err failed)

-- One use of the log: the calls that change it.
pub data LogCall : Type 0 where
  appends : Event → LogCall
  ingests : LogEntry → LogCall
  compacts : List Event → LogCall

unfoldable pub step : Disk → EventLog → LogCall → EventLog
step disk log (appends event) = (append disk log event).0
step disk log (ingests entry) = (ingest disk log entry).0
step disk log (compacts events) = (compact true log events).0

unfoldable pub run : Disk → EventLog → List LogCall → EventLog
unfolding step
run disk log [] = log
run disk log (call ∷ calls) = run disk (step disk log call) calls
