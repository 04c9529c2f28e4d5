-- ===== src/Log/Gossip.antt =====
-- What `ingest` accepts, and in which order (src/engine/db/mod.rs).
use echo_services.Prelude.{
  ℕ, ◌+◌, ◌<◌, true, false, Option, none, some, ◌≡◌, refl, ap, arith, u64_max, Result, ok, err,
  if◌then◌else◌, eq_refl, inl, inr, ◌⊎◌, if_rule,
}
use echo_services.HashMap
use echo_services.HashMap.Laws.{get-insert}
use echo_services.Event.{Event, global, local, scope}
use echo_services.Log.{
  LogEntry, EventLog, Disk, IoError, failed, accepts, ingest, keep, receive, verified, notify,
}
use echo_services.Log.Recovery.{scope_cases}

-- The version vector after an entry was taken in.
cursor-keep :
    (log : EventLog) (e : LogEntry)
    → HashMap.get (keep (receive log e) e).versions e.origin ≡ some (e.epoch, e.seq)
unfolding notify
cursor-keep log e =
    rw (get-insert log.versions e.origin (e.epoch, e.seq) e.origin, eq_refl e.origin)

accepts_once : (e s : ℕ) → accepts (some (e, s)) e s ≡ false
unfolding accepts
accepts_once e s = ground arith

-- An entry whose place is taken is dropped.
ingest_stale :
    (disk : Disk) (log : EventLog) (entry : LogEntry)
    → HashMap.get log.versions entry.origin ≡ some (entry.epoch, entry.seq)
    → ingest disk log entry ≡ (log, ok none)
unfolding ingest
ingest_stale disk log entry c = elim (scope_cases entry.event) [
  | inr l ↦ rw (l, ingest)
  | inl g ↦ rw (g, ingest, c, accepts_once entry.epoch entry.seq) (ground arith)
]

-- The entry that may follow a cursor: the next one of its epoch, or the first of a later epoch; of an
-- origin that is not known yet, the first of any epoch.
abbrev pub InOrder : Option (ℕ × ℕ) → ℕ → ℕ → Type 0
InOrder none e s = s ≡ 0
InOrder (some (eb, sb)) e s = ((e ≡ eb) × (s ≡ sb + 1)) ⊎ ((eb < e) × (s ≡ 0))

abbrev Room : Option (ℕ × ℕ) → Type 0
Room c = (e s : ℕ) → c ≡ some (e, s) → s < u64_max

accepts-InOrder : (c : Option (ℕ × ℕ)) (e s : ℕ) → Room c → accepts c e s ≡ true → InOrder c e s
unfolding accepts
accepts-InOrder none e s room h = ground arith
accepts-InOrder (some (eb, sb)) e s room h = ground (arith, room eb sb)

-- The two outcomes of an `ingest`.
abbrev pub Outcome : EventLog → LogEntry → EventLog × Result (Option Event) IoError → Type 0
Outcome log entry r =
    ((r ≡ (keep (receive log entry) entry, ok (some entry.event)))
      × (scope entry.event ≡ global)
      × (verified log entry ≡ true)
      × InOrder (HashMap.get log.versions entry.origin) entry.epoch entry.seq)
    ⊎ ((r.0 ≡ log) × ((r.1 ≡ ok none) ⊎ (r.1 ≡ err failed)))

pub ingest_global :
    (disk : Disk) (log : EventLog) (entry : LogEntry)
    → scope entry.event ≡ global
    → ingest disk log entry ≡ (
        if verified log entry
        then if accepts (HashMap.get log.versions entry.origin) entry.epoch entry.seq
          then if disk log.entries entry
            then (keep (receive log entry) entry, ok (some entry.event))
            else (log, err failed)
          else (log, ok none)
        else (log, ok none))
unfolding ingest
ingest_global disk log entry g = rw (g, ingest)

pub ingest_local :
    (disk : Disk) (log : EventLog) (entry : LogEntry)
    → scope entry.event ≡ local
    → ingest disk log entry ≡ (log, ok none)
unfolding ingest
ingest_local disk log entry l = rw (l, ingest)

pub ingest-Outcome :
    (disk : Disk) (log : EventLog) (entry : LogEntry)
    → ((e s : ℕ) → HashMap.get log.versions entry.origin ≡ some (e, s) → s < u64_max)
    → Outcome log entry (ingest disk log entry)
ingest-Outcome disk log entry room = elim (scope_cases entry.event) [
  | inr l ↦ rw (ingest_local disk log entry l) (inr (refl, inl refl))
  | inl g ↦ rw (ingest_global disk log entry g) (
      if_rule (Outcome log entry) (verified log entry)
        (λ v.
          if_rule (Outcome log entry)
            (accepts (HashMap.get log.versions entry.origin) entry.epoch entry.seq)
            (λ a.
              if_rule (Outcome log entry) (disk log.entries entry)
                (λ _. inl (
                  refl,
                  g,
                  v,
                  accepts-InOrder (HashMap.get log.versions entry.origin) entry.epoch entry.seq room
                      a,
                ))
                (λ _. inr (refl, inr refl)))
            (λ _. inr (refl, inl refl)))
        (λ _. inr (refl, inl refl)))
]

-- An entry is taken in once: if it was, then offering it again to the log that took it, on any
-- disk, leaves that log as it is and hands out no event. The condition: its origin's cursor had a
-- next sequence number.
pub ingest_again :
    (disk disk' : Disk) (log : EventLog) (entry : LogEntry) (event : Event)
    → ((e s : ℕ) → HashMap.get log.versions entry.origin ≡ some (e, s) → s < u64_max)
    → (ingest disk log entry).1 ≡ ok (some event)
    → ingest disk' (ingest disk log entry).0 entry ≡ ((ingest disk log entry).0, ok none)
ingest_again disk disk' log entry event room h = elim (ingest-Outcome disk log entry room) [
  | inl t ↦
      ingest_stale disk' (ingest disk log entry).0 entry (
        rw (ap (λ (r : EventLog × Result (Option Event) IoError). r.0) t.0) (cursor-keep log entry))
  | inr n ↦ elim n.1 [ inl q ↦ cc (q, h) | inr q ↦ cc (q, h) ]
]
