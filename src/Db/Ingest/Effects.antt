-- ===== src/Db/Ingest/Effects.antt =====
-- What `Db::ingest` asks of the local ircd, and when (src/engine/db/mod.rs).
use echo_services.Prelude.{
  ℕ, ◌+◌, ◌-◌, ◌<◌, String, true, false, not, ◌&&◌, Option, none, some, ◌≡◌, refl, ap, arith, inl,
  inr, ◌⊎◌, Result, ok, err, if_rule, ◌==◌, leb, subst,
}
use echo_services.Data.{State, Account}
use echo_services.Event.{Event}
use echo_services.Log
use echo_services.Log.{EventLog, LogEntry, IoError}
use echo_services.Log.Growth.{Taken, ingest-Taken}
use echo_services.Fold.{apply}
use echo_services.Db.{Db, World}
use echo_services.Db.Ingest
use echo_services.Db.Ingest.{
  IngestEffect, taken_over, dropped, suspended, ban_added, ban_lifted, account, is_suspended,
  same_text, owner_change, watched, applied_effect, ingested, or_else,
}

-- What must have happened between two states of the store, by an event, at a time, for an effect.
abbrev pub IsWarranted : ℕ → Event → State → State → IngestEffect → Type 0
IsWarranted now event before after (taken_over name) =
    (prev : Account) × (cur : Account) × (account before name ≡ some prev)
    × (account after name ≡ some cur)
    × ((cur.home == prev.home) ≡ false)
    × (same_text cur.scram256 prev.scram256 ≡ false)
IsWarranted now event before after (dropped name) =
    (prev : Account) × (account before name ≡ some prev) × (account after name ≡ none)
IsWarranted now event before after (suspended name) = is_suspended now after name ≡ true
IsWarranted now event before after (ban_added kind mask setter duration reason) =
    (ts : ℕ) × (((event ≡ Event.akill_added kind mask setter reason ts none) × (duration ≡ 0))
      ⊎ ((event ≡ Event.akill_added kind mask setter reason ts (some (now + duration)))
          × (0 < duration)))
IsWarranted now event before after (ban_lifted kind mask) = event ≡ Event.akill_removed kind mask

-- An effect that is there is warranted.
abbrev Warranted : ℕ → Event → State → State → Option IngestEffect → Type 0
Warranted now event before after none = Unit {0}
Warranted now event before after (some effect) = IsWarranted now event before after effect

owner_change-Warranted :
    (now : ℕ) (event : Event) (before after : State) (name : String) (o o' : Option Account)
    → account before name ≡ o
    → account after name ≡ o'
    → Warranted now event before after (owner_change name o o')
unfolding owner_change
owner_change-Warranted now event before after name none o' p q = tt
owner_change-Warranted now event before after name (some prev) none p q = (prev, p, q)
owner_change-Warranted now event before after name (some prev) (some cur) p q =
    if_rule (Warranted now event before after)
      (not (cur.home == prev.home) && not (same_text cur.scram256 prev.scram256))
      (λ h. (prev, cur, p, q, ground (arith), ground (arith))) λ _. tt

watched-Warranted :
    (now : ℕ) (event : Event) (before after : State)
    → Warranted now event before after (watched event before after)
unfolding watched
watched-Warranted now (Event.account_registered a) before after =
    owner_change-Warranted now (Event.account_registered a) before after a.name _ _ refl refl
watched-Warranted now (Event.account_dropped name) before after =
    owner_change-Warranted now (Event.account_dropped name) before after name _ _ refl refl
watched-Warranted now _ before after = tt

later : (x now : ℕ) → leb x now ≡ false → (x ≡ now + (x - now)) × (0 < x - now)
later x now h = ground arith

applied-Warranted :
    (now : ℕ) (event : Event) (before after : State)
    → Warranted now event before after (applied_effect now after event)
unfolding applied_effect
applied-Warranted now (Event.account_suspended name by reason ts expires) before after =
    if_rule (Warranted now (Event.account_suspended name by reason ts expires) before after)
      (is_suspended now after name) (λ h. h) λ _. tt
applied-Warranted now (Event.akill_added kind mask setter reason ts none) before after =
    (ts, inl (refl, refl))
applied-Warranted now (Event.akill_added kind mask setter reason ts (some x)) before after =
    if_rule (Warranted now (Event.akill_added kind mask setter reason ts (some x)) before after)
      (leb x now) (λ _. tt)
      λ h. (
        ts,
        inr (
          ap (λ (y : ℕ). Event.akill_added kind mask setter reason ts (some y)) (later x now h).0,
          (later x now h).1,
        ),
      )
applied-Warranted now (Event.akill_removed kind mask) before after = refl
applied-Warranted now _ before after = tt

or_else-Warranted :
    (now : ℕ) (event : Event) (before after : State) (a b : Option IngestEffect)
    → Warranted now event before after a
    → Warranted now event before after b
    → Warranted now event before after (or_else a b)
or_else-Warranted now event before after none b p q = q
or_else-Warranted now event before after (some e) b p q = p

-- The effect that a result carries.
abbrev pub effect_of : Result (Option IngestEffect) IoError → Option IngestEffect
effect_of (ok o) = o
effect_of (err _) = none

ingested-Warranted :
    (w : World) (db : Db) (entry : LogEntry) (r : EventLog × Result (Option Event) IoError)
    → Taken db.log entry r
    → Warranted w.now entry.event db.state
        (ingested w db entry r).0.state
        (effect_of (ingested w db entry r).1)
ingested-Warranted w db entry (log, err e) t = tt
ingested-Warranted w db entry (log, ok none) t =
    watched-Warranted w.now entry.event db.state db.state
ingested-Warranted w db entry (log, ok (some event)) t =
    or_else-Warranted w.now entry.event db.state (apply db.state event)
      (watched entry.event db.state (apply db.state event))
      (applied_effect w.now (apply db.state event) event)
      (watched-Warranted w.now entry.event db.state (apply db.state event))
      (subst
        (λ (e : Event).
          Warranted w.now e db.state (apply db.state event)
            (applied_effect w.now (apply db.state event) event))
        t.2 (applied-Warranted w.now event db.state (apply db.state event)))

effect-IsWarranted :
    (now : ℕ) (event : Event) (before after : State) (o : Option IngestEffect)
    (effect : IngestEffect)
    → o ≡ some effect
    → Warranted now event before after o
    → IsWarranted now event before after effect
effect-IsWarranted now event before after o effect q w =
    subst (λ (x : Option IngestEffect). Warranted now event before after x) q w

-- What an entry of a peer makes the local ircd do has its reason. A session is logged out as taken
-- over only where the account's home and its credential are both others than before; as dropped only
-- where the account was there and is gone; as suspended only where a suspension is in force. A ban is
-- installed for ever only where it has no end, and else for the time that is left of it, which is
-- never none: a ban that has run out is not installed. A ban is lifted only by its removal.
pub ingest-IsWarranted :
    (w : World) (db : Db) (entry : LogEntry) (effect : IngestEffect)
    → effect_of (Ingest.ingest w db entry).1 ≡ some effect
    → IsWarranted w.now entry.event db.state (Ingest.ingest w db entry).0.state effect
unfolding Ingest.ingest
ingest-IsWarranted w db entry effect h =
    effect-IsWarranted w.now entry.event db.state (Ingest.ingest w db entry).0.state
      (effect_of (Ingest.ingest w db entry).1) effect h
      (ingested-Warranted w db entry (Log.ingest w.disk db.log entry)
        (ingest-Taken w.disk db.log entry))
