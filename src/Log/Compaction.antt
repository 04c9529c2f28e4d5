-- ===== src/Log/Compaction.antt =====
-- `EventLog::compact` (src/engine/db/mod.rs): the snapshot's entries, and what a restart makes of them.
use native.Mathlib.Nat.{le_refl, le_trans}
use echo_services.Prelude.{
  ℕ, ◌+◌, ◌%◌, ◌^◌, ◌≤◌, inl, inr, String, true, Option, none, some, List, [], ◌∷◌, ◌≡◌, refl, ap,
  ◌∙◌, arith, eq_iff, eq_refl, u64_max, length, saturating_add,
}
use echo_services.HashMap
use echo_services.HashMap.{HashMap}
use echo_services.Event.{Event, global, local, scope}
use echo_services.Log.{
  LogEntry, EventLog, absorb, absorb_all, closed, cursor_newer, snapshot, fresh_versions, tick,
  snapshot_entry, with_entry, stamp_local, compact,
}
use echo_services.Log.Recovery.{
  IsRecoverable, origin-absorb, epoch-absorb, versions-absorb, lamport-absorb, epoch-absorb_local,
  scope_cases, saturating_add-le,
}

-- The loop's variables: the next sequence number follows the last one given out.
abbrev Follows : ℕ → Option ℕ → Type 0
Follows seq none = seq ≡ 0
Follows seq (some l) = seq ≡ l + 1

-- What `absorb` has made of the entries so far, against the log that stamps them.
record Folded (f log : EventLog) (last : Option ℕ) : Type 0 where
  origin : f.origin ≡ log.origin
  epoch : f.epoch ≤ log.epoch
  versions :
      (o : String)
      → HashMap.get f.versions o ≡ HashMap.get (fresh_versions log.origin log.epoch last) o
  clock : f.lamport ≤ log.lamport

-- Every entry of a snapshot brings the epoch up to the log's.
epoch_reached :
    (f log : EventLog) (e : LogEntry)
    → e.origin ≡ log.origin
    → e.epoch ≡ log.epoch
    → f.origin ≡ log.origin
    → f.epoch ≤ log.epoch
    → (absorb f e).epoch ≡ log.epoch
epoch_reached f log e p q r h = rw epoch-absorb (ground (arith, eq_iff e.origin f.origin))

Folded-global :
    (f log : EventLog) (seq : ℕ) (last : Option ℕ) (event : Event)
    → scope event ≡ global
    → Follows seq last
    → log.lamport ≤ u64_max
    → Folded f log last
    → Folded (absorb f (snapshot_entry log seq event)) (tick log) (some seq)
unfolding HashMap.get cursor_newer
Folded-global f log seq last event g follows c h =
    let e : LogEntry = snapshot_entry log seq event in
    record {
      origin = origin-absorb f e ∙ h.origin;
      epoch = omega (arith, epoch_reached f log e refl refl h.origin h.epoch);
      versions =
          λ o. rw (versions-absorb f e o g, h.versions o) (ground (arith, eq_iff log.origin o));
      clock =
          rw (lamport-absorb f e g) (omega (arith, h.clock, (saturating_add-le log.lamport 1 c).0));
    }

Folded-local :
    (f log : EventLog) (last : Option ℕ) (event : Event)
    → scope event ≡ local
    → Folded f log last
    → Folded (absorb f (stamp_local log log.epoch event)) log last
Folded-local f log last event l h =
    let e : LogEntry = stamp_local log log.epoch event in
    let b : ((absorb f e).versions ≡ f.versions) × ((absorb f e).lamport ≡ f.lamport) =
      epoch-absorb_local f e l in
    record {
      origin = origin-absorb f e ∙ h.origin;
      epoch = omega (arith, epoch_reached f log e refl refl h.origin h.epoch);
      versions = λ o. rw b.0 (h.versions o);
      clock = rw b.1 h.clock;
    }

-- The loop from any point: it keeps the origin, the epoch and the log's other fields, and what
-- `absorb` makes of the entries stays in step.
record Snapped (f log : EventLog) (r : EventLog × Option ℕ × List LogEntry) : Type 0 where
  origin : r.0.origin ≡ log.origin
  epoch : r.0.epoch ≡ log.epoch
  clock : r.0.lamport ≤ u64_max
  folded : Folded (absorb_all f r.2) r.0 r.1

snapshot_global :
    (log : EventLog) (seq : ℕ) (last : Option ℕ) (event : Event) (events : List Event)
    → scope event ≡ global
    → snapshot log seq last (event ∷ events)
      ≡ with_entry
          (snapshot_entry log seq event)
          (snapshot (tick log) ((seq + 1) % 2 ^ 64) (some seq) events)
unfolding snapshot
snapshot_global log seq last event events g = rw (g, snapshot)

snapshot_local :
    (log : EventLog) (seq : ℕ) (last : Option ℕ) (event : Event) (events : List Event)
    → scope event ≡ local
    → snapshot log seq last (event ∷ events)
      ≡ with_entry (stamp_local log log.epoch event) (snapshot log seq last events)
unfolding snapshot
snapshot_local log seq last event events l = rw (l, snapshot)

Snapped-with_entry :
    (f log log' : EventLog) (e : LogEntry) (r : EventLog × Option ℕ × List LogEntry)
    → log'.origin ≡ log.origin
    → log'.epoch ≡ log.epoch
    → Snapped (absorb f e) log' r
    → Snapped f log (with_entry e r)
unfolding absorb_all
Snapped-with_entry f log log' e (log'', last, rest) p q s = record {
  origin = s.origin ∙ p;
  epoch = s.epoch ∙ q;
  clock = s.clock;
  folded = s.folded;
}

snapshot-Snapped :
    (f log : EventLog) (seq : ℕ) (last : Option ℕ) (events : List Event)
    → Follows seq last
    → seq + length events ≤ u64_max
    → log.lamport ≤ u64_max
    → Folded f log last
    → Snapped f log (snapshot log seq last events)
unfolding snapshot absorb_all
snapshot-Snapped f log seq last [] fo fit c h = record {
  origin = refl;
  epoch = refl;
  clock = c;
  folded = h;
}
snapshot-Snapped f log seq last (event ∷ events) fo fit c h = elim (scope_cases event) [
  | inl g ↦ rw (snapshot_global log seq last event events g) (
      Snapped-with_entry f log (tick log) (snapshot_entry log seq event) _ refl refl (
        snapshot-Snapped (absorb f (snapshot_entry log seq event)) (tick log) ((seq + 1) % 2 ^ 64)
          (some seq) events (omega arith) (omega arith) (saturating_add-le log.lamport 1 c).1
          (Folded-global f log seq last event g fo c h)))
  | inr l ↦ rw (snapshot_local log seq last event events l) (
      Snapped-with_entry f log log (stamp_local log log.epoch event) _ refl refl (
        snapshot-Snapped (absorb f (stamp_local log log.epoch event)) log seq last events fo
          (omega arith) c (Folded-local f log last event l h)))
]

epoch-absorb_all-le : (f : EventLog) (es : List LogEntry) → f.epoch ≤ (absorb_all f es).epoch
unfolding absorb_all
epoch-absorb_all-le f [] = le_refl f.epoch
epoch-absorb_all-le f (e ∷ es) =
    le_trans (ground (arith, epoch-absorb f e)) (epoch-absorb_all-le (absorb f e) es)

-- The first entry of a snapshot carries the epoch.
snapshot_epoch :
    (f log : EventLog) (seq : ℕ) (last : Option ℕ) (event : Event) (events : List Event)
    → f.origin ≡ log.origin
    → f.epoch ≤ log.epoch
    → log.epoch ≤ (absorb_all f (snapshot log seq last (event ∷ events)).2).epoch
unfolding absorb_all
snapshot_epoch f log seq last event events p q = elim (scope_cases event) [
  | inl g ↦ rw (snapshot_global log seq last event events g) (
      le_trans (omega (arith, epoch_reached f log (snapshot_entry log seq event) refl refl p q)) (
        epoch-absorb_all-le (absorb f (snapshot_entry log seq event))
          (snapshot (tick log) ((seq + 1) % 2 ^ 64) (some seq) events).2))
  | inr l ↦ rw (snapshot_local log seq last event events l) (
      le_trans (omega (arith, epoch_reached f log (stamp_local log log.epoch event) refl refl p q))
        (epoch-absorb_all-le (absorb f (stamp_local log log.epoch event))
          (snapshot log seq last events).2))
]

fresh-own :
    (o : String) (epoch : ℕ) (last : Option ℕ) (e s : ℕ)
    → HashMap.get (fresh_versions o epoch last) o ≡ some (e, s)
    → e ≤ epoch
unfolding HashMap.get
fresh-own o epoch none e s h = ground arith
fresh-own o epoch (some l) e s h = ground (arith, eq_refl o)

-- A compaction that reaches the disk leaves a log that a restart recovers, epoch included.
pub compact-IsRecoverable :
    (log : EventLog) (events : List Event)
    → length events ≤ u64_max
    → log.lamport ≤ u64_max
    → IsRecoverable log
    → IsRecoverable (compact true log events).0
unfolding compact
compact-IsRecoverable log [] fit c r = r
compact-IsRecoverable log (event ∷ events) fit c r =
    let b : EventLog = record log { epoch = saturating_add log.epoch 1 } in
    let f : EventLog = closed log.origin in
    let z : Folded f b none = record {
      origin = refl;
      epoch = omega arith;
      versions = λ o. refl;
      clock = omega arith;
    } in
    let s : Snapped f b (snapshot b 0 none (event ∷ events)) =
      snapshot-Snapped f b 0 none (event ∷ events) refl (omega arith) c z in
    let x : EventLog = closed (snapshot b 0 none (event ∷ events)).0.origin in
    let q : x ≡ f = ap closed s.origin in
    record {
      on_file = refl;
      epoch = rw q (
          omega (
            arith,
            s.epoch,
            s.folded.epoch,
            snapshot_epoch f b 0 none event events refl (omega arith),
          ));
      versions = λ o. rw q (s.folded.versions o);
      lamport = rw q s.folded.clock;
      clock = s.clock;
      own = λ e' n h. fresh-own _ _ (snapshot b 0 none (event ∷ events)).1 e' n h;
    }
