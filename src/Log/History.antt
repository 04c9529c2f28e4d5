-- ===== src/Log/History.antt =====
-- Any history of appends, ingests and compactions, and the restart after it (src/engine/db/mod.rs).
use native.Mathlib.Nat.{le_refl}
use echo_services.Prelude.{
  ℕ, ◌≤◌, String, Option, none, some, List, [], ◌∷◌, ◌≡◌, refl, ap, arith, u64_max, length, ◌==◌,
  inl, inr, max, if◌then◌else◌,
}
use echo_services.HashMap
use echo_services.Log.{
  LogEntry, EventLog, Disk, LogCall, appends, ingests, compacts, step, run, open_log, closed,
  absorb, absorb_all, next_seq, merge_cursor, cursor_newer,
}
use echo_services.Log.Recovery.{
  IsRecoverable, Fits, append-IsRecoverable, ingest-IsRecoverable, origin-absorb, epoch-absorb,
  versions-absorb, lamport-absorb, epoch-absorb_local, scope_cases, origin-absorb_all,
}
use echo_services.Log.Compaction.{compact-IsRecoverable}

-- A `u64` clock in what is received, no later epoch of the node's own in it, and no list of events
-- too long to be numbered.
abbrev pub IsCall : EventLog → LogCall → Type 0
IsCall log (appends event) = Unit {0}
IsCall log (ingests entry) =
    (entry.lamport ≤ u64_max) × (entry.origin ≡ log.origin → entry.epoch ≤ log.epoch)
IsCall log (compacts events) = length events ≤ u64_max

-- Each call is made on a log whose cursors have not run out.
abbrev pub AreCalls : Disk → EventLog → List LogCall → Type 0
AreCalls disk log [] = Unit {0}
AreCalls disk log (call ∷ calls) =
    Fits log × IsCall log call × AreCalls disk (step disk log call) calls

step-IsRecoverable :
    (disk : Disk) (log : EventLog) (call : LogCall)
    → Fits log
    → IsCall log call
    → IsRecoverable log
    → IsRecoverable (step disk log call)
unfolding step
step-IsRecoverable disk log (appends event) fits c r = append-IsRecoverable disk log event fits r
step-IsRecoverable disk log (ingests entry) fits c r =
    ingest-IsRecoverable disk log entry fits c.0 c.1 r
step-IsRecoverable disk log (compacts events) fits c r =
    compact-IsRecoverable log events c r.clock r

run-IsRecoverable :
    (disk : Disk) (log : EventLog) (calls : List LogCall)
    → AreCalls disk log calls
    → IsRecoverable log
    → IsRecoverable (run disk log calls)
unfolding run
run-IsRecoverable disk log [] c r = r
run-IsRecoverable disk log (call ∷ calls) c r =
    run-IsRecoverable disk (step disk log call) calls c.2
      (step-IsRecoverable disk log call c.0 c.1 r)

abbrev pub AllClocks : List LogEntry → Type 0
AllClocks [] = Unit {0}
AllClocks (e ∷ es) = (e.lamport ≤ u64_max) × AllClocks es

record Opened (f : EventLog) : Type 0 where
  clock : f.lamport ≤ u64_max
  own : (e s : ℕ) → HashMap.get f.versions f.origin ≡ some (e, s) → e ≤ f.epoch

own_cursor :
    (f : EventLog) (e : LogEntry) (e' s : ℕ) (c : Option (ℕ × ℕ))
    → (c ≡ some (e', s) → e' ≤ f.epoch)
    → (if e.origin == f.origin then some (merge_cursor c (e.epoch, e.seq)) else c) ≡ some (e', s)
    → e' ≤ (if e.origin == f.origin then max f.epoch e.epoch else f.epoch)
unfolding cursor_newer
own_cursor f e e' s none k h = ground arith
own_cursor f e e' s (some c) k h = ground (arith, k)

absorb-Opened : (f : EventLog) (e : LogEntry) → e.lamport ≤ u64_max → Opened f → Opened (absorb f e)
unfolding cursor_newer
absorb-Opened f e l o = elim (scope_cases e.event) [
  | inr q ↦ record {
    clock = omega (arith, ap (λ (x : ℕ). x) (epoch-absorb_local f e q).1, o.clock);
    own = λ e' s.
        rw (origin-absorb f e, epoch-absorb f e, (epoch-absorb_local f e q).0)
          (λ h. ground (arith, o.own e' s h));
  }
  | inl g ↦ record {
    clock = rw (lamport-absorb f e g) (omega (arith, o.clock));
    own = λ e' s.
        rw (origin-absorb f e, epoch-absorb f e, versions-absorb f e f.origin g)
          (own_cursor f e e' s (HashMap.get f.versions f.origin) (o.own e' s));
  }
]

none_own : (n e s : ℕ) → ◌≡◌ {A = Option (ℕ × ℕ)} none (some (e, s)) → e ≤ n
none_own n e s h = cc

absorb_all-Opened :
    (f : EventLog) (es : List LogEntry) → AllClocks es → Opened f → Opened (absorb_all f es)
unfolding absorb_all
absorb_all-Opened f [] c o = o
absorb_all-Opened f (e ∷ es) c o = absorb_all-Opened (absorb f e) es c.1 (absorb-Opened f e c.0 o)

-- A log that was just opened is recoverable, whatever the file holds.
pub open_log-IsRecoverable :
    (origin : String) (file : List LogEntry) → AllClocks file → IsRecoverable (open_log origin file)
unfolding open_log HashMap.get
open_log-IsRecoverable origin file c =
    let f : EventLog = absorb_all (closed origin) file in
    let o : Opened f =
      absorb_all-Opened (closed origin) file c
        (record { clock = omega arith; own = λ e s. none_own 0 e s }) in
    let q : closed f.origin ≡ closed origin = ap closed (origin-absorb_all (closed origin) file) in
    record {
      on_file = refl;
      epoch = rw q refl;
      versions = λ k. rw q refl;
      lamport = rw q (le_refl f.lamport);
      clock = o.clock;
      own = o.own;
    }

-- What a restart finds after the log was opened on any file and then used in any order: appends that
-- are refused, fail or succeed, entries of other nodes, and compactions that reach the disk. It has
-- the entries, the epoch, the next sequence number and the cursor of every origin that the running
-- log had, and no later clock. The conditions: no cursor has run out of sequence numbers at a call,
-- no received entry claims a later epoch of this node than it has itself, clocks are `u64` values,
-- and a compaction has fewer than 2^64 events.
pub open_log-run :
    (disk : Disk) (origin : String) (file : List LogEntry) (calls : List LogCall)
    → AllClocks file
    → AreCalls disk (open_log origin file) calls
    → let log = run disk (open_log origin file) calls in
      let again = open_log log.origin log.file in
      (again.entries ≡ log.entries)
      × (again.epoch ≡ log.epoch)
      × (next_seq again ≡ next_seq log)
      × ((o : String) → HashMap.get again.versions o ≡ HashMap.get log.versions o)
      × (again.lamport ≤ log.lamport)
unfolding open_log next_seq
open_log-run disk origin file calls c k =
    let log : EventLog = run disk (open_log origin file) calls in
    let r : IsRecoverable log =
      run-IsRecoverable disk (open_log origin file) calls k
        (open_log-IsRecoverable origin file c) in
    let e : log.file ≡ log.entries = r.on_file in
    let q : (absorb_all (closed log.origin) log.entries).origin ≡ log.origin =
      origin-absorb_all (closed log.origin) log.entries in
    (
      e,
      rw e r.epoch,
      rw (e, q, r.epoch, r.versions log.origin),
      λ o. rw e (r.versions o),
      rw e r.lamport,
    )
