-- ===== src/Log/Recovery.antt =====
-- What a restart recovers from the file: `EventLog::open` on the lines that `append`, `ingest` and
-- `compact` wrote (src/engine/db/mod.rs).
use native.Mathlib.Nat.{le_refl, le_trans}
use echo_services.Prelude.{
  if_rule, saturating_add, inl, inr, Bool-cases, ℕ, ◌≤◌, ◌<◌, ◌⊎◌, String, true, Option, some, List,
  [], ◌∷◌, ◌++◌, ◌≡◌, refl, ap, arith, Result, eq_iff, ◌==◌, Option-cases, u64_max, if◌then◌else◌,
  max,
}
use echo_services.HashMap
use echo_services.HashMap.{HashMap}
use echo_services.HashMap.Laws.{get-insert}
use echo_services.Event.{Event, Scope, global, local, scope}
use echo_services.Log.{
  LogEntry, EventLog, Disk, IoError, cursor_newer, merge_cursor, absorb, absorb_all, closed,
  next_seq, notify, append, accepts, ingest, stamp, stamp_local, keep, set_cursor, append_global,
  append_local, verified,
}

-- The log as `absorb` rebuilds it from the entries.
abbrev pub rebuilt : EventLog → EventLog
rebuilt log = absorb_all (closed log.origin) log.entries

-- A restart would find the same entries, epoch and version vector, and no later clock. A log's own
-- cursor is never of a later epoch than its own.
pub record IsRecoverable (log : EventLog) : Type 0 where
  pub on_file : log.file ≡ log.entries
  pub epoch : (rebuilt log).epoch ≡ log.epoch
  pub versions : (o : String) → HashMap.get (rebuilt log).versions o ≡ HashMap.get log.versions o
  pub lamport : (rebuilt log).lamport ≤ log.lamport
  pub clock : log.lamport ≤ u64_max
  pub own : (e s : ℕ) → HashMap.get log.versions log.origin ≡ some (e, s) → e ≤ log.epoch

-- No cursor has reached the last sequence number.
abbrev pub Fits : EventLog → Type 0
Fits log = (o : String) (c : ℕ × ℕ) → HashMap.get log.versions o ≡ some c → c.1 < u64_max

absorb_all-push :
    (log : EventLog) (es : List LogEntry) (e : LogEntry)
    → absorb_all log (es ++ e ∷ []) ≡ absorb (absorb_all log es) e
unfolding absorb_all
absorb_all-push log [] e = refl
absorb_all-push log (x ∷ es) e = absorb_all-push (absorb log x) es e

pub origin-absorb : (log : EventLog) (e : LogEntry) → (absorb log e).origin ≡ log.origin
unfolding absorb
origin-absorb log e = ground arith

pub origin-absorb_all :
    (log : EventLog) (es : List LogEntry) → (absorb_all log es).origin ≡ log.origin
unfolding absorb_all
origin-absorb_all log [] = refl
origin-absorb_all log (e ∷ es) =
    ground (arith, origin-absorb_all (absorb log e) es, origin-absorb log e)

-- How `absorb` reads, field by field.
pub epoch-absorb :
    (log : EventLog) (e : LogEntry)
    → (absorb log e).epoch ≡ (if e.origin == log.origin then max log.epoch e.epoch else log.epoch)
unfolding absorb
epoch-absorb log e = ground arith

pub versions-absorb :
    (log : EventLog) (e : LogEntry) (o : String)
    → scope e.event ≡ global
    → HashMap.get (absorb log e).versions o ≡ (
        if e.origin == o
        then some (merge_cursor (HashMap.get log.versions o) (e.epoch, e.seq))
        else HashMap.get log.versions o)
unfolding absorb
versions-absorb log e o h =
    rw (h, absorb)
      (ground (
        arith,
        get-insert log.versions e.origin
            (merge_cursor (HashMap.get log.versions e.origin) (e.epoch, e.seq)) o,
        eq_iff e.origin o,
      ))

pub lamport-absorb :
    (log : EventLog) (e : LogEntry)
    → scope e.event ≡ global
    → (absorb log e).lamport ≡ max log.lamport e.lamport
unfolding absorb
lamport-absorb log e h = ground arith

pub epoch-absorb_local :
    (log : EventLog) (e : LogEntry)
    → scope e.event ≡ local
    → ((absorb log e).versions ≡ log.versions) × ((absorb log e).lamport ≡ log.lamport)
unfolding absorb
epoch-absorb_local log e h = ground arith

-- An entry that is newer than its origin's cursor, and no newer than the log's epoch where it is the
-- log's own: what is kept of it live is what `absorb` makes of it.
module _ (log : EventLog) (e : LogEntry) (clock : ℕ) where
  abbrev after_keep : EventLog
  after_keep = keep (set_cursor (record log { lamport = clock }) e) e

  -- After `keep`, the entries rebuild to one `absorb` more.
  rebuilt-after_keep : rebuilt after_keep ≡ absorb (rebuilt log) e
  unfolding notify
  rebuilt-after_keep = absorb_all-push (closed log.origin) log.entries e

  keep_versions :
      scope e.event ≡ global
      → ((c : ℕ × ℕ)
          → HashMap.get log.versions e.origin ≡ some c
          → cursor_newer c (e.epoch, e.seq) ≡ true)
      → IsRecoverable log
      → (o : String)
      → HashMap.get (rebuilt after_keep).versions o ≡ HashMap.get after_keep.versions o
  unfolding notify
  keep_versions g newer r o =
      rw
        (
          rebuilt-after_keep,
          versions-absorb (rebuilt log) e o g,
          get-insert log.versions e.origin (e.epoch, e.seq) o,
          r.versions o,
        )
        (elim (Bool-cases (e.origin == o)) [
          | inr q ↦ rw q refl
          | inl q ↦ elim (Option-cases (HashMap.get log.versions o)) [
            | inl n ↦ rw (q, n) refl
            | inr (c, n) ↦ rw (q, n) (ground (arith, newer c, eq_iff e.origin o))
          ]
        ])

  keep-IsRecoverable :
      scope e.event ≡ global
      → ((c : ℕ × ℕ)
          → HashMap.get log.versions e.origin ≡ some c
          → cursor_newer c (e.epoch, e.seq) ≡ true)
      → (e.origin ≡ log.origin → e.epoch ≤ log.epoch)
      → log.lamport ≤ clock
      → e.lamport ≤ clock
      → clock ≤ u64_max
      → IsRecoverable log
      → IsRecoverable after_keep
  unfolding notify
  keep-IsRecoverable g newer own_entry l1 l2 l3 r = record {
    on_file = ap (λ (es : List LogEntry). es ++ e ∷ []) r.on_file;
    epoch =
        rw
          (
            rebuilt-after_keep,
            epoch-absorb (rebuilt log) e,
            origin-absorb_all (closed log.origin) log.entries,
          )
          (ground (arith, r.epoch, eq_iff e.origin log.origin, own_entry));
    versions = keep_versions g newer r;
    lamport = rw (rebuilt-after_keep, lamport-absorb (rebuilt log) e g) (omega (arith, r.lamport));
    clock = l3;
    own = λ e' s h. ground (
      arith,
      r.own e' s,
      own_entry,
      eq_iff e.origin log.origin,
      get-insert log.versions e.origin (e.epoch, e.seq) log.origin,
    );
  }

-- A local entry of the log leaves the cursors and the clock alone.
keep_local-IsRecoverable :
    (log : EventLog) (event : Event)
    → scope event ≡ local
    → IsRecoverable log
    → IsRecoverable (keep log (stamp_local log 0 event))
unfolding notify
keep_local-IsRecoverable log event l r =
    let e : LogEntry = stamp_local log 0 event in
    let a : rebuilt (keep log e) ≡ absorb (rebuilt log) e =
      absorb_all-push (closed log.origin) log.entries e in
    let b : ((absorb (rebuilt log) e).versions ≡ (rebuilt log).versions)
        × ((absorb (rebuilt log) e).lamport ≡ (rebuilt log).lamport) =
      epoch-absorb_local (rebuilt log) e l in
    record {
      on_file = ap (λ (es : List LogEntry). es ++ e ∷ []) r.on_file;
      epoch =
          rw (a, epoch-absorb (rebuilt log) e, origin-absorb_all (closed log.origin) log.entries)
            (ground (arith, r.epoch));
      versions = λ o. rw (a, b.0) (r.versions o);
      lamport = rw (a, b.1) r.lamport;
      own = r.own;
      clock = r.clock;
    }

-- The next sequence number of a log makes a newer cursor than the one it has.
next_seq_newer :
    (log : EventLog)
    → Fits log
    → ((e s : ℕ) → HashMap.get log.versions log.origin ≡ some (e, s) → e ≤ log.epoch)
    → (c : ℕ × ℕ) → HashMap.get log.versions log.origin ≡ some c
    → cursor_newer c (log.epoch, next_seq log) ≡ true
unfolding next_seq cursor_newer
next_seq_newer log fits own (e, s) h = rw h (ground (arith, fits log.origin (e, s) h, own e s h))

accepts_newer :
    (o : Option (ℕ × ℕ)) (e s : ℕ)
    → accepts o e s ≡ true
    → (c : ℕ × ℕ) → o ≡ some c
    → c.1 < u64_max
    → cursor_newer c (e, s) ≡ true
unfolding accepts cursor_newer
accepts_newer o e s h (eb, sb) q fits = ground arith

pub saturating_add-le :
    (a b : ℕ) → a ≤ u64_max → (a ≤ saturating_add a b) × (saturating_add a b ≤ u64_max)
saturating_add-le a b h = ground arith

receive-le :
    (a b : ℕ)
    → a ≤ u64_max
    → b ≤ u64_max
    → (a ≤ saturating_add (max a b) 1) × (b ≤ saturating_add (max a b) 1)
receive-le a b h k = ground arith

pub scope_cases : (e : Event) → (scope e ≡ global) ⊎ (scope e ≡ local)
scope_cases e = go (scope e) refl
  where
    go : (s : Scope) → scope e ≡ s → (scope e ≡ global) ⊎ (scope e ≡ local)
    go global h = inl h
    go local h = inr h

-- A clock that ticked for a write that failed.
tick-IsRecoverable :
    (log : EventLog) (t : ℕ)
    → log.lamport ≤ t
    → t ≤ u64_max
    → IsRecoverable log
    → IsRecoverable (record log { lamport = t })
tick-IsRecoverable log t l1 l2 r = record {
  on_file = r.on_file;
  epoch = r.epoch;
  versions = r.versions;
  lamport = le_trans r.lamport l1;
  clock = l2;
  own = r.own;
}

-- An entry that was kept for a clock that ticked.
append_global-IsRecoverable :
    (disk : Disk) (log : EventLog) (event : Event) (t : ℕ)
    → scope event ≡ global
    → Fits log
    → log.lamport ≤ t
    → t ≤ u64_max
    → IsRecoverable log
    → IsRecoverable (append_global disk (record log { lamport = t }) event).0
unfolding append_global next_seq
append_global-IsRecoverable disk log event t g fits l1 l2 r =
    let ticked : EventLog = record log { lamport = t } in
    if_rule (λ (x : EventLog × Result (Unit {0}) IoError). IsRecoverable x.0)
      (disk log.entries (stamp ticked event))
      (λ _.
        keep-IsRecoverable log (stamp ticked event) t g (next_seq_newer log fits r.own)
          (λ _. le_refl log.epoch) l1 (le_refl t) l2 r)
      (λ _. tick-IsRecoverable log t l1 l2 r)

-- Every append, whether it is refused, fails or succeeds, keeps the log recoverable.
pub append-IsRecoverable :
    (disk : Disk) (log : EventLog) (event : Event)
    → Fits log
    → IsRecoverable log
    → IsRecoverable (append disk log event).0
unfolding append append_local
append-IsRecoverable disk log event fits r =
    if_rule (λ (x : EventLog × Result (Unit {0}) IoError). IsRecoverable x.0) log.readonly (λ _. r)
      (λ _. elim (scope_cases event) [
        | inl g ↦ rw g (
            append_global-IsRecoverable disk log event (saturating_add log.lamport 1) g fits
              (saturating_add-le log.lamport 1 r.clock).0
              (saturating_add-le log.lamport 1 r.clock).1 r)
        | inr l ↦
            rw (l, append_local)
              (if_rule (λ (x : EventLog × Result (Unit {0}) IoError). IsRecoverable x.0)
                (disk log.entries (stamp_local log 0 event))
                (λ _. keep_local-IsRecoverable log event l r) (λ _. r))
      ])

pub ingest-IsRecoverable :
    (disk : Disk) (log : EventLog) (entry : LogEntry)
    → Fits log
    → entry.lamport ≤ u64_max
    → (entry.origin ≡ log.origin → entry.epoch ≤ log.epoch)
    → IsRecoverable log
    → IsRecoverable (ingest disk log entry).0
unfolding ingest
ingest-IsRecoverable disk log entry fits l own r = elim (scope_cases entry.event) [
  | inr q ↦ rw (q, ingest) r
  | inl g ↦
      rw (g, ingest)
        (if_rule (λ (x : EventLog × Result (Option Event) IoError). IsRecoverable x.0)
          (verified log entry)
          (λ _.
            if_rule (λ (x : EventLog × Result (Option Event) IoError). IsRecoverable x.0)
              (accepts (HashMap.get log.versions entry.origin) entry.epoch entry.seq)
              (λ a.
                if_rule (λ (x : EventLog × Result (Option Event) IoError). IsRecoverable x.0)
                  (disk log.entries entry)
                  (λ _.
                    keep-IsRecoverable log entry (saturating_add (max log.lamport entry.lamport) 1)
                      g (λ c q. accepts_newer _ _ _ a c q (fits entry.origin c q)) own
                      (receive-le log.lamport entry.lamport r.clock l).0
                      (receive-le log.lamport entry.lamport r.clock l).1
                      (saturating_add-le (max log.lamport entry.lamport) 1
                        (omega (arith, r.clock))).1
                      r)
                  (λ _. r))
              (λ _. r))
          (λ _. r))
]
