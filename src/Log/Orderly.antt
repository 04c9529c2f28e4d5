-- ===== src/Log/Orderly.antt =====
-- What keeps a log orderly (src/engine/db/mod.rs).
use echo_services.Prelude.{
  ℕ, ◌≤◌, ◌<◌, ◌≡◌, ◌≢◌, ◌⊎◌, refl, sym, ap, ◌∙◌, subst, if_rule, inl, inr, String, Bool, true,
  false, ◌==◌, eq_iff, Option, none, some, List, [], ◌∷◌, if◌then◌else◌, retain, push, u64_max,
  arith, Bool-cases, ok, err, Result,
}
use echo_services.HashMap
use echo_services.HashMap.{HashMap}
use echo_services.HashMap.Laws.{get-insert}
use echo_services.Event.{Event, scope, global, local}
use echo_services.Log.{
  LogEntry, EventLog, Disk, IoError, accepts, ingest, append, keep, receive, verified, notify,
  is_global, stamp, stamp_local, tick, set_cursor, next_seq, next_after, failed, permission_denied,
  append_global, append_local,
}
use echo_services.Log.CatchUp.{Chained, after, globals, IsOrderly}
use echo_services.Log.Gossip.{ingest_global, ingest_local}
use echo_services.Log.Recovery.{scope_cases}

after-push :
    (v : HashMap (ℕ × ℕ)) (xs : List LogEntry) (x : LogEntry)
    → after v (push xs x) ≡ HashMap.insert (after v xs) x.origin (x.epoch, x.seq)
unfolding after
after-push v [] x = refl
after-push v (y ∷ ys) x = after-push (HashMap.insert v y.origin (y.epoch, y.seq)) ys x

Chained-push :
    (v : HashMap (ℕ × ℕ)) (xs : List LogEntry) (x : LogEntry)
    → accepts (HashMap.get (after v xs) x.origin) x.epoch x.seq ≡ true
    → x.seq < u64_max
    → Chained v xs
    → Chained v (push xs x)
unfolding after
Chained-push v [] x a s c = (a, s, tt)
Chained-push v (y ∷ ys) x a s c =
    (c.0, c.1, Chained-push (HashMap.insert v y.origin (y.epoch, y.seq)) ys x a s c.2)

retain-push :
    {A : Type 0} (p : A → Bool) (xs : List A) (x : A)
    → retain p (push xs x) ≡ (if p x then push (retain p xs) x else retain p xs)
unfolding retain
retain-push p [] x = ground arith
retain-push p (y ∷ ys) x = ground (arith, retain-push p ys x)

-- A log with one more global entry, in order after the cursor of its origin, which moves there
IsOrderly-grown :
    (log log' : EventLog) (x : LogEntry)
    → log'.entries ≡ push log.entries x
    → log'.versions ≡ HashMap.insert log.versions x.origin (x.epoch, x.seq)
    → scope x.event ≡ global
    → accepts (HashMap.get log.versions x.origin) x.epoch x.seq ≡ true
    → x.seq < u64_max
    → IsOrderly log
    → IsOrderly log'
unfolding globals
IsOrderly-grown log log' x entries versions g a s h =
    let seen : is_global x.event ≡ true = rw (is_global, g) refl in
    let more : globals log' ≡ push (globals log) x =
      ap (retain (λ (e : LogEntry). is_global e.event)) entries
      ∙ retain-push (λ (e : LogEntry). is_global e.event) log.entries x
      ∙ rw seen refl in
    record {
      chained = subst (Chained []) (sym more) (
          Chained-push [] (globals log) x
            (ap (λ c. accepts c x.epoch x.seq) (h.versions x.origin) ∙ a) s h.chained);
      versions = λ o.
          ap (λ xs. HashMap.get (after [] xs) o) more
          ∙ ap (λ v. HashMap.get v o) (after-push [] (globals log) x)
          ∙ get-insert (after [] (globals log)) x.origin (x.epoch, x.seq) o
          ∙ ap (λ c. if x.origin == o then some (x.epoch, x.seq) else c) (h.versions o)
          ∙ sym (get-insert log.versions x.origin (x.epoch, x.seq) o)
          ∙ ap (λ v. HashMap.get v o) (sym versions);
    }

-- A log with one more local entry, or none
IsOrderly-same :
    (log log' : EventLog)
    → globals log' ≡ globals log
    → log'.versions ≡ log.versions
    → IsOrderly log
    → IsOrderly log'
IsOrderly-same log log' gs versions h = record {
  chained = subst (Chained []) (sym gs) h.chained;
  versions = λ o.
      ap (λ xs. HashMap.get (after [] xs) o) gs
      ∙ h.versions o
      ∙ ap (λ v. HashMap.get v o) (sym versions);
}

pub ingest-IsOrderly :
    (disk : Disk) (log : EventLog) (x : LogEntry)
    → x.seq < u64_max
    → IsOrderly log
    → IsOrderly (ingest disk log x).0
unfolding notify
ingest-IsOrderly disk log x s h = elim (scope_cases x.event) [
  | inr l ↦ rw (ingest_local disk log x l) h
  | inl g ↦ rw (ingest_global disk log x g) (
      if_rule (λ (r : EventLog × Result (Option Event) IoError). IsOrderly r.0) (verified log x)
        {y = (log, ok none)}
        (λ _.
          if_rule (λ (r : EventLog × Result (Option Event) IoError). IsOrderly r.0)
            (accepts (HashMap.get log.versions x.origin) x.epoch x.seq) {y = (log, ok none)}
            (λ a.
              if_rule (λ (r : EventLog × Result (Option Event) IoError). IsOrderly r.0)
                (disk log.entries x) {x = (keep (receive log x) x, ok (some x.event))}
                {y = (log, err failed)}
                (λ _. IsOrderly-grown log (keep (receive log x) x) x refl refl g a s h) (λ _. h))
            (λ _. h))
        (λ _. h))
]

-- The node's own cursor is in its own epoch or an earlier one.
abbrev pub IsOwn : EventLog → Type 0
IsOwn log = (e s : ℕ) → HashMap.get log.versions log.origin ≡ some (e, s) → e ≤ log.epoch

accepts-next :
    (epoch : ℕ) (c : Option (ℕ × ℕ))
    → ((e s : ℕ) → c ≡ some (e, s) → e ≤ epoch)
    → accepts c epoch (next_after epoch c) ≡ true
unfolding accepts
accepts-next epoch none own = refl
accepts-next epoch (some (e, s)) own = ground (arith, own e s refl)

append_global-IsOrderly :
    (disk : Disk) (log : EventLog) (event : Event)
    → scope event ≡ global
    → IsOwn log
    → next_seq log < u64_max
    → IsOrderly log
    → IsOrderly (append_global disk log event).0
unfolding append_global notify next_seq
append_global-IsOrderly disk log event g own room h =
    if_rule (λ (r : EventLog × Result (Unit {0}) IoError). IsOrderly r.0)
      (disk log.entries (stamp log event))
      {x = (keep (set_cursor log (stamp log event)) (stamp log event), ok tt)}
      {y = (log, err failed)}
      (λ _.
        IsOrderly-grown log (keep (set_cursor log (stamp log event)) (stamp log event))
          (stamp log event) refl refl g
          (accepts-next log.epoch (HashMap.get log.versions log.origin) own) room h)
      (λ _. h)

append_local-IsOrderly :
    (disk : Disk) (log : EventLog) (event : Event)
    → scope event ≡ local
    → IsOrderly log
    → IsOrderly (append_local disk log event).0
unfolding append_local notify globals
append_local-IsOrderly disk log event l h =
    if_rule (λ (r : EventLog × Result (Unit {0}) IoError). IsOrderly r.0)
      (disk log.entries (stamp_local log 0 event)) {x = (keep log (stamp_local log 0 event), ok tt)}
      {y = (log, err failed)}
      (λ _.
        IsOrderly-same log (keep log (stamp_local log 0 event))
          (retain-push (λ (e : LogEntry). is_global e.event) log.entries (stamp_local log 0 event)
            ∙ rw (is_global, l) refl)
          refl h)
      (λ _. h)

-- The tick of the clock does not matter.
IsOrderly-tick : (log : EventLog) → IsOrderly log → IsOrderly (tick log)
unfolding globals
IsOrderly-tick log h = record { chained = h.chained; versions = h.versions }

pub append-IsOrderly :
    (disk : Disk) (log : EventLog) (event : Event)
    → IsOwn log
    → next_seq log < u64_max
    → IsOrderly log
    → IsOrderly (append disk log event).0
unfolding append next_seq
append-IsOrderly disk log event own room h =
    if_rule (λ (r : EventLog × Result (Unit {0}) IoError). IsOrderly r.0) log.readonly
      {x = (log, err permission_denied)} (λ _. h)
      (λ _. elim (scope_cases event) [
        | inl g ↦
            rw g (append_global-IsOrderly disk (tick log) event g own room (IsOrderly-tick log h))
        | inr l ↦ rw l (append_local-IsOrderly disk log event l h)
      ])

IsOwn-keep :
    (log log' : EventLog) (o : String) (e s : ℕ)
    → log'.origin ≡ log.origin
    → log'.epoch ≡ log.epoch
    → log'.versions ≡ HashMap.insert log.versions o (e, s)
    → (o ≡ log.origin → e ≤ log.epoch)
    → IsOwn log
    → IsOwn log'
IsOwn-keep log log' o e s origin epoch versions new own = λ e' s' h.
    go (Bool-cases (o == log.origin)) e' s' (
      sym (get-insert log.versions o (e, s) log.origin)
      ∙ ap (λ v. HashMap.get v log.origin) (sym versions)
      ∙ ap (HashMap.get log'.versions) (sym origin)
      ∙ h)
  where
    go :
        ((o == log.origin) ≡ true) ⊎ ((o == log.origin) ≡ false)
        → (e' s' : ℕ)
        → (if o == log.origin then some (e, s) else HashMap.get log.versions log.origin)
          ≡ some (e', s')
        → e' ≤ log'.epoch
    go (inl same) e' s' h =
        let bound : e ≤ log.epoch = new ((eq_iff o log.origin).0 same) in
        ground (arith, h, same, epoch, bound)
    go (inr other) e' s' h =
        let bound : e' ≤ log.epoch = own e' s' (rw other at h) in omega (arith, bound, epoch)

ingest-IsOwn :
    (disk : Disk) (log : EventLog) (x : LogEntry)
    → x.origin ≢ log.origin
    → IsOwn log
    → IsOwn (ingest disk log x).0
unfolding notify
ingest-IsOwn disk log x foreign own = elim (scope_cases x.event) [
  | inr l ↦ rw (ingest_local disk log x l) own
  | inl g ↦ rw (ingest_global disk log x g) (
      if_rule (λ (r : EventLog × Result (Option Event) IoError). IsOwn r.0) (verified log x)
        {y = (log, ok none)}
        (λ _.
          if_rule (λ (r : EventLog × Result (Option Event) IoError). IsOwn r.0)
            (accepts (HashMap.get log.versions x.origin) x.epoch x.seq) {y = (log, ok none)}
            (λ a.
              if_rule (λ (r : EventLog × Result (Option Event) IoError). IsOwn r.0)
                (disk log.entries x) {x = (keep (receive log x) x, ok (some x.event))}
                {y = (log, err failed)}
                (λ _.
                  IsOwn-keep log (keep (receive log x) x) x.origin x.epoch x.seq refl refl refl
                    (λ same. absurd (foreign same)) own)
                (λ _. own))
            (λ _. own))
        (λ _. own))
]

append-IsOwn :
    (disk : Disk) (log : EventLog) (event : Event) → IsOwn log → IsOwn (append disk log event).0
unfolding append append_global append_local notify
append-IsOwn disk log event own =
    if_rule (λ (r : EventLog × Result (Unit {0}) IoError). IsOwn r.0) log.readonly
      {x = (log, err permission_denied)} (λ _. own)
      (λ _. elim (scope_cases event) [
        | inl g ↦ rw g (
            if_rule (λ (r : EventLog × Result (Unit {0}) IoError). IsOwn r.0)
              (disk log.entries (stamp (tick log) event))
              {x = (
                keep (set_cursor (tick log) (stamp (tick log) event)) (stamp (tick log) event),
                ok tt,
              )}
              {y = (tick log, err failed)}
              (λ _.
                IsOwn-keep log
                  (keep (set_cursor (tick log) (stamp (tick log) event)) (stamp (tick log) event))
                  log.origin log.epoch (next_seq (tick log)) refl refl refl (λ same. omega arith)
                  own)
              (λ _. own))
        | inr l ↦ rw l (
            if_rule (λ (r : EventLog × Result (Unit {0}) IoError). IsOwn r.0)
              (disk log.entries (stamp_local log 0 event))
              {x = (keep log (stamp_local log 0 event), ok tt)} {y = (log, err failed)} (λ _. own)
              (λ _. own))
      ])

-- The logs that come about from an empty one, by appends, on any disk and locked or not, and by
-- entries of other nodes. Sequence numbers stay below the largest.
pub data Grew : EventLog → Type 0 where
  empty : (log : EventLog) → log.entries ≡ [] → log.versions ≡ [] → Grew log
  appends :
      {log : EventLog}
      → Grew log
      → (disk : Disk) (event : Event) → next_seq log < u64_max
      → Grew (append disk log event).0
  takes :
      {log : EventLog}
      → Grew log
      → (disk : Disk) (x : LogEntry) → x.origin ≢ log.origin
      → x.seq < u64_max
      → Grew (ingest disk log x).0

Grew-both : {log : EventLog} → Grew log → IsOrderly log × IsOwn log
unfolding globals after retain HashMap.get
Grew-both (empty log entries versions) = (
  record { chained = rw entries tt; versions = λ o. rw (entries, versions) refl },
  λ e s h. ground (arith, ap (λ v. HashMap.get v log.origin) versions, h),
)
Grew-both (appends {log = log} g disk event room) = (
  append-IsOrderly disk log event (Grew-both g).1 room (Grew-both g).0,
  append-IsOwn disk log event (Grew-both g).1,
)
Grew-both (takes {log = log} g disk x foreign room) = (
  ingest-IsOrderly disk log x room (Grew-both g).0,
  ingest-IsOwn disk log x foreign (Grew-both g).1,
)

-- A log that came about from an empty one by appends and by entries of other nodes is orderly: the
-- global entries of each origin stand in it without a gap, each in order after the one before, from
-- the first of its epoch on, and its cursors are those of its last entries.
pub Grew-IsOrderly : {log : EventLog} → Grew log → IsOrderly log
Grew-IsOrderly g = (Grew-both g).0
