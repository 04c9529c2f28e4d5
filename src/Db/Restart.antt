-- ===== src/Db/Restart.antt =====
-- What a restart finds in the file (`Db::open`, src/engine/db/mod.rs) after the calls of
-- src/engine/db/channel.rs and src/engine/db/network.rs and after `Db::ingest`.
use echo_services.Prelude.{
  String, Option, none, some, List, [], ◌∷◌, map, ◌≡◌, refl, ap, sym, ◌∙◌, inl, inr, push,
}
use echo_services.Data.{State, empty_state}
use echo_services.Event.{Event}
use echo_services.Fold.{apply, replay}
use echo_services.Log.{EventLog, LogEntry, open_log, events_from}
use echo_services.Log.Growth.{Grown, Unwritten}
use echo_services.Db.{Db, open_db}
use echo_services.Db.Runs.{Step, run}
use echo_services.Db.Invariants.{run_keeps}
use echo_services.Db.Traced.{Traced}

-- What the file replays to is what the daemon holds.
pub record IsSaved (db : Db) : Type 0 where
  pub file : db.log.file ≡ db.log.entries
  pub state : replay empty_state (events_from db.log 0) ≡ db.state

pub replay-push :
    (s : State) (es : List Event) (e : Event) → replay s (push es e) ≡ apply (replay s es) e
unfolding replay
replay-push s [] e = refl
replay-push s (x ∷ es) e = replay-push (apply s x) es e

map-push :
    (es : List LogEntry) (e : LogEntry)
    → map (λ (x : LogEntry). x.event) (push es e)
      ≡ push (map (λ (x : LogEntry). x.event) es) e.event
map-push [] e = refl
map-push (x ∷ es) e = ap (λ (l : List Event). x.event ∷ l) (map-push es e)

pub Grown-IsSaved :
    (db : Db) (log : EventLog) (event : Event)
    → Grown db.log log event
    → IsSaved db
    → IsSaved (record { state = apply db.state event; log = log })
unfolding events_from
Grown-IsSaved db log event g s = record {
  file = g.file ∙ ap (λ (l : List LogEntry). push l g.entry) s.file ∙ sym g.entries;
  state =
      rw
        (
          g.entries,
          map-push db.log.entries g.entry,
          g.carries,
          replay-push empty_state (map (λ (x : LogEntry). x.event) db.log.entries) event,
          s.state,
        )
        refl;
}

pub Unwritten-IsSaved :
    (db : Db) (log : EventLog)
    → Unwritten db.log log
    → IsSaved db
    → IsSaved (record db { log = log })
unfolding events_from
Unwritten-IsSaved db log u s = record {
  file = u.file ∙ s.file ∙ sym u.entries;
  state = rw (u.entries, s.state) refl;
}

IsSaved-state :
    (db : Db) (state : State)
    → state ≡ db.state
    → IsSaved db
    → IsSaved (record db { state = state })
IsSaved-state db state h s = record { file = s.file; state = s.state ∙ sym h }

pub Traced-IsSaved :
    (E : Type 0) (db : Db) (r : Db × Option E) → Traced db r → IsSaved db → IsSaved r.0
Traced-IsSaved E db (db', none) (inl w) s =
    IsSaved-state (record { state = apply db.state w.event; log = db'.log }) db'.state w.state
      (Grown-IsSaved db db'.log w.event w.log s)
Traced-IsSaved E db (db', none) (inr k) s =
    IsSaved-state (record db { log = db'.log }) db'.state k.state
      (Unwritten-IsSaved db db'.log k.log s)
Traced-IsSaved E db (db', some e) k s =
    IsSaved-state (record db { log = db'.log }) db'.state k.state
      (Unwritten-IsSaved db db'.log k.log s)

-- What is in the file is what the daemon holds. After the store was opened on any file and then used
-- in any order (calls on channels, on accounts with their settings, certificates and vhosts, on bans,
-- on groups and on grouped nicks that succeed, find nothing to do or fail, on disks that refuse writes
-- at any point; copies of a bot configuration and releases of an account's channels, whole or cut
-- short by a failure; entries of other nodes), opening what the file then holds gives the same
-- accounts, channels, grouped nicks, bots, hosts and network data.
pub run-open_db :
    (origin : String) (file : List LogEntry) (ss : List Step)
    → let db = run (open_db origin file) ss in (open_db db.log.origin db.log.file).state ≡ db.state
unfolding open_db open_log events_from
run-open_db origin file ss =
    let h : IsSaved (run (open_db origin file) ss) =
      run_keeps IsSaved Traced-IsSaved (open_db origin file) ss
        (record { file = refl; state = refl }) in
    rw (h.file, h.state) refl
