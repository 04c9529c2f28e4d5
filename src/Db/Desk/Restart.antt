-- ===== src/Db/Desk/Restart.antt =====
-- What a restart finds after the calls of the desk as well (src/engine/db/network.rs, `Db::open` of
-- src/engine/db/mod.rs).
use echo_services.Prelude.{String, List, [], ◌∷◌, ◌<◌, ◌≡◌, refl, ◌⊎◌, inl, inr, length, subst, sym}
use echo_services.Data.{State}
use echo_services.Fold.{apply}
use echo_services.Log.{LogEntry, open_log, events_from}
use echo_services.Db.{Db, World, open_db}
use echo_services.Db.Runs.{Step, step, run}
use echo_services.Db.Invariants.{run_keeps}
use echo_services.Db.Restart.{IsSaved, Grown-IsSaved, Unwritten-IsSaved, Traced-IsSaved}
use echo_services.Db.Traced.{Kept}
use echo_services.Db.Desk.Queues.{Times, max_queue}
use echo_services.Db.Desk.Calls.{DeskCall, desk_call}
use echo_services.Db.Desk.Numbers.{IsNumbered}
use echo_services.Db.Desk.Steps.{HasRoom}
use echo_services.Db.Desk.Tracing.{Noted, Takes, desk_call-Settled}

-- A call of the desk that the log can take, on queues with room
pub record IsServed (w : World) (db : Db) : Type 0 where
  pub takes : Takes w db.log
  pub room : HasRoom 1 db.state.net
  pub numbered : IsNumbered db.state.net
  pub reports : length db.state.net.reports < max_queue
  pub help : length db.state.net.help < max_queue

-- The states that a daemon started on this file comes to
pub data Reaches (origin : String) (entries : List LogEntry) : Db × Times → Type 0 where
  opened : Reaches origin entries (open_db origin entries, [])
  works :
      {db : Db} {times : Times}
      → Reaches origin entries (db, times)
      → (s : Step) → Reaches origin entries (step db s, times)
  serves :
      {db : Db} {times : Times}
      → Reaches origin entries (db, times)
      → (w : World) (c : DeskCall) → IsServed w db
      → Reaches origin entries (desk_call w (db, times) c)

IsSaved-state :
    (db : Db) (state : State)
    → state ≡ db.state
    → IsSaved db
    → IsSaved (record db { state = state })
IsSaved-state db state h s = subst (λ (t : State). IsSaved (record db { state = t })) (sym h) s

Settled-IsSaved :
    (w : World) (db db' : Db)
    → Takes w db.log
    → Noted w db db' ⊎ Kept db db'
    → IsSaved db
    → IsSaved db'
Settled-IsSaved w db db' t (inl n) s =
    IsSaved-state (record { state = apply db.state n.event; log = db'.log }) db'.state n.state
      (Grown-IsSaved db db'.log n.event (n.taken t) s)
Settled-IsSaved w db db' t (inr k) s =
    IsSaved-state (record db { log = db'.log }) db'.state k.state
      (Unwritten-IsSaved db db'.log k.log s)

Reaches-IsSaved :
    {origin : String} {entries : List LogEntry} {s : Db × Times}
    → Reaches origin entries s
    → IsSaved s.0
unfolding open_db open_log events_from run
Reaches-IsSaved opened = record { file = refl; state = refl }
Reaches-IsSaved (works {db = db} r s) =
    run_keeps IsSaved Traced-IsSaved db (s ∷ []) (Reaches-IsSaved r)
Reaches-IsSaved (serves {db = db} {times = times} r w c h) =
    Settled-IsSaved w db (desk_call w (db, times) c).0 h.takes
      (desk_call-Settled w db h.room h.numbered h.reports h.help times c) (Reaches-IsSaved r)

-- However the work on channels, accounts, groups and bans, the entries of other nodes and the calls
-- of the desk follow on each other: where each call of the desk was made with a log that is not
-- locked, a disk that takes every write, an intact numbering and queues that are not full, opening
-- the file again gives the state that the daemon holds.
pub Reaches-open_db :
    {origin : String} {entries : List LogEntry} {s : Db × Times}
    → Reaches origin entries s
    → (open_db s.0.log.origin s.0.log.file).state ≡ s.0.state
unfolding open_db open_log events_from
Reaches-open_db r = let h : IsSaved _ = Reaches-IsSaved r in rw (h.file, h.state) refl
