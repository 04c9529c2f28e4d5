-- ===== src/Examples/Desk.antt =====
-- The theorems on groups and on the desk at concrete inputs.
use echo_services.Prelude.{
  ℕ, zero, suc, ◌+◌, ◌≤◌, ◌<◌, ◌%◌, ◌^◌, ◌↔◌, Bool, true, false, not, none, some, List, [], ◌∷◌,
  ◌≡◌, refl, any, retain, length, arith, to_ascii_lowercase, append_str,
}
use echo_services.Data.{Report}
use echo_services.HashMap
use echo_services.Fold.{replay}
use echo_services.Log
use echo_services.Log.{open_log, events_from}
use echo_services.Db.{Db, World, open_db}
use echo_services.Db.Runs
use echo_services.Db.Calls as ChannelCalls
use echo_services.Db.Groups
use echo_services.Db.Groups.{group_call}
use echo_services.Db.GroupTracing
use echo_services.Db.Traced.{Traced}
use echo_services.Db.Desk.Queues
use echo_services.Db.Desk.Queues.{Times, prune_queue, report_file, too_soon}
use echo_services.Db.Desk.Grants.{jupe_sid}
use echo_services.Db.Desk.Calls
use echo_services.Db.Desk.Calls.{DeskCall, desk_call}
use echo_services.Db.Desk.Numbers.{IsNumbered}
use echo_services.Db.Desk.Steps
use echo_services.Db.Desk.Steps.{HasRoom, desk_run}
use echo_services.Db.Desk.Tracing
use echo_services.Db.Desk.Restart
use echo_services.Db.Desk.Restart.{IsServed, Reaches}
use echo_services.Db.Desk.Pruning

abbrev world : World
world = record { now = 100; disk = λ _ _. true; compiles = λ _. true }

abbrev later : World
later = record { now = 120; disk = λ _ _. true; compiles = λ _. true }

abbrev start : Db
start = open_db "node" []

group_call-Traced_example : Traced start (group_call world start (Groups.register "!staff" "alice"))
group_call-Traced_example =
    GroupTracing.group_call-Traced world start (Groups.register "!staff" "alice")

start-HasRoom : (k : ℕ) → k < 1000 → HasRoom k start.state.net
unfolding open_db open_log Log.absorb_all events_from replay
start-HasRoom k h = record { news = omega arith; reports = omega arith; help = omega arith }

start-IsNumbered : IsNumbered start.state.net
unfolding open_db open_log Log.absorb_all events_from replay
start-IsNumbered = record {
  news = tt;
  reports = tt;
  help = tt;
  reports_bound = omega arith;
  help_bound = omega arith;
}

start_short : (length start.state.net.reports < 2000) × (length start.state.net.help < 2000)
unfolding open_db open_log Log.absorb_all events_from replay
start_short = omega arith

abbrev filing : DeskCall
filing = Calls.file "bob" "bob@host" "mallory" "spam"

abbrev day : List (World × DeskCall)
day =
    (world, filing)
    ∷ (world, Calls.add_news Queues.logon "Welcome" "oper")
    ∷ (later, Calls.request "carol" "carol@host" "help")
    ∷ (later, Calls.close 0)
    ∷ (later, Calls.jupe "bad.example" "rogue")
    ∷ []

desk_run-IsNumbered_example : IsNumbered (desk_run (start, []) day).0.state.net
desk_run-IsNumbered_example =
    Steps.desk_run-IsNumbered start [] day (start-HasRoom 5 (omega arith)) start-IsNumbered

start-IsServed : IsServed world start
unfolding open_db open_log Log.absorb_all
start-IsServed = record {
  takes = record { unlocked = refl; writable = λ _ _. refl };
  room = start-HasRoom 1 (omega arith);
  numbered = start-IsNumbered;
  reports = start_short.0;
  help = start_short.1;
}

worked : Reaches "node" [] (
  Runs.step
      (desk_call world (start, []) filing).0
      (Runs.calls world (ChannelCalls.register "#rust" "alice")),
  (desk_call world (start, []) filing).1,
)
worked =
    Restart.works (Restart.serves Restart.opened world filing start-IsServed)
      (Runs.calls world (ChannelCalls.register "#rust" "alice"))

Reaches-open_db_example :
    let db : Db =
      Runs.step
        (desk_call world (start, []) filing).0
        (Runs.calls world (ChannelCalls.register "#rust" "alice")) in
    (open_db db.log.origin db.log.file).state ≡ db.state
Reaches-open_db_example = Restart.Reaches-open_db worked

abbrev report : ℕ → Bool → Report
report n is_open = record {
  id = n;
  reporter = "bob";
  target = "eve";
  reason = "spam";
  ts = 1;
  is_open = is_open;
}

filled : ℕ → List Report
filled zero = []
filled (suc n) = report (n + 2) true ∷ filled n

-- A full queue with one closed report
abbrev queue : List Report
queue = report 0 true ∷ report 1 false ∷ filled 1998

full : length queue ≤ 2000
unfolding filled
full = omega arith

prune_queue_lem_example :
    (length (prune_queue (λ (r : Report). r.is_open) queue) < 2000)
    × (any (λ (r : Report). not r.is_open) queue ≡ true
        → retain (λ (r : Report). r.is_open) (prune_queue (λ (r : Report). r.is_open) queue)
          ≡ retain (λ (r : Report). r.is_open) queue)
unfolding filled
prune_queue_lem_example = Pruning.prune_queue_lem (λ (r : Report). r.is_open) queue (omega arith)

free : too_soon 100 [] (to_ascii_lowercase "bob@host") ≡ false
unfolding too_soon HashMap.get
free = refl

report_file-again_example :
    let first = report_file world (start, []) "bob" "bob@host" "eve" "spam" in
    let second = report_file later first.0 "bob" "bob@host" "eve" "more" in
    Pruning.Filed world start "bob" "eve" "spam" first
    × (later.now < world.now + 30 → second ≡ (first.0, none))
    × (world.now + 30 ≤ later.now
        → Pruning.Filed later first.0.0 "bob" "eve" "more" second
          × (second.1 ≡ some ((start.state.net.report_seq + 1) % 2 ^ 64)))
report_file-again_example =
    Pruning.report_file-again world later start [] "bob" "bob@host" "eve" "spam" "bob" "bob@host"
      "eve" "more" free refl (omega arith)

jupe_sid_iff_example : (jupe_sid 3 ≡ jupe_sid 1299) ↔ (3 % 1296 ≡ 1299 % 1296)
jupe_sid_iff_example = Pruning.jupe_sid_iff 3 1299

sid : jupe_sid 37 ≡ "911"
unfolding jupe_sid append_str
sid = refl
