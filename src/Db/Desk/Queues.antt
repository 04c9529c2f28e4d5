-- ===== src/Db/Desk/Queues.antt =====
-- News, abuse reports and help tickets (src/engine/db/network.rs).
use echo_services.Prelude.{
  ℕ, ◌+◌, ◌-◌, ◌%◌, ◌^◌, String, Bool, true, false, not, ◌&&◌, Option, none, some, List, [], ◌∷◌,
  ltb, eqb, if◌then◌else◌, is_some_and, is_none, any, find, push, retain, modify_first, remove_at,
  length, option_map, to_ascii_lowercase, append_str,
}
use echo_services.HashMap
use echo_services.HashMap.{HashMap}
use echo_services.Data.{NetData, News, Report, HelpTicket}
use echo_services.Event.{Event}
use echo_services.Db.{Db, World}
use echo_services.Db.Noted.{edit_net, note}

-- The most entries that a queue of the desk holds
abbrev pub max_queue : ℕ
max_queue = 2000

-- `q.iter().position(|e| !is_open(e))`
unfoldable pub first_closed {ℓ} : {A : Type ℓ} → (A → Bool) → List A → Option ℕ
first_closed is_open [] = none
first_closed is_open (x ∷ xs) =
    if is_open x then option_map (λ i. i + 1) (first_closed is_open xs) else some 0

-- A full queue loses its oldest closed entry, or its oldest one if all are open.
unfoldable pub prune_queue {ℓ} : {A : Type ℓ} → (A → Bool) → List A → List A
unfolding first_closed
prune_queue is_open q =
    if ltb (length q) max_queue
    then q
    else remove_at (elim (first_closed is_open q) [ none ↦ 0 | some i ↦ i ]) q

-- The seconds between two filings of one person
abbrev pub cooldown : ℕ
cooldown = 30

-- `report_times`, which the session keeps beside the store
abbrev pub Times : Type 0
Times = HashMap ℕ

unfoldable pub too_soon : ℕ → Times → String → Bool
too_soon now times k = is_some_and (HashMap.get times k) (λ t. ltb (now - t) cooldown)

unfoldable pub report_file :
    World → Db × Times → String → String → String → String → (Db × Times) × Option ℕ
unfolding too_soon prune_queue
report_file w (db, times) reporter cooldown_key target reason =
    let k : String = to_ascii_lowercase cooldown_key in
    if too_soon w.now times k
    then ((db, times), none)
    else let id : ℕ = db.state.net.report_seq in
      (
        (
          note w db (Event.report_filed id reporter target reason w.now) (
              edit_net (λ (n : NetData). record n {
                report_seq = (id + 1) % 2 ^ 64;
                reports = push (prune_queue (λ (r : Report). r.is_open) n.reports) (record {
                  id = id;
                  reporter = reporter;
                  target = target;
                  reason = reason;
                  ts = w.now;
                  is_open = true;
                });
              })),
          HashMap.insert times k w.now,
        ),
        some id,
      )

unfoldable pub report_close : World → Db → ℕ → Db × Bool
report_close w db id =
    if any (λ (r : Report). eqb r.id id && r.is_open) db.state.net.reports
    then (
      note w db (Event.report_closed id) (
          edit_net (λ (n : NetData). record n {
            reports =
                modify_first (λ (r : Report). eqb r.id id)
                  (λ (r : Report). record r { is_open = false }) n.reports;
          })),
      true,
    )
    else (db, false)

unfoldable pub report_del : World → Db → ℕ → Db × Bool
report_del w db id =
    if any (λ (r : Report). eqb r.id id) db.state.net.reports
    then (
      note w db (Event.report_deleted id) (
          edit_net (λ (n : NetData). record n {
            reports = retain (λ (r : Report). not (eqb r.id id)) n.reports;
          })),
      true,
    )
    else (db, false)

unfoldable pub help_request :
    World → Db × Times → String → String → String → (Db × Times) × Option ℕ
unfolding too_soon prune_queue
help_request w (db, times) requester cooldown_key message =
    let k : String = append_str "help:" (to_ascii_lowercase cooldown_key) in
    if too_soon w.now times k
    then ((db, times), none)
    else let id : ℕ = db.state.net.help_seq in
      (
        (
          note w db (Event.help_requested id requester message w.now) (
              edit_net (λ (n : NetData). record n {
                help_seq = (id + 1) % 2 ^ 64;
                help = push (prune_queue (λ (t : HelpTicket). t.is_open) n.help) (record {
                  id = id;
                  requester = requester;
                  message = message;
                  ts = w.now;
                  handler = none;
                  is_open = true;
                });
              })),
          HashMap.insert times k w.now,
        ),
        some id,
      )

unfoldable pub help_take : World → Db → ℕ → String → Db × Bool
help_take w db id handler =
    if any (λ (t : HelpTicket). eqb t.id id && t.is_open) db.state.net.help
    then (
      note w db (Event.help_taken id handler) (
          edit_net (λ (n : NetData). record n {
            help =
                modify_first (λ (t : HelpTicket). eqb t.id id)
                  (λ (t : HelpTicket). record t { handler = some handler }) n.help;
          })),
      true,
    )
    else (db, false)

unfoldable pub help_close : World → Db → ℕ → Db × Bool
help_close w db id =
    if any (λ (t : HelpTicket). eqb t.id id && t.is_open) db.state.net.help
    then (
      note w db (Event.help_closed id) (
          edit_net (λ (n : NetData). record n {
            help =
                modify_first (λ (t : HelpTicket). eqb t.id id)
                  (λ (t : HelpTicket). record t { is_open = false }) n.help;
          })),
      true,
    )
    else (db, false)

-- The oldest open ticket that nobody has taken
unfoldable pub help_next_open : Db → Option ℕ
help_next_open db =
    option_map (λ (t : HelpTicket). t.id)
      (find (λ (t : HelpTicket). t.is_open && is_none t.handler) db.state.net.help)

pub data NewsKind : Type 0 where
  logon oper : NewsKind

-- `NewsKind::wire`
unfoldable pub news_wire : NewsKind → String
news_wire logon = "logon"
news_wire oper = "oper"

unfoldable pub news_add : World → Db → NewsKind → String → String → Db × ℕ
unfolding news_wire
news_add w db kind text setter =
    let id : ℕ = db.state.net.news_seq in
    (
      note w db (Event.news_added id (news_wire kind) text setter w.now) (
          edit_net (λ (n : NetData). record n {
            news_seq = (id + 1) % 2 ^ 64;
            news = push n.news (record {
              id = id;
              kind = news_wire kind;
              text = text;
              setter = setter;
              ts = w.now;
            });
          })),
      id,
    )

unfoldable pub news_del : World → Db → ℕ → Db × Bool
news_del w db id =
    if any (λ (n : News). eqb n.id id) db.state.net.news
    then (
      note w db (Event.news_deleted id) (
          edit_net
            (λ (n : NetData). record n { news = retain (λ (x : News). not (eqb x.id id)) n.news })),
      true,
    )
    else (db, false)
