-- ===== src/Db/Desk/Tracing.antt =====
-- What the calls of the desk do to the store and to the log (src/engine/db/network.rs).
use echo_services.Prelude.{
  ℕ, ◌+◌, ◌%◌, ◌^◌, ◌<◌, ◌≡◌, refl, ◌⊎◌, inl, inr, String, Bool, true, false, Option, List,
  if◌then◌else◌, find, length, arith, if_rule, option_rule, eq_ignore_ascii_case, Result, ok, err,
}
use echo_services.Data.{News, Report, HelpTicket, Jupe}
use echo_services.Event.{Event}
use echo_services.Fold.{apply}
use echo_services.Fold.Lists
use echo_services.Log.{EventLog, LogEntry, IoError, append}
use echo_services.Log.Growth.{Grown, Unwritten, Appended, append-Appended, append-ok}
use echo_services.Data.{State}
use echo_services.Db.{Db, World}
use echo_services.Db.Noted.{note}
use echo_services.Db.GroupTracing.{any-find}
use echo_services.Db.Traced.{Kept}
use echo_services.Db.Desk.Queues
use echo_services.Db.Desk.Queues.{Times, too_soon, max_queue, prune_queue}
use echo_services.Db.Desk.Grants
use echo_services.Db.Desk.Calls
use echo_services.Db.Desk.Calls.{DeskCall, desk_call}
use echo_services.Db.Desk.Numbers.{IsNumbered, Rising-fresh, prune_queue-short}
use echo_services.Db.Desk.Steps.{HasRoom}

-- The log is not locked, and writes succeed.
pub record Takes (w : World) (log : EventLog) : Type 0 where
  pub unlocked : log.readonly ≡ false
  pub writable : (entries : List LogEntry) (entry : LogEntry) → w.disk entries entry ≡ true

-- The store changed as replaying one event changes it, and the log holds that event or could not
-- take it.
pub record Noted (w : World) (db db' : Db) : Type 0 where
  pub event : Event
  pub state : db'.state ≡ apply db.state event
  pub log : Grown db.log db'.log event ⊎ Unwritten db.log db'.log
  pub taken : Takes w db.log → Grown db.log db'.log event

module _ (w : World) (db : Db) where
  -- One event was noted, or nothing happened.
  abbrev pub Settled : Db → Type 0
  Settled db' = Noted w db db' ⊎ Kept db db'

  abbrev Ends : {T : Type 0} → Db × T → Type 0
  Ends r = Settled r.0

  note-Settled :
      (event : Event) (write : State → State)
      → write db.state ≡ apply db.state event
      → Settled (note w db event write)
  unfolding note
  note-Settled event write h = inl (record {
    event = event;
    state = h;
    log = go (append w.disk db.log event) (append-Appended w.disk db.log event);
    taken = λ t.
        taken (append w.disk db.log event) (append-Appended w.disk db.log event)
          (append-ok w.disk db.log event t.unlocked t.writable);
  })
    where
      go :
          (r : EventLog × Result (Unit {0}) IoError)
          → Appended db.log event r
          → Grown db.log r.0 event ⊎ Unwritten db.log r.0
      go (log', ok _) g = inl g
      go (log', err _) u = inr u

      taken :
          (r : EventLog × Result (Unit {0}) IoError)
          → Appended db.log event r
          → r.1 ≡ ok tt
          → Grown db.log r.0 event
      taken (log', ok _) g h = g
      taken (log', err _) u h = cc

  kept : Settled db
  kept = inr (record { log = record { entries = refl; file = refl; origin = refl }; state = refl })

  when :
      {T : Type 0} (b : Bool) (db' : Db) (x y : T)
      → Settled db'
      → Ends (if b then (db', x) else (db, y))
  when b db' x y a = if_rule Ends b (λ _. a) (λ _. kept)

  -- The number that a new entry takes is the one that the fold counts on to.
  seq_next : (n : ℕ) → n + 1 < 2 ^ 64 → Lists.seq_past n n ≡ (n + 1) % 2 ^ 64
  seq_next n h = ground arith

  module _ (room : HasRoom 1 db.state.net) (h : IsNumbered db.state.net)
      (reports : length db.state.net.reports < max_queue)
      (help : length db.state.net.help < max_queue) where
    file-Settled :
        (times : Times) (reporter cooldown_key target reason : String)
        → Settled (Queues.report_file w (db, times) reporter cooldown_key target reason).0.0
    unfolding Queues.report_file apply Lists.add_report
    file-Settled times reporter cooldown_key target reason =
        if_rule (λ (r : (Db × Times) × Option ℕ). Settled r.0.0) (too_soon w.now times _)
          (λ _. kept)
          (λ _.
            note-Settled (Event.report_filed db.state.net.report_seq reporter target reason w.now) _
              (rw
                (
                  prune_queue-short (λ (r : Report). r.is_open) db.state.net.reports reports,
                  Rising-fresh (λ (r : Report). r.id) db.state.net.report_seq db.state.net.reports
                      h.reports,
                  seq_next db.state.net.report_seq room.reports,
                )
                refl))

    request-Settled :
        (times : Times) (requester cooldown_key message : String)
        → Settled (Queues.help_request w (db, times) requester cooldown_key message).0.0
    unfolding Queues.help_request apply Lists.add_ticket
    request-Settled times requester cooldown_key message =
        if_rule (λ (r : (Db × Times) × Option ℕ). Settled r.0.0) (too_soon w.now times _)
          (λ _. kept)
          (λ _.
            note-Settled (Event.help_requested db.state.net.help_seq requester message w.now) _ (
              rw
                (
                  prune_queue-short (λ (t : HelpTicket). t.is_open) db.state.net.help help,
                  Rising-fresh (λ (t : HelpTicket). t.id) db.state.net.help_seq db.state.net.help
                      h.help,
                  seq_next db.state.net.help_seq room.help,
                )
                refl))

    news-Settled :
        (kind : Queues.NewsKind) (text setter : String)
        → Settled (Queues.news_add w db kind text setter).0
    unfolding Queues.news_add apply Lists.add_news
    news-Settled kind text setter =
        note-Settled
          (Event.news_added db.state.net.news_seq (Queues.news_wire kind) text setter w.now) _
          (rw
            (
              Rising-fresh (λ (n : News). n.id) db.state.net.news_seq db.state.net.news h.news,
              seq_next db.state.net.news_seq room.news,
            )
            refl)

    jupe-Settled : (name reason : String) → Settled (Grants.jupe_add w db name reason).0
    unfolding Grants.jupe_add apply Lists.add_jupe
    jupe-Settled name reason =
        option_rule (λ (r : Db × String). Settled r.0)
          (find (λ (j : Jupe). eq_ignore_ascii_case j.name name) db.state.net.jupes)
          (λ none_there.
            note-Settled (Event.jupe_added name (Grants.jupe_sid db.state.net.jupe_seq) reason) _ (
              rw
                (any-find (λ (j : Jupe). eq_ignore_ascii_case j.name name) db.state.net.jupes
                  (rw none_there refl))
                refl))
          (λ j _. kept)

    pub desk_call-Settled : (times : Times) (c : DeskCall) → Settled (desk_call w (db, times) c).0
    unfolding desk_call apply Queues.report_close Queues.report_del Queues.help_take
        Queues.help_close Queues.news_del Grants.session_except_add Grants.session_except_del
        Grants.oper_grant Grants.oper_revoke Grants.jupe_del Lists.close_report Lists.del_report
        Lists.take_ticket Lists.close_ticket Lists.del_news Lists.add_exception Lists.del_exception
        Lists.del_jupe
    desk_call-Settled times (Calls.file reporter cooldown_key target reason) =
        file-Settled times reporter cooldown_key target reason
    desk_call-Settled times (Calls.request requester cooldown_key message) =
        request-Settled times requester cooldown_key message
    desk_call-Settled times (Calls.add_news kind text setter) = news-Settled kind text setter
    desk_call-Settled times (Calls.jupe name reason) = jupe-Settled name reason
    desk_call-Settled times (Calls.close id) =
        when _ _ true false (note-Settled (Event.report_closed id) _ refl)
    desk_call-Settled times (Calls.delete id) =
        when _ _ true false (note-Settled (Event.report_deleted id) _ refl)
    desk_call-Settled times (Calls.take id handler) =
        when _ _ true false (note-Settled (Event.help_taken id handler) _ refl)
    desk_call-Settled times (Calls.finish id) =
        when _ _ true false (note-Settled (Event.help_closed id) _ refl)
    desk_call-Settled times (Calls.del_news id) =
        when _ _ true false (note-Settled (Event.news_deleted id) _ refl)
    desk_call-Settled times (Calls.except mask limit reason) =
        note-Settled (Event.session_exception_added mask limit reason) _ refl
    desk_call-Settled times (Calls.unexcept mask) =
        when _ _ true false (note-Settled (Event.session_exception_removed mask) _ refl)
    desk_call-Settled times (Calls.grant account privs expires) =
        note-Settled (Event.oper_granted account privs expires) _ refl
    desk_call-Settled times (Calls.revoke account) =
        when _ _ true false (note-Settled (Event.oper_revoked account) _ refl)
    desk_call-Settled times (Calls.unjupe name) =
        option_rule (λ (r : Db × Option String). Settled r.0)
          (find (λ (j : Jupe). eq_ignore_ascii_case j.name name) db.state.net.jupes) (λ _. kept)
          (λ j _. note-Settled (Event.jupe_removed name) _ refl)
