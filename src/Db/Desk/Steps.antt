-- ===== src/Db/Desk/Steps.antt =====
-- Every call of the desk keeps the numbering and the bounds (src/engine/db/network.rs).
use echo_services.Prelude.{
  ℕ, suc, ◌+◌, ◌^◌, ◌≤◌, ◌<◌, ◌≡◌, refl, String, Bool, Option, List, [], ◌∷◌, eqb, if◌then◌else◌,
  find, push, modify_first, length, length-append, length-retain-le, true, false, arith, if_rule,
  option_rule, eq_ignore_ascii_case,
}
use echo_services.HashMap.{HashMap}
use echo_services.Data.{NetData, News, Report, HelpTicket, Jupe, OperGrant, SessionException}
use echo_services.Db.{Db, World}
use echo_services.Db.Noted.{note}
use echo_services.Db.Desk.Queues
use echo_services.Db.Desk.Queues.{Times, too_soon, max_queue, prune_queue}
use echo_services.Db.Desk.Grants
use echo_services.Db.Desk.Calls
use echo_services.Db.Desk.Calls.{DeskCall, desk_call}
use echo_services.Db.Desk.Numbers.{
  IsNumbered, Rising, Rising-push, Rising-retain, Rising-prune, Rising-modify, length-prune-lt,
}

-- Each counter can go up `k` times before it would wrap.
pub record HasRoom (k : ℕ) (net : NetData) : Type 0 where
  pub news : net.news_seq + k < 2 ^ 64
  pub reports : net.report_seq + k < 2 ^ 64
  pub help : net.help_seq + k < 2 ^ 64

-- The counters go up by one at most, and the numbering is kept.
pub record Advances (k : ℕ) (net net' : NetData) : Type 0 where
  pub numbered : IsNumbered net'
  pub room : HasRoom k net'

length-push-le : {A : Type 0} (n : ℕ) (xs : List A) (x : A) → length xs < n → length (push xs x) ≤ n
length-push-le n xs x h = omega (arith, length-append xs (x ∷ []))

length-modify :
    {A : Type 0} (p : A → Bool) (f : A → A) (xs : List A) → length (modify_first p f xs) ≡ length xs
unfolding modify_first
length-modify p f [] = refl
length-modify p f (x ∷ xs) = ground (arith, length-modify p f xs)

-- A call that leaves the queues and their counters alone
module _ {k : ℕ} (net net' : NetData) (news_seq : net'.news_seq ≡ net.news_seq)
    (report_seq : net'.report_seq ≡ net.report_seq) (help_seq : net'.help_seq ≡ net.help_seq)
    (room : HasRoom (suc k) net) where
  still_room : HasRoom k net'
  still_room = record {
    news = omega (arith, room.news);
    reports = omega (arith, room.reports);
    help = omega (arith, room.help);
  }

-- A call that changes no queue and no counter
rests :
    {k : ℕ} (net net' : NetData)
    → net'.news ≡ net.news
    → net'.reports ≡ net.reports
    → net'.help ≡ net.help
    → net'.news_seq ≡ net.news_seq
    → net'.report_seq ≡ net.report_seq
    → net'.help_seq ≡ net.help_seq
    → HasRoom (suc k) net
    → IsNumbered net
    → Advances k net net'
rests net net' a b c d e f room h = record {
  numbered = record {
    news = rw (a, d) (h.news);
    reports = rw (b, e) (h.reports);
    help = rw (c, f) (h.help);
    reports_bound = rw b (h.reports_bound);
    help_bound = rw c (h.help_bound);
  };
  room = still_room net net' d e f room;
}

module _ {k : ℕ} (w : World) (db : Db) (room : HasRoom (suc k) db.state.net)
    (h : IsNumbered db.state.net) where
  -- The state after the call is numbered, and the counters have room left.
  abbrev After : Db → Type 0
  After db' = Advances k db.state.net db'.state.net

  idle : After db
  idle = rests db.state.net db.state.net refl refl refl refl refl refl room h

  file-Advances :
      (times : Times) (reporter cooldown_key target reason : String)
      → After (Queues.report_file w (db, times) reporter cooldown_key target reason).0.0
  unfolding Queues.report_file note
  file-Advances times reporter cooldown_key target reason =
      if_rule (λ (r : (Db × Times) × Option ℕ). After r.0.0) (too_soon w.now times _) (λ _. idle)
        (λ _. record {
          numbered = record {
            news = h.news;
            reports =
                Rising-push (λ (r : Report). r.id) db.state.net.report_seq _ _ _ refl
                  (omega (arith, room.reports))
                  (Rising-prune (λ (r : Report). r.id) _ (λ (r : Report). r.is_open) _ h.reports);
            help = h.help;
            reports_bound =
                length-push-le max_queue _ _ (
                  length-prune-lt (λ (r : Report). r.is_open) db.state.net.reports h.reports_bound);
            help_bound = h.help_bound;
          };
          room = record {
            news = omega (arith, room.news);
            reports = omega (arith, room.reports);
            help = omega (arith, room.help);
          };
        })

  request-Advances :
      (times : Times) (requester cooldown_key message : String)
      → After (Queues.help_request w (db, times) requester cooldown_key message).0.0
  unfolding Queues.help_request note
  request-Advances times requester cooldown_key message =
      if_rule (λ (r : (Db × Times) × Option ℕ). After r.0.0) (too_soon w.now times _) (λ _. idle)
        (λ _. record {
          numbered = record {
            news = h.news;
            reports = h.reports;
            help =
                Rising-push (λ (t : HelpTicket). t.id) db.state.net.help_seq _ _ _ refl
                  (omega (arith, room.help))
                  (Rising-prune (λ (t : HelpTicket). t.id) _ (λ (t : HelpTicket). t.is_open) _
                    h.help);
            reports_bound = h.reports_bound;
            help_bound =
                length-push-le max_queue _ _
                  (length-prune-lt (λ (t : HelpTicket). t.is_open) db.state.net.help h.help_bound);
          };
          room = record {
            news = omega (arith, room.news);
            reports = omega (arith, room.reports);
            help = omega (arith, room.help);
          };
        })

  news-Advances :
      (kind : Queues.NewsKind) (text setter : String)
      → After (Queues.news_add w db kind text setter).0
  unfolding Queues.news_add note
  news-Advances kind text setter = record {
    numbered = record {
      news =
          Rising-push (λ (n : News). n.id) db.state.net.news_seq _ _ _ refl
            (omega (arith, room.news)) h.news;
      reports = h.reports;
      help = h.help;
      reports_bound = h.reports_bound;
      help_bound = h.help_bound;
    };
    room = record {
      news = omega (arith, room.news);
      reports = omega (arith, room.reports);
      help = omega (arith, room.help);
    };
  }

  -- A change of the reports that keeps their numbers
  reports-Advances :
      (rs : List Report)
      → Rising (λ (r : Report). r.id) db.state.net.report_seq rs
      → length rs ≤ length db.state.net.reports
      → Advances k db.state.net (record (db.state.net) { reports = rs })
  reports-Advances rs rising shorter = record {
    numbered = record {
      news = h.news;
      reports = rising;
      help = h.help;
      reports_bound = omega (arith, h.reports_bound);
      help_bound = h.help_bound;
    };
    room = still_room db.state.net _ refl refl refl room;
  }

  news_list-Advances :
      (ns : List News)
      → Rising (λ (n : News). n.id) db.state.net.news_seq ns
      → Advances k db.state.net (record (db.state.net) { news = ns })
  news_list-Advances ns rising = record {
    numbered = record {
      news = rising;
      reports = h.reports;
      help = h.help;
      reports_bound = h.reports_bound;
      help_bound = h.help_bound;
    };
    room = still_room db.state.net _ refl refl refl room;
  }

  exceptions-Advances :
      (es : List SessionException)
      → Advances k db.state.net (record (db.state.net) { sess_exceptions = es })
  exceptions-Advances es = rests db.state.net _ refl refl refl refl refl refl room h

  opers-Advances :
      (os : HashMap OperGrant) → Advances k db.state.net (record (db.state.net) { opers = os })
  opers-Advances os = rests db.state.net _ refl refl refl refl refl refl room h

  help-Advances :
      (p : HelpTicket → Bool) (f : HelpTicket → HelpTicket)
      → ((t : HelpTicket) → (f t).id ≡ t.id)
      → Advances k db.state.net
          (record (db.state.net) { help = modify_first p f db.state.net.help })
  help-Advances p f same = record {
    numbered = record {
      news = h.news;
      reports = h.reports;
      help = Rising-modify (λ (t : HelpTicket). t.id) _ p f _ same h.help;
      reports_bound = h.reports_bound;
      help_bound = omega (arith, length-modify p f db.state.net.help, h.help_bound);
    };
    room = still_room db.state.net _ refl refl refl room;
  }

  abbrev Ends : {T : Type 0} → Db × T → Type 0
  Ends r = After r.0

  -- Where the call does something only under a test
  when :
      {T : Type 0} (b : Bool) (db' : Db) (x y : T)
      → After db'
      → Ends (if b then (db', x) else (db, y))
  when b db' x y a = if_rule Ends b (λ _. a) (λ _. idle)

  desk_call-Advances : (times : Times) (c : DeskCall) → After (desk_call w (db, times) c).0
  unfolding desk_call Queues.report_close Queues.report_del Queues.help_take Queues.help_close
      Queues.news_del Grants.session_except_add Grants.session_except_del Grants.oper_grant
      Grants.oper_revoke Grants.jupe_add Grants.jupe_del note
  desk_call-Advances times (Calls.file reporter cooldown_key target reason) =
      file-Advances times reporter cooldown_key target reason
  desk_call-Advances times (Calls.request requester cooldown_key message) =
      request-Advances times requester cooldown_key message
  desk_call-Advances times (Calls.add_news kind text setter) = news-Advances kind text setter
  desk_call-Advances times (Calls.close id) = when _ _ true false (
      reports-Advances _
        (Rising-modify (λ (r : Report). r.id) _ _ (λ (r : Report). record r { is_open = false }) _
          (λ r. refl) h.reports)
        (omega (
          arith,
          length-modify (λ (r : Report). eqb r.id id) (λ (r : Report). record r { is_open = false })
              db.state.net.reports,
        )))
  desk_call-Advances times (Calls.delete id) = when _ _ true false (
      reports-Advances _ (Rising-retain (λ (r : Report). r.id) _ _ _ h.reports)
        (length-retain-le _ db.state.net.reports))
  desk_call-Advances times (Calls.take id handler) =
      when _ _ true false (help-Advances _ _ (λ t. refl))
  desk_call-Advances times (Calls.finish id) = when _ _ true false (help-Advances _ _ (λ t. refl))
  desk_call-Advances times (Calls.del_news id) =
      when _ _ true false (news_list-Advances _ (Rising-retain (λ (n : News). n.id) _ _ _ h.news))
  desk_call-Advances times (Calls.except mask limit reason) =
      rests db.state.net _ refl refl refl refl refl refl room h
  desk_call-Advances times (Calls.unexcept mask) = when _ _ true false (exceptions-Advances _)
  desk_call-Advances times (Calls.grant account privs expires) =
      rests db.state.net _ refl refl refl refl refl refl room h
  desk_call-Advances times (Calls.revoke account) = when _ _ true false (opers-Advances _)
  desk_call-Advances times (Calls.jupe name reason) =
      option_rule (λ (r : Db × String). After r.0)
        (find (λ (j : Jupe). eq_ignore_ascii_case j.name name) db.state.net.jupes)
        (λ _. rests db.state.net _ refl refl refl refl refl refl room h) (λ j _. idle)
  desk_call-Advances times (Calls.unjupe name) =
      option_rule (λ (r : Db × Option String). After r.0)
        (find (λ (j : Jupe). eq_ignore_ascii_case j.name name) db.state.net.jupes) (λ _. idle)
        (λ j _. rests db.state.net _ refl refl refl refl refl refl room h)

-- A session at the desk: calls in any order, each with the clock and the disk of its moment
unfoldable pub desk_run : Db × Times → List (World × DeskCall) → Db × Times
unfolding desk_call
desk_run s [] = s
desk_run s ((w, c) ∷ cs) = desk_run (desk_call w s c) cs

-- If the news, reports and tickets are in the order of their numbers, no number is used twice, the
-- next one is above all and the queues are within 2,000 entries, then all of this holds after any
-- calls of the desk, with disks that fail or not, as long as there are not so many calls that a
-- 64-bit counter of numbers would wrap.
pub desk_run-IsNumbered :
    (db : Db) (times : Times) (cs : List (World × DeskCall))
    → HasRoom (length cs) db.state.net
    → IsNumbered db.state.net
    → IsNumbered (desk_run (db, times) cs).0.state.net
unfolding desk_run
desk_run-IsNumbered db times [] room h = h
desk_run-IsNumbered db times ((w, c) ∷ cs) room h =
    let a : Advances (length cs) db.state.net (desk_call w (db, times) c).0.state.net =
      desk_call-Advances w db room h times c in
    desk_run-IsNumbered (desk_call w (db, times) c).0 (desk_call w (db, times) c).1 cs a.room
      a.numbered
