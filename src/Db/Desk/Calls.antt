-- ===== src/Db/Desk/Calls.antt =====
-- The calls of the desk, as data (src/engine/db/network.rs).
use echo_services.Prelude.{ℕ, String, Option, List}
use echo_services.Db.{Db, World}
use echo_services.Db.Desk.Queues.{
  Times, NewsKind, report_file, report_close, report_del, help_request, help_take, help_close,
  news_add, news_del,
}
use echo_services.Db.Desk.Grants.{
  session_except_add, session_except_del, oper_grant, oper_revoke, jupe_add, jupe_del,
}

-- These calls, as data
pub data DeskCall : Type 0 where
  file : String → String → String → String → DeskCall
  close delete finish del_news : ℕ → DeskCall
  request : String → String → String → DeskCall
  take : ℕ → String → DeskCall
  add_news : NewsKind → String → String → DeskCall
  except : String → ℕ → String → DeskCall
  unexcept revoke unjupe : String → DeskCall
  grant : String → List String → Option ℕ → DeskCall
  jupe : String → String → DeskCall

unfoldable pub desk_call : World → Db × Times → DeskCall → Db × Times
desk_call w s (file reporter cooldown_key target reason) =
    (report_file w s reporter cooldown_key target reason).0
desk_call w (db, times) (close id) = ((report_close w db id).0, times)
desk_call w (db, times) (delete id) = ((report_del w db id).0, times)
desk_call w s (request requester cooldown_key message) =
    (help_request w s requester cooldown_key message).0
desk_call w (db, times) (take id handler) = ((help_take w db id handler).0, times)
desk_call w (db, times) (finish id) = ((help_close w db id).0, times)
desk_call w (db, times) (add_news kind text setter) = ((news_add w db kind text setter).0, times)
desk_call w (db, times) (del_news id) = ((news_del w db id).0, times)
desk_call w (db, times) (except mask limit reason) =
    (session_except_add w db mask limit reason, times)
desk_call w (db, times) (unexcept mask) = ((session_except_del w db mask).0, times)
desk_call w (db, times) (grant account privs expires) =
    (oper_grant w db account privs expires, times)
desk_call w (db, times) (revoke account) = ((oper_revoke w db account).0, times)
desk_call w (db, times) (jupe name reason) = ((jupe_add w db name reason).0, times)
desk_call w (db, times) (unjupe name) = ((jupe_del w db name).0, times)
