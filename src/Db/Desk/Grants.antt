-- ===== src/Db/Desk/Grants.antt =====
-- Session exceptions, operator grants and juped servers (src/engine/db/network.rs).
use echo_services.Prelude.{
  ℕ, zero, suc, ◌+◌, ◌%◌, ◌/◌, ◌^◌, String, Bool, true, false, not, Option, none, some, List,
  if◌then◌else◌, any, find, push, retain, append_str, eq_ignore_ascii_case,
}
use echo_services.HashMap
use echo_services.HashMap.{HashMap}
use echo_services.Data.{NetData, SessionException, Jupe}
use echo_services.Event.{Event}
use echo_services.Fold.Updates.{key}
use echo_services.Db.{Db, World}
use echo_services.Db.Noted.{edit_net, note}

unfoldable pub session_except_add : World → Db → String → ℕ → String → Db
session_except_add w db mask limit reason =
    note w db (Event.session_exception_added mask limit reason) (
      edit_net (λ (n : NetData). record n {
        sess_exceptions =
            push
              (retain (λ (e : SessionException). not (eq_ignore_ascii_case e.mask mask))
                n.sess_exceptions)
              (record { mask = mask; limit = limit; reason = reason });
      }))

unfoldable pub session_except_del : World → Db → String → Db × Bool
session_except_del w db mask =
    if any (λ (e : SessionException). eq_ignore_ascii_case e.mask mask) db.state.net.sess_exceptions
    then (
      note w db (Event.session_exception_removed mask) (
          edit_net (λ (n : NetData). record n {
            sess_exceptions =
                retain (λ (e : SessionException). not (eq_ignore_ascii_case e.mask mask))
                  n.sess_exceptions;
          })),
      true,
    )
    else (db, false)

unfoldable pub oper_grant : World → Db → String → List String → Option ℕ → Db
oper_grant w db account privs expires = note w db (Event.oper_granted account privs expires) (
    edit_net (λ (n : NetData). record n {
      opers = HashMap.insert n.opers (key account) (record { privs = privs; expires = expires });
    }))

unfoldable pub oper_revoke : World → Db → String → Db × Bool
oper_revoke w db account =
    if HashMap.contains_key db.state.net.opers (key account)
    then (
      note w db (Event.oper_revoked account)
          (edit_net (λ (n : NetData). record n { opers = HashMap.remove n.opers (key account) })),
      true,
    )
    else (db, false)

-- The character at a place of the text
unfoldable pub digit_at : ℕ → String → String
digit_at n String.[] = String.[]
digit_at zero (String.◌∷◌ c s) = String.◌∷◌ c String.[]
digit_at (suc n) (String.◌∷◌ c s) = digit_at n s

-- A digit to the base 36
unfoldable pub base36 : ℕ → String
unfolding digit_at
base36 n = digit_at n "0123456789ABCDEFGHIJKLMNOPQRSTUVWXYZ"

unfoldable pub jupe_sid : ℕ → String
unfolding base36
jupe_sid seq = append_str "9" (append_str (base36 (seq / 36 % 36)) (base36 (seq % 36)))

unfoldable pub jupe_add : World → Db → String → String → Db × String
unfolding jupe_sid
jupe_add w db name reason =
    elim (find (λ (j : Jupe). eq_ignore_ascii_case j.name name) db.state.net.jupes) [
      | some j ↦ (db, j.sid)
      | none ↦
          let sid : String = jupe_sid db.state.net.jupe_seq in
          (
            note w db (Event.jupe_added name sid reason) (
                edit_net (λ (n : NetData). record n {
                  jupe_seq = (n.jupe_seq + 1) % 2 ^ 32;
                  jupes = push n.jupes (record { name = name; sid = sid; reason = reason });
                })),
            sid,
          )
    ]

unfoldable pub jupe_del : World → Db → String → Db × Option String
jupe_del w db name =
    elim (find (λ (j : Jupe). eq_ignore_ascii_case j.name name) db.state.net.jupes) [
      | none ↦ (db, none)
      | some j ↦ (
        note w db (Event.jupe_removed name) (
            edit_net (λ (n : NetData). record n {
              jupes = retain (λ (j : Jupe). not (eq_ignore_ascii_case j.name name)) n.jupes;
            })),
        some j.sid,
      )
    ]
