-- ===== src/Db/Limits.antt =====
-- What holds of the lists of every channel over a run (src/engine/db/channel.rs).
use echo_services.Prelude.{Option, none, some, List, sym, subst, inl, inr}
use echo_services.Data.{State}
use echo_services.Event.{Event}
use echo_services.Fold.{apply}
use echo_services.Db.{Db}
use echo_services.Db.Bounds.{IsBounded, apply-IsBounded}
use echo_services.Db.Distinct.{IsDistinct, apply-IsDistinct}
use echo_services.Db.Invariants.{run_keeps}
use echo_services.Db.Runs.{Step, run}
use echo_services.Db.Traced.{Traced, Admits}

-- A property of the store that every admitted event keeps.
module _ (P : State → Type 0)
    (keeps : (s : State) (e : Event) → Admits s e → P s → P (apply s e)) where
  traced_keeps : (E : Type 0) (db : Db) (r : Db × Option E) → Traced db r → P db.state → P r.0.state
  traced_keeps E db (db', none) (inl w) h =
      subst P (sym w.state) (keeps db.state w.event w.admitted h)
  traced_keeps E db (db', none) (inr k) h = subst P (sym k.state) h
  traced_keeps E db (db', some e) k h = subst P (sym k.state) h

  state_keeps : (db : Db) (ss : List Step) → P db.state → P (run db ss).state
  state_keeps db ss h = run_keeps (λ (d : Db). P d.state) traced_keeps db ss h

-- If no channel has more than 256 access entries or more than 256 auto-kick masks, then this holds
-- still after any run of calls on channels, accounts, bans, groups and grouped nicks, of
-- copies and releases, and of entries of other nodes.
pub run-IsBounded :
    (db : Db) (ss : List Step) → IsBounded db.state.channels → IsBounded (run db ss).state.channels
run-IsBounded db ss h = state_keeps (λ s. IsBounded s.channels) apply-IsBounded db ss h

-- If no channel's access list names an account twice and none's auto-kick list a mask twice, by the
-- comparison that ignores case, then this holds still after any run of calls on channels, accounts,
-- bans, groups and grouped nicks, of copies and releases, and of entries of other nodes.
pub run-IsDistinct :
    (db : Db) (ss : List Step)
    → IsDistinct db.state.channels
    → IsDistinct (run db ss).state.channels
run-IsDistinct db ss h = state_keeps (λ s. IsDistinct s.channels) apply-IsDistinct db ss h
