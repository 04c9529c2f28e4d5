-- ===== src/Db/Traced.antt =====
-- What a traced call does: it writes nothing, or it writes one event and does to the store what
-- `apply` does with it (src/engine/db/channel.rs, src/engine/db/event.rs).
use echo_services.Prelude.{
  not, ◌&&◌, leb, any, length, eq_ignore_ascii_case, Bool, false, Option, none, some, List, ◌≡◌,
  refl, ◌⊎◌, inl, inr, Result, ok, err,
}
use echo_services.HashMap
use echo_services.Data.{State, ChannelInfo, ChanAccess, ChanAkick}
use echo_services.Db.AccessLists.{max_chan_list}
use echo_services.Event.{Event}
use echo_services.Fold.{apply}
use echo_services.Log.{EventLog, IoError, append}
use echo_services.Log.Growth.{Grown, Unwritten, Appended, append-Appended}
use echo_services.Fold.Updates.{key}
use echo_services.Db.{Db, World, commit}
use echo_services.Db.Calls.{report}

-- Whether a list that is full would have to grow for this entry.
abbrev pub overflows : {A : Type 0} → (A → Bool) → List A → Bool
overflows same xs = leb max_chan_list (length xs) && not (any same xs)

-- What the caller has checked before it writes an event: a list that is full is not to grow.
abbrev pub Admits : State → Event → Type 0
Admits s (Event.channel_access_add channel account level) =
    (c : ChannelInfo)
    → HashMap.get s.channels (key channel) ≡ some c
    → overflows (λ (a : ChanAccess). eq_ignore_ascii_case a.account account) c.access ≡ false
Admits s (Event.channel_akick_add channel mask reason) =
    (c : ChannelInfo)
    → HashMap.get s.channels (key channel) ≡ some c
    → overflows (λ (a : ChanAkick). eq_ignore_ascii_case a.mask mask) c.akick ≡ false
Admits s _ = Unit {0}

-- A call that wrote one event, and did what `apply` does with it.
pub record Wrote (db db' : Db) : Type 0 where
  pub event : Event
  pub admitted : Admits db.state event
  pub log : Grown db.log db'.log event
  pub state : db'.state ≡ apply db.state event

-- A call that wrote nothing, and left the store as it was.
pub record Kept (db db' : Db) : Type 0 where
  pub log : Unwritten db.log db'.log
  pub state : db'.state ≡ db.state

-- A call that fails keeps the store; one that succeeds keeps it too, or writes one event.
abbrev pub Traced : {E : Type 0} → Db → Db × Option E → Type 0
Traced db (db', none) = Wrote db db' ⊎ Kept db db'
Traced db (db', some _) = Kept db db'

unwritten : (log : EventLog) → Unwritten log log
unwritten log = record { entries = refl; file = refl; origin = refl }

pub fails : {E : Type 0} (db : Db) (e : E) → Traced db (db, some e)
fails db e = record { log = unwritten db.log; state = refl }

pub skips : (E : Type 0) (db : Db) → Traced {E = E} db (db, none)
skips E db = inr (record { log = unwritten db.log; state = refl })

pub commit-Traced :
    {T E : Type 0} (w : World) (db : Db) (event : Event) (fault : E) (write : State → State)
    (value : T)
    → Admits db.state event
    → write db.state ≡ apply db.state event
    → Traced db (report {T = T} {E = E} (commit w db event fault write value))
unfolding commit
commit-Traced {T = T} {E = E} w db event fault write value a h =
    go (append w.disk db.log event) (append-Appended w.disk db.log event)
  where
    go :
        (r : EventLog × Result (Unit {0}) IoError)
        → Appended db.log event r
        → Traced db (
            report {T = T} {E = E} (elim r.1 [
              | ok _ ↦ (record { state = write db.state; log = r.0 }, ok value)
              | err _ ↦ (record db { log = r.0 }, err fault)
            ]))
    go (log', ok _) g = inl (record { event = event; admitted = a; log = g; state = h })
    go (log', err _) u = record { log = u; state = refl }
