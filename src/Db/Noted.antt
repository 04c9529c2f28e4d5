-- ===== src/Db/Noted.antt =====
-- Writes that are made whether or not the log took the event (src/engine/db/network.rs).
use echo_services.Data.{State, NetData}
use echo_services.Event.{Event}
use echo_services.Log.{append}
use echo_services.Db.{Db, World}

-- A write through `self.net`
abbrev pub edit_net : (NetData → NetData) → State → State
edit_net f s = record s { net = f s.net }

-- `let _ = self.log.append(event);` and the write to the store
unfoldable pub note : World → Db → Event → (State → State) → Db
note w db event write = record { state = write db.state; log = (append w.disk db.log event).0 }
