-- ===== src/Db/Desk.antt =====
-- The calls that write to memory whether or not the log took the event (src/engine/db/network.rs):
-- news, abuse reports, help tickets, session exceptions, operator grants and juped servers.
pub mod Queues
pub mod Grants
pub mod Calls
pub mod Tracing
pub mod Numbers
pub mod Steps
pub mod Pruning
pub mod Restart
