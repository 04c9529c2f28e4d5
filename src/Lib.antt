-- ===== src/Lib.antt =====
-- The event-sourced store of the services daemon.
--
-- The daemon keeps accounts, channels and network data in memory, and writes their changes as events
-- to an append-only log. A restart folds the log (`Db::open`), and nodes send each other
-- their entries (`Db::ingest`), which are folded by the same `apply`. The files, by the source they
-- model:
--
-- * Prelude, HashMap: shared names, tests, lists, texts; Rust's `HashMap` as a list of entries in
--   some iteration order. `to_ascii_lowercase` and the order of texts go by their characters.
-- * Data (src/engine/db/mod.rs, api/src/lib.rs): the records of the store, with the source's fields.
--   `State` is the six fields of `Db` that events are folded into.
-- * Event (src/engine/db/event.rs): the events and their scope. Fold: `apply`, case by case, with the
--   writes to one account or channel in Fold/Updates, those to hosts and network data in Fold/Lists,
--   and `purge_account_refs` in Fold/Purge. Fold/Claims is about rival registrations, Fold/Ownership
--   about founders, Fold/Erasure about dropped accounts.
-- * Log (`LogEntry`, `EventLog`, src/engine/db/mod.rs): `open_log`, `absorb`, `append`, `ingest`,
--   `missing_for` and `compact`. Log/Recovery, Log/Compaction and Log/History are about restarts,
--   Log/Growth about what a call adds, Log/Gossip about entries of peers, Log/Orderly and
--   Log/CatchUp about a peer that catches up.
-- * Db (src/engine/db/mod.rs): the store, `open_db`, `commit` and the resolution of names. The calls,
--   each with its guards, its event and its own write to the store: of src/engine/db/channel.rs in
--   Db/Registry, Db/AccessLists, Db/ChannelConfig and Db/Patterns; of src/engine/db/network.rs in
--   Db/Bans, with grouped nicks; of src/engine/db/account.rs in Db/Accounts. Db/Ingest is
--   `Db::ingest`, Db/Ingest/Effects is about what it asks of the ircd. Db/Calls, Db/NetCalls,
--   Db/Accounts and Db/Runs have the calls as data, and runs of them.
-- * Db/Traced, Db/Tracing, Db/NetTracing, Db/AccountTracing and Db/Invariants compare the writes with
--   the fold; Db/Restart, Db/ChannelLists, Db/Bounds, Db/Distinct and Db/Limits are about whole runs.
-- * Auth (src/engine/db/account.rs): emailed codes (Auth/Codes) and the throttle on passwords
--   (Auth/Throttle), which are in memory alone.
-- * Glob (`glob_match`, src/engine/db/mod.rs): the matcher of masks. Glob/Loop has a rule for its loop,
--   Glob/Meaning compares it with the meaning of a mask.
-- * Counter (src/engine/security/counter.rs): the sliding windows of the detectors. Counter/Exact says
--   what they count.
-- * Board (modules/gameserv/src/board.rs): the moves of tic-tac-toe and Connect Four, the end of a game
--   in Board/Ending, its lines in Board/Lines, and the escape of message tags in Board/Tags.
-- * Dice (modules/diceserv/src/expr.rs): the evaluation of dice expressions; Dice/Faces and Dice/Tally are
--   about the faces that are thrown and their number.
-- * Db/Members (registration, provisioning, credentials, certificates, auto-join) and Db/Hosts (vhosts,
--   their menu, pins), both of src/engine/db/account.rs, with Db/MemberCalls, Db/MemberTracing and
--   Db/HostTracing.
-- * Db/Groups and Db/GroupTracing (src/engine/db/network.rs): groups of accounts. Db/Noted and Db/Desk:
--   the calls there that write to memory whether or not the log took the event, in Db/Desk/Queues
--   (news, reports, tickets) and Db/Desk/Grants (session exceptions, operators, jupes), with the
--   throttle `report_times` as an argument; Db/Desk/Numbers, Steps, Tracing, Restart and Pruning are
--   about them. Db/Masks: what is read by mask, and the ignores of the session.
-- Examples states the theorems at concrete inputs.
--
-- State is passed explicitly: a call takes the store and gives it back with its result. The clock,
-- the disk (whether the write of an entry succeeds, given the entries so far) and what the regex
-- library compiles are arguments (`World`); so are the signatures of a log, and the text of a fresh
-- code. `u64` sequence numbers and `u32` counts of failures wrap (`% 2 ^ 64`, `% 2 ^ 32`), clocks and
-- epochs saturate, as in the source. Definitions are by structural recursion; the loop of
-- `glob_match` alone runs on fuel, (length of the text + 1) × (length of the mask + 1) rounds, since
-- each return to the last star takes one character more of the text.
--
-- Not modelled: JSON, files and sockets (a file is the list of the entries whose lines were written,
-- and a write that fails leaves it as it was), the other caches of a session, the readers that only
-- format, and the engine and modules that turn commands into these calls. Of the games, chess and the
-- wire form of a board are left out; of the dice, the tokeniser and the parser, so that an expression
-- is given as its tree. `f64` and the generator are parameters there.
pub mod Prelude
pub mod HashMap
pub mod Board
pub mod Dice
pub mod Counter
pub mod Data
pub mod Event
pub mod Fold
pub mod Glob
pub mod Log
pub mod Db
pub mod Auth
pub mod Examples
