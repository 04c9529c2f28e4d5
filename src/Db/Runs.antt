-- ===== src/Db/Runs.antt =====
-- Runs of the daemon: calls of src/engine/db/channel.rs, src/engine/db/network.rs,
-- src/engine/db/account.rs and src/engine/db/mod.rs, and entries that peers send, in any order.
use echo_services.Prelude.{String, List, [], ◌∷◌}
use echo_services.Log.{LogEntry}
use echo_services.Db.{Db, World}
use echo_services.Db.Calls.{ChanCall, call}
use echo_services.Db.Ingest
use echo_services.Db.Accounts.{AccountCall, account_call}
use echo_services.Db.Groups.{GroupCall, group_call}
use echo_services.Db.MemberCalls.{MemberCall, CertCall, member_call, cert_call}
use echo_services.Db.NetCalls.{NetCall, net_call}
use echo_services.Db.Patterns.{copy_bot_config}
use echo_services.Db.Registry.{release_founded_channels}

-- One thing that happens to the store.
pub data Step : Type 0 where
  calls : World → ChanCall → Step
  changes : World → NetCall → Step
  enrols : World → MemberCall → Step
  certifies : World → CertCall → Step
  assembles : World → GroupCall → Step
  settles : World → String → AccountCall → Step
  copies : World → String → String → Step
  releases : World → String → Step
  ingests : World → LogEntry → Step

unfoldable pub step : Db → Step → Db
step db (calls w c) = (call w db c).0
step db (changes w c) = (net_call w db c).0
step db (enrols w c) = (member_call w db c).0
step db (certifies w c) = (cert_call w db c).0
step db (assembles w c) = (group_call w db c).0
step db (settles w account c) = (account_call w db account c).0
step db (copies w src dst) = (copy_bot_config w db src dst).0
step db (releases w account) = (release_founded_channels w db account).0
step db (ingests w entry) = (Ingest.ingest w db entry).0

unfoldable pub run : Db → List Step → Db
unfolding step
run db [] = db
run db (s ∷ ss) = run (step db s) ss
