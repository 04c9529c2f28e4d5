-- ===== src/Examples.antt =====
-- The theorems at concrete inputs.
mod Passwords
mod Desk
mod Masks
mod Members
mod Peers
mod Games
mod Rolls
use echo_services.Prelude.{
  ℕ, ◌<◌, ◌≤◌, String, true, false, none, some, List, [], ◌∷◌, ◌≡◌, refl, arith, u64_max, map, ok,
  leb, length, inl, inr, eq_ignore_ascii_case, any, to_ascii_lowercase, sym, ap, ◌∙◌, ◌⊎◌,
}
use mathlib.Core.List.Perm
use mathlib.Core.List.Memᴰ
use mathlib.Core.Logic.{∥∥₁_elim}
use echo_services.HashMap
use echo_services.Data.{Account, ChannelInfo, empty_state}
use echo_services.Event.{Event, scope}
use echo_services.Fold.{apply, replay}
use echo_services.Fold.Updates
use echo_services.Fold.Claims
use echo_services.Fold.Erasure
use echo_services.Fold.Ownership
use echo_services.Log
use echo_services.Log.Gossip
use echo_services.Log.History
use echo_services.Log.Recovery
use echo_services.Log.{LogEntry, EventLog, Disk, open_log}
use echo_services.Db.{World, open_db}
use echo_services.Db.Calls
use echo_services.Db.Bans
use echo_services.Db.Accounts
use echo_services.Db.Accounts.{account_call}
use echo_services.Db.AccountTracing
use echo_services.Db.NetCalls
use echo_services.Db.NetCalls.{net_call}
use echo_services.Db.NetTracing
use echo_services.Db.Ingest
use echo_services.Db.Ingest.Effects
use echo_services.Db.Bounds.{IsBounded}
use echo_services.Db.Distinct.{IsDistinct, distinct}
use echo_services.Db.ChannelLists.{account_of, mask_of}
use echo_services.Db.Limits
use echo_services.Db.Restart
use echo_services.Db.Runs
use echo_services.Db.Traced.{Traced}
use echo_services.Db.Tracing

-- A disk that takes three entries.
abbrev small_disk : Disk
small_disk entries entry = leb (length entries) 2

abbrev world : World
world = record { now = 100; disk = small_disk; compiles = λ _. true }

abbrev remote : LogEntry
remote = record {
  origin = "hub";
  seq = 0;
  lamport = 7;
  epoch = 0;
  sig = none;
  event = Event.akill_added "G" "*@bad.example" "oper" "spam" 90 (some 400);
}

-- A session that fills the disk.
abbrev session : List Runs.Step
session =
    Runs.calls world (Calls.register "#Rust" "alice")
    ∷ Runs.calls world (Calls.add_access "#rust" "bob" "op")
    ∷ Runs.ingests world remote
    ∷ Runs.calls world (Calls.set_desc "#rust" "never written")
    ∷ Runs.changes world (NetCalls.group "al" "alice")
    ∷ Runs.settles world "alice" (Accounts.change_greet "hello")
    ∷ Runs.releases world "alice"
    ∷ []

run-open_db_example :
    let db = Runs.run (open_db "node" []) session in
    (open_db db.log.origin db.log.file).state ≡ db.state
run-open_db_example = Restart.run-open_db "node" [] session

none_here :
    (k : String) (c : ChannelInfo)
    → HashMap.get (open_db "node" []).state.channels k ≡ some c
    → (length c.access ≤ 256) × (length c.akick ≤ 256)
unfolding open_db HashMap.get open_log Log.absorb_all Log.events_from replay
none_here k c h = ground arith

run-IsBounded_example : IsBounded (Runs.run (open_db "node" []) session).state.channels
run-IsBounded_example = Limits.run-IsBounded (open_db "node" []) session none_here

no_channels :
    (k : String) (c : ChannelInfo)
    → HashMap.get (open_db "node" []).state.channels k ≡ some c
    → (distinct account_of c.access ≡ true) × (distinct mask_of c.akick ≡ true)
unfolding open_db HashMap.get open_log Log.absorb_all Log.events_from replay
no_channels k c h = ground arith

run-IsDistinct_example : IsDistinct (Runs.run (open_db "node" []) session).state.channels
run-IsDistinct_example = Limits.run-IsDistinct (open_db "node" []) session no_channels

net_call-Traced_example :
    Traced (open_db "node" []) (
      net_call world (open_db "node" []) (NetCalls.add_akill Bans.gline "*@bad" "oper" "spam" none))
net_call-Traced_example =
    NetTracing.net_call-Traced world (open_db "node" [])
      (NetCalls.add_akill Bans.gline "*@bad" "oper" "spam" none)

account_call-Traced_example :
    Traced
      (open_db "node" [])
      (account_call world (open_db "node" []) "alice" (Accounts.change_greet "hello"))
account_call-Traced_example =
    AccountTracing.account_call-Traced world (open_db "node" []) "alice"
      (Accounts.change_greet "hello")

remote_banned :
    Effects.effect_of (Ingest.ingest world (open_db "node" []) remote).1
    ≡ some (Ingest.ban_added "G" "*@bad.example" "oper" 300 "spam")
unfolding Ingest.ingest open_db open_log Log.ingest Log.absorb_all HashMap.get scope Log.accepts
remote_banned = refl

ingest-IsWarranted_example :
    Effects.IsWarranted 100 remote.event
      (open_db "node" []).state
      (Ingest.ingest world (open_db "node" []) remote).0.state
      (Ingest.ban_added "G" "*@bad.example" "oper" 300 "spam")
ingest-IsWarranted_example =
    Effects.ingest-IsWarranted world (open_db "node" []) remote
      (Ingest.ban_added "G" "*@bad.example" "oper" 300 "spam") remote_banned

call-Traced_example :
    Traced
      (open_db "node" [])
      (Calls.call world (open_db "node" []) (Calls.register "#rust" "alice"))
call-Traced_example = Tracing.call-Traced world (open_db "node" []) (Calls.register "#rust" "alice")

abbrev log_calls : List Log.LogCall
log_calls =
    Log.appends remote.event
    ∷ Log.compacts (remote.event ∷ [])
    ∷ Log.appends (Event.channel_dropped "#rust")
    ∷ []

abbrev claim : String → ℕ → String → Account
claim name ts home = record {
  name = name;
  email = none;
  ts = ts;
  home = home;
  scram256 = none;
  scram512 = none;
  certfps = [];
  pubkey = none;
  verified = true;
  ajoin = [];
  suspension = none;
  memos = [];
  memo_ignore = [];
  memo_notify = true;
  memo_limit = none;
  greet = "";
  no_autoop = false;
  no_protect = false;
  hide_status = false;
  snotice = false;
  language = none;
  profile = record { avatar = none; bio = none; pronouns = none; timezone = none; url = none };
  vhost = none;
  vhost_request = none;
  last_seen = ts;
  noexpire = false;
  expiry_warned = false;
  oper_note = none;
  swhois = none;
  signore = [];
}

abbrev here : Account
here = claim "alice" 5 "leaf"

abbrev there : Account
there = claim "Alice" 3 "hub"

here_or_there : (x : Account) → Memᴰ.Memᴰ x (here ∷ there ∷ []) → (x ≡ here) ⊎ (x ≡ there)
here_or_there x m = elim (Memᴰ.cases_cons m) [
  | inl e ↦ inl e
  | inr n ↦ inr (Memᴰ.eq_of_singleton n)
]

both_agree : Claims.AllAgree (here ∷ there ∷ [])
both_agree x y mx my kx tx hx = ∥∥₁_elim mx (Claims.Account-IsSet x y) λ dx.
    ∥∥₁_elim my (Claims.Account-IsSet x y) λ dy. elim (here_or_there x dx) [
      | inl p ↦ elim (here_or_there y dy) [
        | inl q ↦ p ∙ sym q
        | inr q ↦
            ground (arith, sym (ap (λ (a : Account). a.ts) p) ∙ tx ∙ ap (λ (a : Account). a.ts) q)
      ]
      | inr p ↦ elim (here_or_there y dy) [
        | inl q ↦
            ground (arith, sym (ap (λ (a : Account). a.ts) p) ∙ tx ∙ ap (λ (a : Account). a.ts) q)
        | inr q ↦ p ∙ sym q
      ]
    ]

replay-perm_example :
    HashMap.get
      (replay empty_state (map Event.account_registered (here ∷ there ∷ []))).accounts
      "alice"
    ≡ HashMap.get
        (replay empty_state (map Event.account_registered (there ∷ here ∷ []))).accounts
        "alice"
replay-perm_example =
    Claims.replay-perm empty_state (here ∷ there ∷ []) (there ∷ here ∷ []) "alice"
      (Perm.swap there here []) both_agree

apply-founder_example :
    let s = replay empty_state (Event.channel_registered "#rust" "alice" 1 ∷ []) in
    Ownership.founder_at (apply s (Event.account_dropped "alice")).channels "#rust"
    ≡ Ownership.founder_at s.channels "#rust"
unfolding scope
apply-founder_example =
    Ownership.apply-founder (replay empty_state (Event.channel_registered "#rust" "alice" 1 ∷ []))
      (Event.account_dropped "alice") "#rust" refl

account_dropped_erases_example :
    let s =
      replay empty_state (Event.account_registered here ∷ Event.nick_grouped "ali" "alice" ∷ []) in
    let after = apply s (Event.account_dropped "ALICE") in
    (HashMap.get after.accounts (Updates.key "ALICE") ≡ none)
    × (any (λ (e : String × String). eq_ignore_ascii_case e.1 "ALICE") after.grouped ≡ false)
    × (any (λ (e : String × ChannelInfo). Erasure.names_in_channel "ALICE" e.1) after.channels
        ≡ false)
    × (any (Erasure.names_in_group "ALICE") after.net.groups ≡ false)
    × ((k : String) → Ownership.founder_at after.channels k ≡ Ownership.founder_at s.channels k)
    × (after.net.opers ≡ s.net.opers)
account_dropped_erases_example =
    Erasure.account_dropped_erases
      (replay empty_state (Event.account_registered here ∷ Event.nick_grouped "ali" "alice" ∷ []))
      "ALICE"

other_name : eq_ignore_ascii_case "alice" "bob" ≡ false
unfolding to_ascii_lowercase
other_name = refl

account_dropped_keeps_example :
    let s = replay empty_state (Event.account_registered (claim "bob" 9 "hub") ∷ []) in
    let after = apply s (Event.account_dropped "alice") in
    (HashMap.get after.accounts (Updates.key "bob") ≡ HashMap.get s.accounts (Updates.key "bob"))
    × ((k : String) → Erasure.access_of after k "bob" ≡ Erasure.access_of s k "bob")
account_dropped_keeps_example =
    Erasure.account_dropped_keeps
      (replay empty_state (Event.account_registered (claim "bob" 9 "hub") ∷ [])) "alice" "bob"
      other_name

abbrev fresh : EventLog
fresh = open_log "node" []

no_cursor : (e s : ℕ) → HashMap.get fresh.versions "hub" ≡ some (e, s) → s < u64_max
unfolding open_log Log.absorb_all HashMap.get
no_cursor e s h = ground arith

remote_taken : (Log.ingest small_disk fresh remote).1 ≡ ok (some remote.event)
unfolding Log.ingest open_log Log.absorb_all HashMap.get scope Log.accepts
remote_taken = refl

ingest_again_example :
    Log.ingest small_disk (Log.ingest small_disk fresh remote).0 remote
    ≡ ((Log.ingest small_disk fresh remote).0, ok none)
ingest_again_example =
    Gossip.ingest_again small_disk small_disk fresh remote remote.event no_cursor remote_taken

unnumbered : Recovery.Fits fresh
unfolding open_log Log.absorb_all HashMap.get
unnumbered o c h = ground arith

numbered : Recovery.Fits (Log.step small_disk fresh (Log.appends remote.event))
unfolding open_log Log.absorb_all HashMap.get HashMap.insert Log.step Log.append scope Log.next_seq
    Log.notify
numbered o (e, s) h = ground arith

renumbered : Recovery.Fits (
    Log.step small_disk
      (Log.step small_disk fresh (Log.appends remote.event))
      (Log.compacts (remote.event ∷ [])))
unfolding open_log Log.absorb_all HashMap.get HashMap.insert Log.step Log.append scope Log.next_seq
    Log.notify Log.compact Log.snapshot
renumbered o (e, s) h = ground arith

log_calls-AreCalls : History.AreCalls small_disk fresh log_calls
log_calls-AreCalls = (unnumbered, tt, (numbered, omega arith, (renumbered, tt, tt)))

open_log-run_example :
    let log = Log.run small_disk (open_log "node" []) log_calls in
    let again = open_log log.origin log.file in
    (again.entries ≡ log.entries)
    × (again.epoch ≡ log.epoch)
    × (Log.next_seq again ≡ Log.next_seq log)
    × ((o : String) → HashMap.get again.versions o ≡ HashMap.get log.versions o)
    × (again.lamport ≤ log.lamport)
open_log-run_example = History.open_log-run small_disk "node" [] log_calls tt log_calls-AreCalls
