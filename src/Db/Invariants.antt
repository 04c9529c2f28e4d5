-- ===== src/Db/Invariants.antt =====
-- An invariant that every traced call keeps is kept by a whole run (src/engine/db/channel.rs,
-- src/engine/db/mod.rs).
use echo_services.Prelude.{
  String, Bool, Option, none, some, List, [], ◌∷◌, ◌≡◌, refl, Result, ok, err, if_rule, option_rule,
  inl, inr, arith,
}
use echo_services.HashMap
use echo_services.Data.{State, ChannelInfo}
use echo_services.Event.{Event, scope, global}
use echo_services.Fold.{apply}
use echo_services.Fold.Updates.{key}
use echo_services.Log
use echo_services.Log.{EventLog, LogEntry, IoError}
use echo_services.Log.Growth.{Taken, ingest-Taken}
use echo_services.Db.{Db, World, ChanError, internal, commit, edit_channel}
use echo_services.Db.Calls
use echo_services.Db.Calls.{ChanCall, call, report}
use echo_services.Db.ChannelConfig.{ChanSetting, set_channel_setting, bot_greet, no_bot}
use echo_services.Db.Ingest
use echo_services.Db.Patterns.{copy_bot_config, and_then, write_badwords}
use echo_services.Db.Registry.{
  release_founded_channels, release_channels, release_channel, set_founder, set_successor,
  drop_channel, is_ok, released, valid_successor, channels_owned_by,
}
use echo_services.Db.Bans.{RegError}
use echo_services.Db.Accounts.{account_call}
use echo_services.Db.AccountTracing.{account_call-Traced}
use echo_services.Db.Groups.{group_call}
use echo_services.Db.GroupTracing.{group_call-Traced}
use echo_services.Db.Members.{CertError}
use echo_services.Db.MemberCalls.{member_call, cert_call}
use echo_services.Db.MemberTracing.{cert_call-Traced}
use echo_services.Db.HostTracing.{member_call-Traced}
use echo_services.Db.NetCalls.{net_call}
use echo_services.Db.NetTracing.{net_call-Traced}
use echo_services.Db.Runs.{
  Step, calls, changes, enrols, certifies, assembles, settles, copies, releases, ingests, step, run,
}
use echo_services.Db.Traced.{Traced, Admits, commit-Traced}
use echo_services.Db.Tracing.{call-Traced, write_badwords-Traced}

-- An event of another node makes no list of a channel grow.
Admits-global : (s : State) (e : Event) → scope e ≡ global → Admits s e
unfolding scope
Admits-global s (Event.channel_access_add channel account level) h = λ c q. ground arith
Admits-global s (Event.channel_akick_add channel mask reason) h = λ c q. ground arith
Admits-global s _ h = tt

ingest-Traced :
    (w : World) (db : Db) (entry : LogEntry)
    → Traced {E = ChanError} db ((Ingest.ingest w db entry).0, none)
unfolding Ingest.ingest
ingest-Traced w db entry = go (Log.ingest w.disk db.log entry) (ingest-Taken w.disk db.log entry)
  where
    go :
        (r : EventLog × Result (Option Event) IoError)
        → Taken db.log entry r
        → Traced {E = ChanError} db ((Ingest.ingested w db entry r).0, none)
    go (log, ok none) u = inr (record { log = u; state = refl })
    go (log, ok (some event)) g = inl (record {
      event = event;
      admitted = Admits-global db.state event g.1;
      log = g.0;
      state = refl;
    })
    go (log, err e) u = inr (record { log = u; state = refl })

fst-released :
    (channel : String) (o : Option String) (r : Db × List (String × String) × List String)
    → (released channel o r).0 ≡ r.0
fst-released channel none r = refl
fst-released channel (some s) r = refl

module _ (I : Db → Type 0)
    (traced : (E : Type 0) (db : Db) (r : Db × Option E) → Traced db r → I db → I r.0) where
  -- The invariant holds of the store that a call leaves.
  abbrev Leaves : {T : Type 0} → Db × Result T ChanError → Type 0
  Leaves r = I r.0

  Traced-Leaves :
      {T : Type 0} (db : Db) (r : Db × Result T ChanError) → Traced db (report r) → I db → Leaves r
  Traced-Leaves db (db', ok v) t s = traced ChanError db (db', none) t s
  Traced-Leaves db (db', err e) t s = traced ChanError db (db', some e) t s

  and_then_keeps :
      {T U : Type 0} (r : Db × Result T ChanError) (next : Db → Db × Result U ChanError)
      → Leaves r
      → ((db : Db) → I db → Leaves (next db))
      → Leaves (and_then r next)
  unfolding and_then
  and_then_keeps (db, ok _) next s k = k db s
  and_then_keeps (db, err e) next s k = s

  setting_keeps :
      (w : World) (db : Db) (channel : String) (setting : ChanSetting) (on : Bool)
      → I db
      → Leaves (set_channel_setting w db channel setting on)
  unfolding call
  setting_keeps w db channel setting on s =
      Traced-Leaves db (set_channel_setting w db channel setting on)
        (call-Traced w db (Calls.set_setting channel setting on)) s

  copy_bot_config_keeps :
      (w : World) (db : Db) (src dst : String) → I db → Leaves (copy_bot_config w db src dst)
  unfolding copy_bot_config apply
  copy_bot_config_keeps w db src dst i =
      option_rule Leaves (HashMap.get db.state.channels (key src)) (λ _. i)
        λ s h.
          if_rule Leaves (HashMap.contains_key db.state.channels (key dst))
            (λ _.
              let last : Db → Db × Result (Unit {0}) ChanError =
                λ d. set_channel_setting w d dst no_bot s.settings.nobot in
              let third : Db → Db × Result (Unit {0}) ChanError =
                λ d. and_then (set_channel_setting w d dst bot_greet s.settings.bot_greet) last in
              let second : Db → Db × Result (Unit {0}) ChanError =
                λ d. and_then (write_badwords w d dst s.badwords tt) third in
              let first : Db × Result (Unit {0}) ChanError =
                commit w db (Event.channel_kicker_set dst s.kickers) internal
                  (edit_channel (key dst) (λ (c : ChannelInfo). record c { kickers = s.kickers }))
                  tt in
              and_then_keeps first second
                (Traced-Leaves db first
                  (commit-Traced w db (Event.channel_kicker_set dst s.kickers) internal
                    (edit_channel (key dst) (λ (c : ChannelInfo). record c { kickers = s.kickers }))
                    tt tt refl)
                  i)
                λ d₁ i₁.
                  and_then_keeps (write_badwords w d₁ dst s.badwords tt) third
                    (Traced-Leaves d₁ (write_badwords w d₁ dst s.badwords tt)
                      (write_badwords-Traced w d₁ dst s.badwords tt) i₁)
                    λ d₂ i₂.
                      and_then_keeps (set_channel_setting w d₂ dst bot_greet s.settings.bot_greet)
                        last (setting_keeps w d₂ dst bot_greet s.settings.bot_greet i₂)
                        λ d₃ i₃. setting_keeps w d₃ dst no_bot s.settings.nobot i₃)
            λ _. i

  founder_keeps :
      (w : World) (db : Db) (channel account : String)
      → I db
      → Leaves (set_founder w db channel account)
  unfolding call
  founder_keeps w db channel account s =
      Traced-Leaves db (set_founder w db channel account)
        (call-Traced w db (Calls.found channel account)) s

  successor_keeps :
      (w : World) (db : Db) (channel : String) (successor : Option String)
      → I db
      → Leaves (set_successor w db channel successor)
  unfolding call
  successor_keeps w db channel successor s =
      Traced-Leaves db (set_successor w db channel successor)
        (call-Traced w db (Calls.succeed channel successor)) s

  drop_keeps : (w : World) (db : Db) (channel : String) → I db → Leaves (drop_channel w db channel)
  unfolding call
  drop_keeps w db channel s =
      Traced-Leaves db (drop_channel w db channel) (call-Traced w db (Calls.drop channel)) s

  release_channel_keeps :
      (w : World) (db : Db) (account channel : String)
      → I db
      → I (release_channel w db account channel).0
  unfolding release_channel
  release_channel_keeps w db account channel s =
      option_rule (λ (r : Db × Option String). I r.0) (valid_successor db account channel)
        (λ _. drop_keeps w db channel s)
        λ successor _.
          if_rule (λ (r : Db × Option String). I r.0) (is_ok (set_founder w db channel successor).1)
            (λ _.
              successor_keeps w (set_founder w db channel successor).0 channel none
                (founder_keeps w db channel successor s))
            λ _.
              drop_keeps w (set_founder w db channel successor).0 channel
                (founder_keeps w db channel successor s)

  release_channels_keeps :
      (w : World) (db : Db) (account : String) (channels : List String)
      → I db
      → I (release_channels w db account channels).0
  unfolding release_channels
  release_channels_keeps w db account [] s = s
  release_channels_keeps w db account (channel ∷ channels) s =
      rw
        (fst-released channel (release_channel w db account channel).1
          (release_channels w (release_channel w db account channel).0 account channels))
        (release_channels_keeps w (release_channel w db account channel).0 account channels
          (release_channel_keeps w db account channel s))

  step_keeps : (db : Db) (s : Step) → I db → I (step db s)
  unfolding step release_founded_channels
  step_keeps db (calls w c) h = traced ChanError db (call w db c) (call-Traced w db c) h
  step_keeps db (changes w c) h = traced RegError db (net_call w db c) (net_call-Traced w db c) h
  step_keeps db (enrols w c) h =
      traced RegError db (member_call w db c) (member_call-Traced w db c) h
  step_keeps db (certifies w c) h =
      traced CertError db (cert_call w db c) (cert_call-Traced w db c) h
  step_keeps db (assembles w c) h =
      traced ChanError db (group_call w db c) (group_call-Traced w db c) h
  step_keeps db (settles w account c) h =
      traced RegError db (account_call w db account c) (account_call-Traced w db account c) h
  step_keeps db (copies w src dst) h = copy_bot_config_keeps w db src dst h
  step_keeps db (releases w account) h =
      release_channels_keeps w db account (channels_owned_by db account) h
  step_keeps db (ingests w entry) h =
      traced ChanError db ((Ingest.ingest w db entry).0, none) (ingest-Traced w db entry) h

  -- What every traced call keeps, a run keeps.
  pub run_keeps : (db : Db) (ss : List Step) → I db → I (run db ss)
  unfolding run
  run_keeps db [] h = h
  run_keeps db (s ∷ ss) h = run_keeps (step db s) ss (step_keeps db s h)
