-- ===== src/Db/MemberTracing.antt =====
-- The calls on certificates, and some of `MemberCall`, are traced by the log (src/engine/db/account.rs).
use echo_services.Prelude.{
  String, Bool, true, false, Option, none, some, [], ◌∷◌, ◌≡◌, refl, ap, ◌||◌, ◌==◌, if_rule,
  option_rule, is_some, option_map, any, push, leb, length, arith, Result, to_ascii_lowercase,
  to_ascii_lowercase_idem,
}
use echo_services.HashMap
use echo_services.HashMap.{HashMap}
use echo_services.Data.{Account}
use echo_services.Event.{Event}
use echo_services.Fold.{apply}
use echo_services.Fold.Updates
use echo_services.Fold.Updates.{key, register_account}
use echo_services.Db.{Db, World, resolved_key, account_exists}
use echo_services.Db.Accounts.{put_account, edit_account}
use echo_services.Db.Bans.{RegError}
use echo_services.Db.Calls.{report}
use echo_services.Db.GroupTracing.{any-find}
use echo_services.Db.Members
use echo_services.Db.Members.{CertError, has_cert, certfp_owner}
use echo_services.Db.MemberCalls
use echo_services.Db.MemberCalls.{MemberCall, member_call, CertCall, cert_call}
use echo_services.Db.Traced.{Traced, Admits, commit-Traced, fails, skips}

abbrev Ends : {E T : Type 0} → Db → Db × Result T E → Type 0
Ends db r = Traced db (report r)

-- A name that no account and no group of nicks goes by is registered as the fold registers it.
register-new :
    (db : Db) (a : Account)
    → account_exists db a.name ≡ false
    → HashMap.insert db.state.accounts (key a.name) a ≡ register_account a db.state.accounts
unfolding account_exists resolved_key register_account
register-new db a h = ground (arith, h)

pub register-Traced :
    (w : World) (cfg : Members.Session) (db : Db) (name : String) (creds : Members.Credentials)
    (email : Option String)
    → Ends db (Members.register_prepared w cfg db name creds email)
unfolding Members.register_prepared apply
register-Traced w cfg db name creds email =
    if_rule (Ends db) (account_exists db name) (λ _. fails db RegError.exists)
      (λ new.
        commit-Traced w db (Event.account_registered _) RegError.internal _ tt tt
          (ap (λ m. record (db.state) { accounts = m }) (register-new db _ new)))

pub provision-Traced :
    (w : World) (db : Db) (name scram256 scram512 : String) (email : Option String)
    → Ends db (Members.provision_account w db name scram256 scram512 email)
unfolding Members.provision_account apply
provision-Traced w db name scram256 scram512 email =
    if_rule (Ends db) (name == "" || scram256 == "") (λ _. fails db RegError.internal)
      (λ _.
        if_rule (Ends db) (account_exists db name)
          (λ _.
            commit-Traced w db (Event.account_password_set name scram256 scram512) RegError.internal
              _ tt tt refl)
          (λ new.
            commit-Traced w db (Event.account_registered _) RegError.internal _ tt tt
              (ap (λ m. record (db.state) { accounts = m }) (register-new db _ new))))

pub put-Traced :
    (w : World) (db : Db) (account : String) (event : Event) (f : Account → Account)
    → Admits db.state event
    → edit_account (key account) f db.state ≡ apply db.state event
    → Ends db (put_account w db account event f)
unfolding put_account
put-Traced w db account event f a h =
    if_rule (Ends db) (HashMap.contains_key db.state.accounts (key account))
      (λ _. commit-Traced w db event RegError.internal (edit_account (key account) f) tt a h)
      (λ _. fails db RegError.internal)

pub pubkey-Traced :
    (validate : String → Option String) (w : World) (db : Db) (account : String)
    (pubkey : Option String)
    → Ends db (Members.set_pubkey validate w db account pubkey)
unfolding Members.set_pubkey apply
pubkey-Traced validate w db account none =
    if_rule (Ends db) (HashMap.contains_key db.state.accounts (key account))
      (λ _. put-Traced w db account (Event.account_pubkey_set account none) _ tt refl)
      (λ _. fails db RegError.internal)
pubkey-Traced validate w db account (some raw) =
    if_rule (Ends db) (HashMap.contains_key db.state.accounts (key account))
      (λ _.
        option_rule (Ends db) (validate raw) (λ _. fails db RegError.invalid)
          (λ valid _.
            put-Traced w db account (Event.account_pubkey_set account (some valid)) _ tt refl))
      (λ _. fails db RegError.internal)

-- An edit that does the same to every value does the same to the map.
modify-congr :
    {V : Type 0} (p : V → Bool) (f g : V → V) (m : HashMap V) (k : String)
    → any p (HashMap.values m) ≡ false
    → ((v : V) → p v ≡ false → f v ≡ g v)
    → HashMap.modify m k f ≡ HashMap.modify m k g
unfolding any HashMap.values HashMap.modify
modify-congr p f g [] k h same = refl
modify-congr p f g ((j, v) ∷ m) k h same = ground (arith, h, same v, modify-congr p f g m k)

cert-new :
    (fp : String) (a : Account)
    → has_cert fp a ≡ false
    → record a { certfps = push a.certfps fp } ≡ Updates.add_cert fp a
unfolding Updates.add_cert
cert-new fp a h = rw h refl

fp_lower :
    (db : Db) (fp : String)
    → is_some (certfp_owner db (to_ascii_lowercase fp)) ≡ false
    → any (has_cert (to_ascii_lowercase fp)) (HashMap.values db.state.accounts) ≡ false
unfolding certfp_owner
fp_lower db fp h =
    any-find (has_cert (to_ascii_lowercase fp)) (HashMap.values db.state.accounts)
      (mapped _ _ (rw (to_ascii_lowercase_idem fp) at h))
  where
    mapped :
        (f : Account → String) (o : Option Account)
        → is_some (option_map f o) ≡ false
        → is_some o ≡ false
    mapped f none h = refl
    mapped f (some a) h = h

certfp_add-Traced :
    (w : World) (db : Db) (account raw : String) → Ends db (Members.certfp_add w db account raw)
unfolding Members.certfp_add apply
certfp_add-Traced w db account raw =
    if_rule (Ends db) (Members.valid_fp (to_ascii_lowercase raw))
      (λ _.
        if_rule (Ends db) (is_some (certfp_owner db (to_ascii_lowercase raw)))
          (λ _. fails db CertError.in_use)
          (λ new.
            option_rule (Ends db) (HashMap.get db.state.accounts (key account))
              (λ _. fails db CertError.no_account)
              (λ a0 _.
                if_rule (Ends db) (leb Members.max_certfp (length a0.certfps))
                  (λ _. fails db CertError.full)
                  (λ _.
                    commit-Traced w db (Event.cert_added account (to_ascii_lowercase raw))
                      CertError.internal _ tt tt
                      (ap (λ m. record (db.state) { accounts = m })
                        (modify-congr (has_cert (to_ascii_lowercase raw)) _ _ db.state.accounts
                          (key account) (fp_lower db raw new)
                          (λ a. cert-new (to_ascii_lowercase raw) a)))))))
      (λ _. fails db CertError.invalid)

certfp_del-Traced :
    (w : World) (db : Db) (account raw : String) → Ends db (Members.certfp_del w db account raw)
unfolding Members.certfp_del apply
certfp_del-Traced w db account raw =
    option_rule (Ends db) (HashMap.get db.state.accounts (key account))
      (λ _. fails db CertError.no_account)
      (λ a0 _.
        if_rule (Ends db) (has_cert (to_ascii_lowercase raw) a0)
          (λ _.
            commit-Traced w db (Event.cert_removed account (to_ascii_lowercase raw))
              CertError.internal _ true tt refl)
          (λ _. skips CertError db))

-- Every call that adds or removes a certificate either fails, and then writes nothing and leaves the
-- store as it was, or succeeds; then it does so too (the account had no such certificate), or it
-- writes one event, in memory and on file, and changes the store in the way that replaying that event
-- does.
pub cert_call-Traced : (w : World) (db : Db) (c : CertCall) → Traced db (cert_call w db c)
unfolding cert_call
cert_call-Traced w db (MemberCalls.add account fp) = certfp_add-Traced w db account fp
cert_call-Traced w db (MemberCalls.delete account fp) = certfp_del-Traced w db account fp
