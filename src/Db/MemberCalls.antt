-- ===== src/Db/MemberCalls.antt =====
-- The calls on accounts, certificates and vhosts, as data (src/engine/db/account.rs).
use echo_services.Prelude.{ℕ, String, Bool, Option}
use echo_services.Db.{Db, World}
use echo_services.Db.Bans.{RegError}
use echo_services.Db.Calls.{report}
use echo_services.Db.Hosts
use echo_services.Db.Members
use echo_services.Db.Members.{Credentials, Session, CertError}

pub data MemberCall : Type 0 where
  register : Session → String → Credentials → Option String → MemberCall
  provision : String → String → String → Option String → MemberCall
  set_pubkey : (String → Option String) → String → Option String → MemberCall
  drop : String → MemberCall
  join : String → String → String → MemberCall
  part : String → String → MemberCall
  give_vhost : String → String → String → Option ℕ → MemberCall
  take_vhost take_request offer forbid : String → MemberCall
  unoffer unforbid : ℕ → MemberCall
  template : Option String → MemberCall
  pin : String → Bool → MemberCall

unfoldable pub member_call : World → Db → MemberCall → Db × Option RegError
member_call w db (register cfg name creds email) =
    report (Members.register_prepared w cfg db name creds email)
member_call w db (provision name scram256 scram512 email) =
    report (Members.provision_account w db name scram256 scram512 email)
member_call w db (set_pubkey validate account pubkey) =
    report (Members.set_pubkey validate w db account pubkey)
member_call w db (drop account) = report (Members.drop_account w db account)
member_call w db (join account channel join_key) =
    report (Members.ajoin_add w db account channel join_key)
member_call w db (part account channel) = report (Members.ajoin_del w db account channel)
member_call w db (give_vhost account host setter ttl) =
    report (Hosts.set_vhost w db account host setter ttl)
member_call w db (take_vhost account) = report (Hosts.del_vhost w db account)
member_call w db (take_request account) = report (Hosts.take_vhost_request w db account)
member_call w db (offer host) = report (Hosts.vhost_offer_add w db host)
member_call w db (forbid pattern) = report (Hosts.vhost_forbid_add w db pattern)
member_call w db (unoffer index) = report (Hosts.vhost_offer_del w db index)
member_call w db (unforbid index) = report (Hosts.vhost_forbid_del w db index)
member_call w db (template t) = report (Hosts.set_vhost_template w db t)
member_call w db (pin account on) = report (Hosts.set_account_noexpire w db account on)

pub data CertCall : Type 0 where
  add delete : String → String → CertCall

unfoldable pub cert_call : World → Db → CertCall → Db × Option CertError
cert_call w db (add account fp) = report (Members.certfp_add w db account fp)
cert_call w db (delete account fp) = report (Members.certfp_del w db account fp)
