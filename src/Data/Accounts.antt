-- ===== src/Data/Accounts.antt =====
-- An account and the records that it holds (src/engine/db/mod.rs).
use echo_services.Prelude.{ℕ, String, Bool, Option, List}

pub record PendingVhost : Type 0 where
  pub host : String
  pub ts : ℕ

pub record Vhost : Type 0 where
  pub host : String
  pub setter : String
  pub ts : ℕ
  pub expires : Option ℕ

pub record Profile : Type 0 where
  pub avatar : Option String
  pub bio : Option String
  pub pronouns : Option String
  pub timezone : Option String
  pub url : Option String

pub record Suspension : Type 0 where
  pub by : String
  pub reason : String
  pub ts : ℕ
  pub expires : Option ℕ

pub record Memo : Type 0 where
  pub from : String
  pub text : String
  pub ts : ℕ
  pub read : Bool
  pub receipt : Bool

pub record AjoinEntry : Type 0 where
  pub channel : String
  pub key : String

pub record Account : Type 0 where
  pub name : String
  pub email : Option String
  pub ts : ℕ
  pub home : String
  pub scram256 : Option String
  pub scram512 : Option String
  pub certfps : List String
  pub pubkey : Option String
  pub verified : Bool
  pub ajoin : List AjoinEntry
  pub suspension : Option Suspension
  pub memos : List Memo
  pub memo_ignore : List String
  pub memo_notify : Bool
  pub memo_limit : Option ℕ
  pub greet : String
  pub no_autoop : Bool
  pub no_protect : Bool
  pub hide_status : Bool
  pub snotice : Bool
  pub language : Option String
  pub profile : Profile
  pub vhost : Option Vhost
  pub vhost_request : Option PendingVhost
  pub last_seen : ℕ
  pub noexpire : Bool
  pub expiry_warned : Bool
  pub oper_note : Option String
  pub swhois : Option String
  pub signore : List String
