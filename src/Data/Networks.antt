-- ===== src/Data/Networks.antt =====
-- The network-wide lists and the state that the event log rebuilds (src/engine/db/mod.rs).
use echo_services.Prelude.{ℕ, String, Bool, Option, none, List, []}
use echo_services.HashMap.{HashMap}
use echo_services.Data.Accounts.{Account}
use echo_services.Data.Channels.{ChannelInfo, Bot}

pub record Akill : Type 0 where
  pub kind : String
  pub mask : String
  pub setter : String
  pub reason : String
  pub ts : ℕ
  pub expires : Option ℕ

pub record Filter : Type 0 where
  pub pattern : String
  pub action : String
  pub flags : String
  pub reason : String
  pub setter : String
  pub ts : ℕ
  pub expires : Option ℕ

pub record Forbid : Type 0 where
  pub kind : String
  pub mask : String
  pub setter : String
  pub reason : String
  pub ts : ℕ

pub record Notify : Type 0 where
  pub mask : String
  pub flags : String
  pub reason : String
  pub setter : String
  pub ts : ℕ
  pub expires : Option ℕ

pub record News : Type 0 where
  pub id : ℕ
  pub kind : String
  pub text : String
  pub setter : String
  pub ts : ℕ

pub record HelpTicket : Type 0 where
  pub id : ℕ
  pub requester : String
  pub message : String
  pub ts : ℕ
  pub handler : Option String
  pub is_open : Bool

pub record GroupMember : Type 0 where
  pub account : String
  pub flags : String

pub record Group : Type 0 where
  pub name : String
  pub founder : String
  pub ts : ℕ
  pub home : String
  pub members : List GroupMember

pub record Report : Type 0 where
  pub id : ℕ
  pub reporter : String
  pub target : String
  pub reason : String
  pub ts : ℕ
  pub is_open : Bool

pub record SessionException : Type 0 where
  pub mask : String
  pub limit : ℕ
  pub reason : String

pub record OperGrant : Type 0 where
  pub privs : List String
  pub expires : Option ℕ

pub record Jupe : Type 0 where
  pub name : String
  pub sid : String
  pub reason : String

-- Persisted per-channel activity: the channel, its lines, the top talkers.
abbrev pub ChanStats : Type 0
ChanStats = List (String × ℕ × List (String × ℕ))

pub record NetData : Type 0 where
  pub akills : List Akill
  pub filters : List Filter
  pub forbids : List Forbid
  pub notifies : List Notify
  pub news : List News
  pub news_seq : ℕ
  pub reports : List Report
  pub report_seq : ℕ
  pub groups : List Group
  pub help : List HelpTicket
  pub help_seq : ℕ
  pub opers : HashMap OperGrant
  pub sess_exceptions : List SessionException
  pub jupes : List Jupe
  pub jupe_seq : ℕ
  pub default_bot : Option String
  pub stats : HashMap ℕ
  pub chan_stats : ChanStats
  pub incidents : List (String × ℕ × String)
  pub incident_seq : ℕ

-- `NetData::default()`
abbrev pub default_net : NetData
default_net = record {
  akills = [];
  filters = [];
  forbids = [];
  notifies = [];
  news = [];
  news_seq = 0;
  reports = [];
  report_seq = 0;
  groups = [];
  help = [];
  help_seq = 0;
  opers = [];
  sess_exceptions = [];
  jupes = [];
  jupe_seq = 0;
  default_bot = none;
  stats = [];
  chan_stats = [];
  incidents = [];
  incident_seq = 0;
}

pub record HostConfig : Type 0 where
  pub offers : List String
  pub forbidden : List String
  pub template : Option String

-- `HostConfig::default()`
abbrev pub default_host_cfg : HostConfig
default_host_cfg = record { offers = []; forbidden = []; template = none }

-- The six maps and records that `apply` folds events into: these fields of `Db`.
pub record State : Type 0 where
  pub accounts : HashMap Account
  pub channels : HashMap ChannelInfo
  pub grouped : HashMap String
  pub bots : HashMap Bot
  pub host_cfg : HostConfig
  pub net : NetData

-- What `Db::open` starts from.
abbrev pub empty_state : State
empty_state = record {
  accounts = [];
  channels = [];
  grouped = [];
  bots = [];
  host_cfg = default_host_cfg;
  net = default_net;
}
