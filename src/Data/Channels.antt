-- ===== src/Data/Channels.antt =====
-- A registered channel, its settings and the service bots (src/engine/db/mod.rs).
use echo_services.Prelude.{ℕ, String, Char, Bool, false, Option, none, List, []}
use echo_services.Data.Accounts.{Suspension}

pub record ChanAccess : Type 0 where
  pub account : String
  pub level : String

pub record ChanAkick : Type 0 where
  pub mask : String
  pub reason : String

pub record ChanSettings : Type 0 where
  pub signkick : Bool
  pub signkick_level : Bool
  pub private : Bool
  pub peace : Bool
  pub secureops : Bool
  pub securevoices : Bool
  pub restricted : Bool
  pub noautoop : Bool
  pub keeptopic : Bool
  pub topiclock : Bool
  pub bot_greet : Bool
  pub nobot : Bool

-- `ChanSettings::default()`
abbrev pub default_settings : ChanSettings
default_settings = record {
  signkick = false;
  signkick_level = false;
  private = false;
  peace = false;
  secureops = false;
  securevoices = false;
  restricted = false;
  noautoop = false;
  keeptopic = false;
  topiclock = false;
  bot_greet = false;
  nobot = false;
}

pub record Trigger : Type 0 where
  pub pattern : String
  pub response : String
  pub cooldown : ℕ

pub record KickerSettings : Type 0 where
  pub caps : Bool
  pub caps_min : ℕ
  pub caps_percent : ℕ
  pub bolds : Bool
  pub colors : Bool
  pub underlines : Bool
  pub reverses : Bool
  pub italics : Bool
  pub flood : Bool
  pub flood_lines : ℕ
  pub flood_secs : ℕ
  pub repeat : Bool
  pub repeat_times : ℕ
  pub badwords : Bool
  pub ttb : ℕ
  pub ban_expire : ℕ
  pub warn : Bool
  pub votekick : ℕ
  pub dontkickops : Bool
  pub dontkickvoices : Bool

-- `KickerSettings::default()`
abbrev pub default_kickers : KickerSettings
default_kickers = record {
  caps = false;
  caps_min = 0;
  caps_percent = 0;
  bolds = false;
  colors = false;
  underlines = false;
  reverses = false;
  italics = false;
  flood = false;
  flood_lines = 0;
  flood_secs = 0;
  repeat = false;
  repeat_times = 0;
  badwords = false;
  ttb = 0;
  ban_expire = 0;
  warn = false;
  votekick = 0;
  dontkickops = false;
  dontkickvoices = false;
}

pub record ChannelInfo : Type 0 where
  pub name : String
  pub founder : String
  pub ts : ℕ
  pub lock_on : String
  pub lock_off : String
  pub lock_params : List (Char × String)
  pub access : List ChanAccess
  pub akick : List ChanAkick
  pub levels : List (String × String)
  pub successor : Option String
  pub desc : String
  pub entrymsg : String
  pub url : String
  pub email : String
  pub settings : ChanSettings
  pub topic : String
  pub topic_setter : String
  pub suspension : Option Suspension
  pub assigned_bot : Option String
  pub kickers : KickerSettings
  pub badwords : List String
  pub badwords_rev : ℕ
  pub triggers : List Trigger
  pub triggers_rev : ℕ
  pub last_used : ℕ
  pub noexpire : Bool
  pub expiry_warned : Bool
  pub oper_note : Option String

-- The channel that a fresh registration stores.
unfoldable pub new_channel : String → String → ℕ → ChannelInfo
new_channel name founder ts = record {
  name = name;
  founder = founder;
  ts = ts;
  lock_on = "";
  lock_off = "";
  lock_params = [];
  access = [];
  akick = [];
  levels = [];
  successor = none;
  desc = "";
  entrymsg = "";
  url = "";
  email = "";
  settings = default_settings;
  topic = "";
  topic_setter = "";
  suspension = none;
  assigned_bot = none;
  kickers = default_kickers;
  badwords = [];
  badwords_rev = 0;
  triggers = [];
  triggers_rev = 0;
  last_used = ts;
  noexpire = false;
  expiry_warned = false;
  oper_note = none;
}

pub record Bot : Type 0 where
  pub nick : String
  pub user : String
  pub host : String
  pub gecos : String
  pub private : Bool
