-- ===== src/Event.antt =====
-- The events of the log (src/engine/db/event.rs), and which of them replicate.
use echo_services.Prelude.{ℕ, String, Char, Bool, Option, List}
use echo_services.Data.{Account, Bot, ChanSettings, KickerSettings, Trigger, ChanStats}

pub data Event : Type 0 where
  account_registered : Account → Event
  cert_added : (account fp : String) → Event
  cert_removed : (account fp : String) → Event
  account_email_set : (account : String) (email : Option String) → Event
  account_greet_set : (account greet : String) → Event
  account_language_set : (account : String) (language : Option String) → Event
  account_swhois_set : (account : String) (text : Option String) → Event
  account_signore_set : (account : String) (list : List String) → Event
  account_pubkey_set : (account : String) (pubkey : Option String) → Event
  account_profile_set : (account field : String) (value : Option String) → Event
  account_auto_op_set : (account : String) (on : Bool) → Event
  account_kill_set : (account : String) (on : Bool) → Event
  account_hide_status_set : (account : String) (on : Bool) → Event
  account_snotice_set : (account : String) (on : Bool) → Event
  account_password_set : (account scram256 scram512 : String) → Event
  account_dropped : (account : String) → Event
  account_verified : (account : String) → Event
  ajoin_added : (account channel key : String) → Event
  ajoin_removed : (account channel : String) → Event
  vhost_set : (account host setter : String) (ts : ℕ) (expires : Option ℕ) → Event
  vhost_deleted : (account : String) → Event
  vhost_requested : (account host : String) (ts : ℕ) → Event
  vhost_request_cleared : (account : String) → Event
  account_suspended : (account by reason : String) (ts : ℕ) (expires : Option ℕ) → Event
  account_unsuspended : (account : String) → Event
  memo_sent : (account from text : String) (ts : ℕ) (receipt : Bool) → Event
  memo_read : (account : String) (index : ℕ) → Event
  memo_deleted : (account : String) (index : ℕ) → Event
  memo_ignore_add : (account target : String) → Event
  memo_ignore_del : (account target : String) → Event
  memo_prefs_set : (account : String) (notify : Bool) (limit : Option ℕ) → Event
  nick_grouped : (nick account : String) → Event
  nick_ungrouped : (nick : String) → Event
  channel_registered : (name founder : String) (ts : ℕ) → Event
  channel_dropped : (name : String) → Event
  channel_renamed : (old new : String) → Event
  channel_mlock : (name on off : String) (params : List (Char × String)) → Event
  channel_access_add : (channel account level : String) → Event
  channel_access_del : (channel account : String) → Event
  channel_akick_add : (channel mask reason : String) → Event
  channel_akick_del : (channel mask : String) → Event
  channel_level_set : (channel cap role : String) → Event
  channel_level_reset : (channel cap : String) → Event
  channel_founder_set : (channel founder : String) → Event
  channel_successor_set : (channel : String) (successor : Option String) → Event
  channel_desc_set : (channel desc : String) → Event
  channel_entry_msg_set : (channel msg : String) → Event
  channel_url_set : (channel url : String) → Event
  channel_email_set : (channel email : String) → Event
  channel_settings_set : (channel : String) (settings : ChanSettings) → Event
  channel_kicker_set : (channel : String) (kickers : KickerSettings) → Event
  channel_badwords_set : (channel : String) (badwords : List String) → Event
  channel_triggers_set : (channel : String) (triggers : List Trigger) → Event
  channel_topic_set : (channel topic setter : String) → Event
  channel_suspended : (channel by reason : String) (ts : ℕ) (expires : Option ℕ) → Event
  channel_unsuspended : (channel : String) → Event
  channel_bot_assigned : (channel bot : String) → Event
  channel_bot_unassigned : (channel : String) → Event
  bot_added : Bot → Event
  bot_removed : (nick : String) → Event
  default_bot_set : (bot : Option String) → Event
  vhost_offer_added : (host : String) → Event
  vhost_offer_removed : (host : String) → Event
  vhost_forbid_added : (pattern : String) → Event
  vhost_forbid_removed : (pattern : String) → Event
  vhost_template_set : (template : Option String) → Event
  account_seen : (account : String) (ts : ℕ) → Event
  channel_used : (channel : String) (ts : ℕ) → Event
  account_no_expire : (account : String) (on : Bool) → Event
  channel_no_expire : (channel : String) (on : Bool) → Event
  account_expiry_warned : (account : String) → Event
  channel_expiry_warned : (channel : String) → Event
  account_oper_note_set : (account : String) (note : Option String) → Event
  channel_oper_note_set : (channel : String) (note : Option String) → Event
  news_added : (id : ℕ) (kind text setter : String) (ts : ℕ) → Event
  news_deleted : (id : ℕ) → Event
  report_filed : (id : ℕ) (reporter target reason : String) (ts : ℕ) → Event
  report_closed : (id : ℕ) → Event
  report_deleted : (id : ℕ) → Event
  group_registered : (name founder : String) (ts : ℕ) (home : String) → Event
  group_dropped : (name : String) → Event
  group_founder_set : (name founder : String) → Event
  group_flags_set : (name account flags : String) → Event
  group_member_del : (name account : String) → Event
  help_requested : (id : ℕ) (requester message : String) (ts : ℕ) → Event
  help_taken : (id : ℕ) (handler : String) → Event
  help_closed : (id : ℕ) → Event
  oper_granted : (account : String) (privs : List String) (expires : Option ℕ) → Event
  oper_revoked : (account : String) → Event
  session_exception_added : (mask : String) (limit : ℕ) (reason : String) → Event
  session_exception_removed : (mask : String) → Event
  akill_added : (kind mask setter reason : String) (ts : ℕ) (expires : Option ℕ) → Event
  akill_removed : (kind mask : String) → Event
  filter_added : (pattern action flags reason setter : String) (ts : ℕ) (expires : Option ℕ) → Event
  filter_removed : (pattern : String) → Event
  forbid_added : (kind mask setter reason : String) (ts : ℕ) → Event
  forbid_removed : (kind mask : String) → Event
  notify_added : (mask flags reason setter : String) (ts : ℕ) (expires : Option ℕ) → Event
  notify_removed : (mask : String) → Event
  jupe_added : (name sid reason : String) → Event
  jupe_removed : (name : String) → Event
  stats_set : (counters : List (String × ℕ)) (channels : ChanStats) → Event
  incidents_set : (incident_seq : ℕ) (incidents : List (String × ℕ × String)) → Event

-- `Scope`: account identity goes to every node, channel state stays on its own.
pub data Scope : Type 0 where
  global local : Scope

unfoldable pub scope : Event → Scope
scope (account_registered _) = global
scope (cert_added _ _) = global
scope (cert_removed _ _) = global
scope (account_email_set _ _) = global
scope (account_greet_set _ _) = global
scope (account_language_set _ _) = global
scope (account_swhois_set _ _) = global
scope (account_signore_set _ _) = global
scope (account_pubkey_set _ _) = global
scope (account_profile_set _ _ _) = global
scope (account_auto_op_set _ _) = global
scope (account_kill_set _ _) = global
scope (account_hide_status_set _ _) = global
scope (account_snotice_set _ _) = global
scope (account_password_set _ _ _) = global
scope (account_dropped _) = global
scope (account_verified _) = global
scope (ajoin_added _ _ _) = global
scope (ajoin_removed _ _) = global
scope (vhost_set _ _ _ _ _) = global
scope (vhost_deleted _) = global
scope (vhost_requested _ _ _) = global
scope (vhost_request_cleared _) = global
scope (account_suspended _ _ _ _ _) = global
scope (account_unsuspended _) = global
scope (memo_sent _ _ _ _ _) = global
scope (memo_read _ _) = global
scope (memo_deleted _ _) = global
scope (memo_ignore_add _ _) = global
scope (memo_ignore_del _ _) = global
scope (memo_prefs_set _ _ _) = global
scope (nick_grouped _ _) = global
scope (nick_ungrouped _) = global
scope (account_seen _ _) = global
scope (account_no_expire _ _) = global
scope (account_expiry_warned _) = global
scope (account_oper_note_set _ _) = global
scope (akill_added _ _ _ _ _ _) = global
scope (akill_removed _ _) = global
scope (filter_added _ _ _ _ _ _ _) = global
scope (filter_removed _) = global
scope (forbid_added _ _ _ _ _) = global
scope (forbid_removed _ _) = global
scope (notify_added _ _ _ _ _ _) = global
scope (notify_removed _) = global
scope (group_registered _ _ _ _) = global
scope (group_dropped _) = global
scope (group_founder_set _ _) = global
scope (group_flags_set _ _ _) = global
scope (group_member_del _ _) = global
scope (oper_granted _ _ _) = global
scope (oper_revoked _) = global
scope (session_exception_added _ _ _) = global
scope (session_exception_removed _) = global
scope (channel_registered _ _ _) = local
scope (channel_dropped _) = local
scope (channel_renamed _ _) = local
scope (channel_mlock _ _ _ _) = local
scope (channel_access_add _ _ _) = local
scope (channel_access_del _ _) = local
scope (channel_akick_add _ _ _) = local
scope (channel_akick_del _ _) = local
scope (channel_level_set _ _ _) = local
scope (channel_level_reset _ _) = local
scope (channel_founder_set _ _) = local
scope (channel_successor_set _ _) = local
scope (channel_desc_set _ _) = local
scope (channel_entry_msg_set _ _) = local
scope (channel_url_set _ _) = local
scope (channel_email_set _ _) = local
scope (channel_settings_set _ _) = local
scope (channel_kicker_set _ _) = local
scope (channel_badwords_set _ _) = local
scope (channel_triggers_set _ _) = local
scope (channel_topic_set _ _ _) = local
scope (channel_suspended _ _ _ _ _) = local
scope (channel_unsuspended _) = local
scope (channel_bot_assigned _ _) = local
scope (channel_bot_unassigned _) = local
scope (bot_added _) = local
scope (bot_removed _) = local
scope (default_bot_set _) = local
scope (vhost_offer_added _) = local
scope (vhost_offer_removed _) = local
scope (vhost_forbid_added _) = local
scope (vhost_forbid_removed _) = local
scope (vhost_template_set _) = local
scope (channel_used _ _) = local
scope (channel_no_expire _ _) = local
scope (channel_expiry_warned _) = local
scope (channel_oper_note_set _ _) = local
scope (jupe_added _ _ _) = local
scope (jupe_removed _) = local
scope (stats_set _ _) = local
scope (incidents_set _ _) = local
scope (news_added _ _ _ _ _) = local
scope (news_deleted _) = local
scope (report_filed _ _ _ _ _) = local
scope (report_closed _) = local
scope (report_deleted _) = local
scope (help_requested _ _ _ _) = local
scope (help_taken _ _) = local
scope (help_closed _) = local
