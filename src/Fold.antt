-- ===== src/Fold.antt =====
-- `apply`: folds one event into the store, for replay and for gossip alike
-- (src/engine/db/event.rs).
pub mod Updates
pub mod Lists
pub mod Purge
pub mod Claims
pub mod Erasure
pub mod Ownership
use echo_services.Prelude.{
  ℕ, String, true, false, not, some, none, option_map, List, [], ◌∷◌, ◌==◌, retain,
}
use echo_services.HashMap
use echo_services.Data.{Account, State, new_channel}
use echo_services.Event.{Event}
use Updates.{
  key, with_account, with_channel, with_net, register_account, add_cert, set_profile_field,
  non_empty, add_ajoin, del_ajoin, receive_memo, read_memo, delete_memo, ignore_memos,
  unignore_memos, see_account, use_channel, add_access, del_access, add_akick, del_akick, set_level,
  reset_level, set_badwords, set_triggers, rename,
}
use Lists.{
  with_hosts, with_groups, add_offer, del_offer, add_jupe, del_jupe, add_news, del_news, add_report,
  close_report, del_report, add_ticket, take_ticket, close_ticket, add_akill, del_akill, add_filter,
  del_filter, add_forbid, del_forbid, add_notify, del_notify, add_exception, del_exception,
  add_host_forbid, del_host_forbid, register_group, drop_group, set_group_founder, set_group_flags,
  del_group_member, forget_default_bot,
}
use Purge.{purge_account_refs}

unfoldable pub apply : State → Event → State
apply s (Event.account_registered x) = record s { accounts = register_account x s.accounts }
apply s (Event.cert_added account fp) = with_account s account (add_cert fp)
apply s (Event.cert_removed account fp) =
    with_account s account (λ a. record a { certfps = retain (λ c. not (c == fp)) a.certfps })
apply s (Event.account_email_set account email) =
    with_account s account (λ a. record a { email = email })
apply s (Event.account_greet_set account greet) =
    with_account s account (λ a. record a { greet = greet })
apply s (Event.account_language_set account language) =
    with_account s account (λ a. record a { language = language })
apply s (Event.account_swhois_set account text) =
    with_account s account (λ a. record a { swhois = text })
apply s (Event.account_signore_set account list) =
    with_account s account (λ a. record a { signore = list })
apply s (Event.account_pubkey_set account pubkey) =
    with_account s account (λ a. record a { pubkey = pubkey })
apply s (Event.account_profile_set account field value) =
    with_account s account (set_profile_field field value)
apply s (Event.account_auto_op_set account on) =
    with_account s account (λ a. record a { no_autoop = not on })
apply s (Event.account_kill_set account on) =
    with_account s account (λ a. record a { no_protect = not on })
apply s (Event.account_hide_status_set account on) =
    with_account s account (λ a. record a { hide_status = on })
apply s (Event.account_snotice_set account on) =
    with_account s account (λ a. record a { snotice = on })
apply s (Event.account_password_set account scram256 scram512) =
    with_account s account
      (λ a. record a { scram256 = some scram256; scram512 = non_empty scram512 })
apply s (Event.account_dropped account) =
    purge_account_refs account (record s { accounts = HashMap.remove s.accounts (key account) })
apply s (Event.account_verified account) =
    with_account s account (λ a. record a { verified = true })
apply s (Event.ajoin_added account channel join_key) =
    with_account s account (add_ajoin channel join_key)
apply s (Event.ajoin_removed account channel) = with_account s account (del_ajoin channel)
apply s (Event.vhost_set account host setter ts expires) = with_account s account (λ a. record a {
  vhost = some (record { host = host; setter = setter; ts = ts; expires = expires });
})
apply s (Event.vhost_deleted account) = with_account s account (λ a. record a { vhost = none })
apply s (Event.vhost_requested account host ts) =
    with_account s account
      (λ a. record a { vhost_request = some (record { host = host; ts = ts }) })
apply s (Event.vhost_request_cleared account) =
    with_account s account (λ a. record a { vhost_request = none })
apply s (Event.account_suspended account by reason ts expires) = with_account s account (λ a.
    record a {
      suspension = some (record { by = by; reason = reason; ts = ts; expires = expires });
    })
apply s (Event.account_unsuspended account) =
    with_account s account (λ a. record a { suspension = none })
apply s (Event.memo_sent account from text ts receipt) =
    with_account s account
      (receive_memo (record { from = from; text = text; ts = ts; read = false; receipt = receipt }))
apply s (Event.memo_read account index) = with_account s account (read_memo index)
apply s (Event.memo_deleted account index) = with_account s account (delete_memo index)
apply s (Event.memo_ignore_add account target) = with_account s account (ignore_memos target)
apply s (Event.memo_ignore_del account target) = with_account s account (unignore_memos target)
apply s (Event.memo_prefs_set account notify limit) =
    with_account s account (λ a. record a { memo_notify = notify; memo_limit = limit })
apply s (Event.nick_grouped nick account) = record s {
  grouped = HashMap.insert s.grouped (key nick) account;
}
apply s (Event.nick_ungrouped nick) = record s { grouped = HashMap.remove s.grouped (key nick) }
apply s (Event.account_seen account ts) = with_account s account (see_account ts)
apply s (Event.account_no_expire account on) =
    with_account s account (λ a. record a { noexpire = on })
apply s (Event.account_expiry_warned account) =
    with_account s account (λ a. record a { expiry_warned = true })
apply s (Event.account_oper_note_set account note) =
    with_account s account (λ a. record a { oper_note = note })
apply s (Event.channel_registered name founder ts) = record s {
  channels = HashMap.insert s.channels (key name) (new_channel name founder ts);
}
apply s (Event.channel_dropped name) = record s { channels = HashMap.remove s.channels (key name) }
apply s (Event.channel_renamed old new) = record s { channels = rename old new s.channels }
apply s (Event.channel_mlock name on off params) =
    with_channel s name (λ c. record c { lock_on = on; lock_off = off; lock_params = params })
apply s (Event.channel_access_add channel account level) =
    with_channel s channel (add_access account level)
apply s (Event.channel_access_del channel account) = with_channel s channel (del_access account)
apply s (Event.channel_akick_add channel mask reason) =
    with_channel s channel (add_akick mask reason)
apply s (Event.channel_akick_del channel mask) = with_channel s channel (del_akick mask)
apply s (Event.channel_level_set channel capability role) =
    with_channel s channel (set_level capability role)
apply s (Event.channel_level_reset channel capability) =
    with_channel s channel (reset_level capability)
apply s (Event.channel_founder_set channel founder) =
    with_channel s channel (λ c. record c { founder = founder })
apply s (Event.channel_successor_set channel successor) =
    with_channel s channel (λ c. record c { successor = successor })
apply s (Event.channel_desc_set channel desc) =
    with_channel s channel (λ c. record c { desc = desc })
apply s (Event.channel_entry_msg_set channel msg) =
    with_channel s channel (λ c. record c { entrymsg = msg })
apply s (Event.channel_url_set channel url) = with_channel s channel (λ c. record c { url = url })
apply s (Event.channel_email_set channel email) =
    with_channel s channel (λ c. record c { email = email })
apply s (Event.channel_settings_set channel settings) =
    with_channel s channel (λ c. record c { settings = settings })
apply s (Event.channel_kicker_set channel kickers) =
    with_channel s channel (λ c. record c { kickers = kickers })
apply s (Event.channel_badwords_set channel badwords) =
    with_channel s channel (set_badwords badwords)
apply s (Event.channel_triggers_set channel triggers) =
    with_channel s channel (set_triggers triggers)
apply s (Event.channel_topic_set channel topic setter) =
    with_channel s channel (λ c. record c { topic = topic; topic_setter = setter })
apply s (Event.channel_suspended channel by reason ts expires) = with_channel s channel (λ c.
    record c {
      suspension = some (record { by = by; reason = reason; ts = ts; expires = expires });
    })
apply s (Event.channel_unsuspended channel) =
    with_channel s channel (λ c. record c { suspension = none })
apply s (Event.channel_bot_assigned channel bot) =
    with_channel s channel (λ c. record c { assigned_bot = some bot })
apply s (Event.channel_bot_unassigned channel) =
    with_channel s channel (λ c. record c { assigned_bot = none })
apply s (Event.channel_used channel ts) = with_channel s channel (use_channel ts)
apply s (Event.channel_no_expire channel on) =
    with_channel s channel (λ c. record c { noexpire = on })
apply s (Event.channel_expiry_warned channel) =
    with_channel s channel (λ c. record c { expiry_warned = true })
apply s (Event.channel_oper_note_set channel note) =
    with_channel s channel (λ c. record c { oper_note = note })
apply s (Event.bot_added x) = record s { bots = HashMap.insert s.bots (key x.nick) x }
apply s (Event.bot_removed nick) = record s {
  bots = HashMap.remove s.bots (key nick);
  net = forget_default_bot nick s.net;
}
apply s (Event.default_bot_set bot) =
    with_net s (λ n. record n { default_bot = option_map key bot })
apply s (Event.vhost_offer_added host) = with_hosts s (add_offer host)
apply s (Event.vhost_offer_removed host) = with_hosts s (del_offer host)
apply s (Event.vhost_forbid_added pattern) = with_hosts s (add_host_forbid pattern)
apply s (Event.vhost_forbid_removed pattern) = with_hosts s (del_host_forbid pattern)
apply s (Event.vhost_template_set template) = with_hosts s (λ h. record h { template = template })
apply s (Event.news_added id kind text setter ts) =
    with_net s (add_news (record { id = id; kind = kind; text = text; setter = setter; ts = ts }))
apply s (Event.news_deleted id) = with_net s (del_news id)
apply s (Event.report_filed id reporter target reason ts) = with_net s (
    add_report (record {
      id = id;
      reporter = reporter;
      target = target;
      reason = reason;
      ts = ts;
      is_open = true;
    }))
apply s (Event.report_closed id) = with_net s (close_report id)
apply s (Event.report_deleted id) = with_net s (del_report id)
apply s (Event.group_registered name founder ts home) = with_net s (
    with_groups (
      register_group
        (record { name = name; founder = founder; ts = ts; home = home; members = [] })))
apply s (Event.group_dropped name) = with_net s (with_groups (drop_group name))
apply s (Event.group_founder_set name founder) =
    with_net s (with_groups (set_group_founder name founder))
apply s (Event.group_flags_set name account flags) =
    with_net s (with_groups (set_group_flags name account flags))
apply s (Event.group_member_del name account) =
    with_net s (with_groups (del_group_member name account))
apply s (Event.help_requested id requester message ts) = with_net s (
    add_ticket (record {
      id = id;
      requester = requester;
      message = message;
      ts = ts;
      handler = none;
      is_open = true;
    }))
apply s (Event.help_taken id handler) = with_net s (take_ticket id handler)
apply s (Event.help_closed id) = with_net s (close_ticket id)
apply s (Event.oper_granted account privs expires) = with_net s (λ n. record n {
  opers = HashMap.insert n.opers (key account) (record { privs = privs; expires = expires });
})
apply s (Event.oper_revoked account) =
    with_net s (λ n. record n { opers = HashMap.remove n.opers (key account) })
apply s (Event.session_exception_added mask limit reason) =
    with_net s (add_exception (record { mask = mask; limit = limit; reason = reason }))
apply s (Event.session_exception_removed mask) = with_net s (del_exception mask)
apply s (Event.akill_added kind mask setter reason ts expires) = with_net s (
    add_akill (record {
      kind = kind;
      mask = mask;
      setter = setter;
      reason = reason;
      ts = ts;
      expires = expires;
    }))
apply s (Event.akill_removed kind mask) = with_net s (del_akill kind mask)
apply s (Event.filter_added pattern action flags reason setter ts expires) = with_net s (
    add_filter (record {
      pattern = pattern;
      action = action;
      flags = flags;
      reason = reason;
      setter = setter;
      ts = ts;
      expires = expires;
    }))
apply s (Event.filter_removed pattern) = with_net s (del_filter pattern)
apply s (Event.forbid_added kind mask setter reason ts) =
    with_net s
      (add_forbid (record { kind = kind; mask = mask; setter = setter; reason = reason; ts = ts }))
apply s (Event.forbid_removed kind mask) = with_net s (del_forbid kind mask)
apply s (Event.notify_added mask flags reason setter ts expires) = with_net s (
    add_notify (record {
      mask = mask;
      flags = flags;
      reason = reason;
      setter = setter;
      ts = ts;
      expires = expires;
    }))
apply s (Event.notify_removed mask) = with_net s (del_notify mask)
apply s (Event.jupe_added name sid reason) = with_net s (add_jupe name sid reason)
apply s (Event.jupe_removed name) = with_net s (del_jupe name)
apply s (Event.stats_set counters channels) =
    with_net s (λ n. record n { stats = HashMap.collect [] counters; chan_stats = channels })
apply s (Event.incidents_set incident_seq incidents) =
    with_net s (λ n. record n { incident_seq = incident_seq; incidents = incidents })

-- The fold that `Db::open` makes of the log.
unfoldable pub replay : State → List Event → State
replay s [] = s
replay s (e ∷ es) = replay (apply s e) es
