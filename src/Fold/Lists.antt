-- ===== src/Fold/Lists.antt =====
-- The writes that `apply` makes in the network-wide lists (src/engine/db/event.rs).
use echo_services.Prelude.{
  str_lt, ℕ, ◌+◌, ◌%◌, ◌^◌, String, Bool, false, not, ◌&&◌, ◌||◌, none, some, List, ◌==◌, eqb, ltb,
  max, if◌then◌else◌, any, retain, push, modify_first, eq_ignore_ascii_case,
}
use echo_services.Data.{
  Group, State, NetData, HostConfig, News, Report, HelpTicket, Akill, Filter, Forbid, Notify,
  SessionException,
}
use echo_services.Fold.Updates.{key}

abbrev pub with_hosts : State → (HostConfig → HostConfig) → State
with_hosts s f = record s { host_cfg = f s.host_cfg }

abbrev pub with_groups : (List Group → List Group) → NetData → NetData
with_groups f net = record net { groups = f net.groups }

unfoldable pub add_unless_there : String → List String → List String
add_unless_there x xs = if any (λ o. o == x) xs then xs else push xs x

unfoldable pub add_jupe : String → String → String → NetData → NetData
add_jupe name sid reason net =
    if any (λ j. eq_ignore_ascii_case j.name name) net.jupes then net else record net {
      jupes = push net.jupes (record { name = name; sid = sid; reason = reason });
      jupe_seq = (net.jupe_seq + 1) % 2 ^ 32;
    }

-- A counter stays above every id that it has seen.
abbrev pub seq_past : ℕ → ℕ → ℕ
seq_past seq id = max seq ((id + 1) % 2 ^ 64)

unfoldable pub add_news : News → NetData → NetData
add_news n net = record net {
  news_seq = seq_past net.news_seq n.id;
  news = if any (λ m. eqb m.id n.id) net.news then net.news else push net.news n;
}

unfoldable pub add_report : Report → NetData → NetData
add_report r net = record net {
  report_seq = seq_past net.report_seq r.id;
  reports = if any (λ m. eqb m.id r.id) net.reports then net.reports else push net.reports r;
}

unfoldable pub add_ticket : HelpTicket → NetData → NetData
add_ticket t net = record net {
  help_seq = seq_past net.help_seq t.id;
  help = if any (λ m. eqb m.id t.id) net.help then net.help else push net.help t;
}

-- Whether a group goes by this casefolded name.
abbrev pub named : String → Group → Bool
named k g = key g.name == k

-- The earlier claim to a group's name stays, by (ts, home) in the order of pairs.
abbrev pub earlier_group : Group → Group → Group
earlier_group claim held =
    if ltb held.ts claim.ts || (eqb held.ts claim.ts && str_lt held.home claim.home)
    then held
    else claim

unfoldable pub register_group : Group → List Group → List Group
register_group claim groups =
    if any (named (key claim.name)) groups
    then modify_first (named (key claim.name)) (earlier_group claim) groups
    else push groups claim

unfoldable pub set_member : String → String → Group → Group
set_member account flags g = record g {
  members =
      push (retain (λ m. not (eq_ignore_ascii_case m.account account)) g.members)
        (record { account = account; flags = flags });
}

unfoldable pub del_member : String → Group → Group
del_member account g = record g {
  members = retain (λ m. not (eq_ignore_ascii_case m.account account)) g.members;
}

unfoldable pub drop_group : String → List Group → List Group
drop_group name groups = retain (λ g. not (named (key name) g)) groups

unfoldable pub set_group_founder : String → String → List Group → List Group
set_group_founder name founder groups =
    modify_first (named (key name)) (λ g. record g { founder = founder }) groups

unfoldable pub set_group_flags : String → String → String → List Group → List Group
unfolding set_member
set_group_flags name account flags groups =
    modify_first (named (key name)) (set_member account flags) groups

unfoldable pub del_group_member : String → String → List Group → List Group
unfolding del_member
del_group_member name account groups = modify_first (named (key name)) (del_member account) groups

-- A default bot that is removed cannot stay the default.
unfoldable pub forget_default_bot : String → NetData → NetData
forget_default_bot nick net = elim net.default_bot [
  | none ↦ net
  | some b ↦ if b == key nick then record net { default_bot = none } else net
]

unfoldable pub add_offer : String → HostConfig → HostConfig
unfolding add_unless_there
add_offer x h = record h { offers = add_unless_there x h.offers }

unfoldable pub del_offer : String → HostConfig → HostConfig
del_offer x h = record h { offers = retain (λ o. not (o == x)) h.offers }

unfoldable pub add_host_forbid : String → HostConfig → HostConfig
unfolding add_unless_there
add_host_forbid x h = record h { forbidden = add_unless_there x h.forbidden }

unfoldable pub del_host_forbid : String → HostConfig → HostConfig
del_host_forbid x h = record h { forbidden = retain (λ o. not (o == x)) h.forbidden }

abbrev pub same_akill : String → String → Akill → Bool
same_akill kind mask a = a.kind == kind && eq_ignore_ascii_case a.mask mask

unfoldable pub add_akill : Akill → NetData → NetData
add_akill x net = record net {
  akills = push (retain (λ a. not (same_akill x.kind x.mask a)) net.akills) x;
}

unfoldable pub del_akill : String → String → NetData → NetData
del_akill kind mask net = record net {
  akills = retain (λ a. not (same_akill kind mask a)) net.akills;
}

unfoldable pub add_filter : Filter → NetData → NetData
add_filter x net = record net {
  filters = push (retain (λ f. not (eq_ignore_ascii_case f.pattern x.pattern)) net.filters) x;
}

unfoldable pub del_filter : String → NetData → NetData
del_filter pattern net = record net {
  filters = retain (λ f. not (eq_ignore_ascii_case f.pattern pattern)) net.filters;
}

abbrev pub same_forbid : String → String → Forbid → Bool
same_forbid kind mask a = a.kind == kind && eq_ignore_ascii_case a.mask mask

unfoldable pub add_forbid : Forbid → NetData → NetData
add_forbid x net = record net {
  forbids = push (retain (λ a. not (same_forbid x.kind x.mask a)) net.forbids) x;
}

unfoldable pub del_forbid : String → String → NetData → NetData
del_forbid kind mask net = record net {
  forbids = retain (λ a. not (same_forbid kind mask a)) net.forbids;
}

unfoldable pub add_notify : Notify → NetData → NetData
add_notify x net = record net {
  notifies = push (retain (λ f. not (eq_ignore_ascii_case f.mask x.mask)) net.notifies) x;
}

unfoldable pub del_notify : String → NetData → NetData
del_notify mask net = record net {
  notifies = retain (λ f. not (eq_ignore_ascii_case f.mask mask)) net.notifies;
}

unfoldable pub add_exception : SessionException → NetData → NetData
add_exception x net = record net {
  sess_exceptions =
      push (retain (λ f. not (eq_ignore_ascii_case f.mask x.mask)) net.sess_exceptions) x;
}

unfoldable pub del_exception : String → NetData → NetData
del_exception mask net = record net {
  sess_exceptions = retain (λ f. not (eq_ignore_ascii_case f.mask mask)) net.sess_exceptions;
}

unfoldable pub del_jupe : String → NetData → NetData
del_jupe name net = record net {
  jupes = retain (λ j. not (eq_ignore_ascii_case j.name name)) net.jupes;
}

unfoldable pub del_news : ℕ → NetData → NetData
del_news id net = record net { news = retain (λ n. not (eqb n.id id)) net.news }

unfoldable pub close_report : ℕ → NetData → NetData
close_report id net = record net {
  reports = modify_first (λ r. eqb r.id id) (λ r. record r { is_open = false }) net.reports;
}

unfoldable pub del_report : ℕ → NetData → NetData
del_report id net = record net { reports = retain (λ r. not (eqb r.id id)) net.reports }

unfoldable pub take_ticket : ℕ → String → NetData → NetData
take_ticket id handler net = record net {
  help = modify_first (λ t. eqb t.id id) (λ t. record t { handler = some handler }) net.help;
}

unfoldable pub close_ticket : ℕ → NetData → NetData
close_ticket id net = record net {
  help = modify_first (λ t. eqb t.id id) (λ t. record t { is_open = false }) net.help;
}
