-- ===== src/Fold/Purge.antt =====
-- `purge_account_refs`: what a gone account leaves behind (src/engine/db/event.rs).
use echo_services.Prelude.{
  String, not, none, some, List, map, if◌then◌else◌, retain, eq_ignore_ascii_case,
}
use echo_services.HashMap
use echo_services.Data.{ChannelInfo, Group, State}

unfoldable pub purge_channel : String → ChannelInfo → ChannelInfo
purge_channel account c = record c {
  access = retain (λ a. not (eq_ignore_ascii_case a.account account)) c.access;
  successor = elim c.successor [
    | none ↦ none
    | some s ↦ if eq_ignore_ascii_case s account then none else some s
  ];
}

unfoldable pub purge_members : String → Group → Group
purge_members account g = record g {
  members = retain (λ m. not (eq_ignore_ascii_case m.account account)) g.members;
}

unfoldable pub purge_groups : String → List Group → List Group
unfolding purge_members
purge_groups account groups =
    retain (λ g. not (eq_ignore_ascii_case g.founder account)) (map (purge_members account) groups)

unfoldable pub purge_account_refs : String → State → State
unfolding purge_channel purge_groups
purge_account_refs account s = record s {
  grouped = HashMap.retain_values (λ a. not (eq_ignore_ascii_case a account)) s.grouped;
  channels = HashMap.modify_all (purge_channel account) s.channels;
  net = record s.net { groups = purge_groups account s.net.groups };
}
