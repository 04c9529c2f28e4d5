-- ===== src/Fold/Updates.antt =====
-- The writes that `apply` makes inside one record (src/engine/db/event.rs).
use echo_services.Prelude.{
  str_lt, ℕ, ◌+◌, ◌%◌, ◌^◌, String, Bool, true, false, not, ◌&&◌, ◌||◌, Option, none, some, List,
  ◌==◌, eqb, ltb, max, if◌then◌else◌, any, retain, push, length, modify_at, remove_at, unwrap_or,
  to_ascii_lowercase, eq_ignore_ascii_case,
}
use echo_services.HashMap
use echo_services.HashMap.{HashMap}
use echo_services.Data.{Account, Memo, ChannelInfo, Trigger, State, NetData}
use echo_services.Data.Profiles
use echo_services.Data.Profiles.{ProfileField}

-- `key`: maps are keyed by the casefolded name.
abbrev pub key : String → String
key name = to_ascii_lowercase name

-- `owns_over`: (ts, home) is less in the order of pairs.
unfoldable pub owns_over : Account → Account → Bool
owns_over held claim = ltb held.ts claim.ts || (eqb held.ts claim.ts && str_lt held.home claim.home)

-- `if let Some(a) = accounts.get_mut(&key(account)) { … }`
abbrev pub with_account : State → String → (Account → Account) → State
with_account s account f = record s { accounts = HashMap.modify s.accounts (key account) f }

abbrev pub with_channel : State → String → (ChannelInfo → ChannelInfo) → State
with_channel s channel f = record s { channels = HashMap.modify s.channels (key channel) f }

abbrev pub with_net : State → (NetData → NetData) → State
with_net s f = record s { net = f s.net }

unfoldable pub register_account : Account → HashMap Account → HashMap Account
unfolding owns_over
register_account a accounts = elim (HashMap.get accounts (key a.name)) [
  | none ↦ HashMap.insert accounts (key a.name) a
  | some cur ↦ if owns_over cur a then accounts else HashMap.insert accounts (key a.name) a
]

unfoldable pub add_cert : String → Account → Account
add_cert fp a = if any (λ c. c == fp) a.certfps then a else record a { certfps = push a.certfps fp }

unfoldable pub set_profile_field : String → Option String → Account → Account
set_profile_field field value a = elim (Profiles.parse field) [
  | none ↦ a
  | some f ↦ record a { profile = Profiles.set a.profile f value }
]

-- An empty text stands for a verifier that was not given.
abbrev pub non_empty : String → Option String
non_empty s = if s == "" then none else some s

unfoldable pub add_ajoin : String → String → Account → Account
add_ajoin channel join_key a = record a {
  ajoin =
      push (retain (λ e. not (eq_ignore_ascii_case e.channel channel)) a.ajoin)
        (record { channel = channel; key = join_key });
}

unfoldable pub del_ajoin : String → Account → Account
del_ajoin channel a = record a {
  ajoin = retain (λ e. not (eq_ignore_ascii_case e.channel channel)) a.ajoin;
}

-- The mailbox cap, 30 unless the account set one.
unfoldable pub receive_memo : Memo → Account → Account
receive_memo m a =
    if ltb (length a.memos) (unwrap_or a.memo_limit 30)
    then record a { memos = push a.memos m }
    else a

unfoldable pub read_memo : ℕ → Account → Account
read_memo index a = record a { memos = modify_at index (λ m. record m { read = true }) a.memos }

unfoldable pub delete_memo : ℕ → Account → Account
delete_memo index a =
    if ltb index (length a.memos) then record a { memos = remove_at index a.memos } else a

unfoldable pub ignore_memos : String → Account → Account
ignore_memos target a =
    if any (λ t. eq_ignore_ascii_case t target) a.memo_ignore
    then a
    else record a { memo_ignore = push a.memo_ignore target }

unfoldable pub unignore_memos : String → Account → Account
unignore_memos target a = record a {
  memo_ignore = retain (λ t. not (eq_ignore_ascii_case t target)) a.memo_ignore;
}

unfoldable pub see_account : ℕ → Account → Account
see_account ts a = record a { last_seen = max a.last_seen ts; expiry_warned = false }

unfoldable pub use_channel : ℕ → ChannelInfo → ChannelInfo
use_channel ts c = record c { last_used = max c.last_used ts; expiry_warned = false }

unfoldable pub add_access : String → String → ChannelInfo → ChannelInfo
add_access account level c = record c {
  access =
      push (retain (λ a. not (eq_ignore_ascii_case a.account account)) c.access)
        (record { account = account; level = level });
}

unfoldable pub del_access : String → ChannelInfo → ChannelInfo
del_access account c = record c {
  access = retain (λ a. not (eq_ignore_ascii_case a.account account)) c.access;
}

unfoldable pub add_akick : String → String → ChannelInfo → ChannelInfo
add_akick mask reason c = record c {
  akick =
      push (retain (λ k. not (eq_ignore_ascii_case k.mask mask)) c.akick)
        (record { mask = mask; reason = reason });
}

unfoldable pub del_akick : String → ChannelInfo → ChannelInfo
del_akick mask c = record c { akick = retain (λ k. not (eq_ignore_ascii_case k.mask mask)) c.akick }

unfoldable pub set_level : String → String → ChannelInfo → ChannelInfo
set_level cap role c = record c {
  levels = push (retain (λ l. not (eq_ignore_ascii_case l.0 cap)) c.levels) (cap, role);
}

unfoldable pub reset_level : String → ChannelInfo → ChannelInfo
reset_level cap c = record c { levels = retain (λ l. not (eq_ignore_ascii_case l.0 cap)) c.levels }

-- `wrapping_add(1)` on the session's `u64` revisions
unfoldable pub set_badwords : List String → ChannelInfo → ChannelInfo
set_badwords badwords c = record c {
  badwords = badwords;
  badwords_rev = (c.badwords_rev + 1) % 2 ^ 64;
}

unfoldable pub set_triggers : List Trigger → ChannelInfo → ChannelInfo
set_triggers triggers c = record c {
  triggers = triggers;
  triggers_rev = (c.triggers_rev + 1) % 2 ^ 64;
}

unfoldable pub rename : String → String → HashMap ChannelInfo → HashMap ChannelInfo
rename old new channels = elim (HashMap.get channels (key old)) [
  | none ↦ channels
  | some c ↦ HashMap.insert (HashMap.remove channels (key old)) (key new) (record c { name = new })
]
