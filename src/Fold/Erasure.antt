-- ===== src/Fold/Erasure.antt =====
-- What is left of a dropped account (`purge_account_refs`, src/engine/db/event.rs).
use echo_services.Prelude.{
  String, Bool, false, not, ◌||◌, Option, none, some, List, [], ◌∷◌, ◌≡◌, refl, ap, arith, any,
  retain, find, eq_ignore_ascii_case, option_map, is_some_and, eq_iff, eq_refl, any-retain-not,
}
use echo_services.HashMap
use echo_services.HashMap.Laws.{get-remove, get-modify_all}
use echo_services.Data.{State, ChannelInfo, ChanAccess, Group, GroupMember}
use echo_services.Event.{Event}
use echo_services.Fold.Updates.{key}
use echo_services.Fold.Purge.{purge_channel, purge_groups, purge_account_refs}
use echo_services.Fold.{apply}
use echo_services.Fold.Ownership.{founder_at, founder-purge}

-- Whether a channel gives the account a standing, by its access list or as the successor.
abbrev pub names_in_channel : String → ChannelInfo → Bool
names_in_channel account c =
    any (λ (a : ChanAccess). eq_ignore_ascii_case a.account account) c.access
    || is_some_and c.successor (λ s. eq_ignore_ascii_case s account)

-- Whether a group is the account's, or has it as a member.
abbrev pub names_in_group : String → Group → Bool
names_in_group account g =
    eq_ignore_ascii_case g.founder account
    || any (λ (m : GroupMember). eq_ignore_ascii_case m.account account) g.members

purged_channel :
    (account : String) (c : ChannelInfo)
    → names_in_channel account (purge_channel account c) ≡ false
unfolding purge_channel
purged_channel account c =
    ground
      (arith, any-retain-not (λ (a : ChanAccess). eq_ignore_ascii_case a.account account) c.access)

purged_groups :
    (account : String) (gs : List Group)
    → any (names_in_group account) (purge_groups account gs) ≡ false
unfolding purge_groups any retain
purged_groups account [] = refl
purged_groups account (g ∷ gs) = ground (
  arith,
  purged_groups account gs,
  any-retain-not (λ (m : GroupMember). eq_ignore_ascii_case m.account account) g.members,
)

any-retain_values :
    (p : String → Bool) (m : HashMap.HashMap String)
    → any (λ (e : String × String). p e.1) (HashMap.retain_values (λ v. not (p v)) m) ≡ false
unfolding any HashMap.retain_values
any-retain_values p [] = refl
any-retain_values p ((k, v) ∷ m) = ground (arith, any-retain_values p m)

any-modify_all :
    (account : String) (m : HashMap.HashMap ChannelInfo)
    → any
        (λ (e : String × ChannelInfo). names_in_channel account e.1)
        (HashMap.modify_all (purge_channel account) m)
      ≡ false
unfolding any HashMap.modify_all
any-modify_all account [] = refl
any-modify_all account ((k, c) ∷ m) = rw (purged_channel account c) (any-modify_all account m)

-- What is left of a dropped account in the store, under its name in any case of letters. The account
-- is gone, no grouped nick stands for it, no channel has it on the access list or as the successor,
-- and no group is its own or has it as a member. Two things stay as they were: every channel keeps
-- its founder, also where that is the dropped account, and the grants of operator privileges by
-- account are the same, so that a grant of the dropped account is still there for a new account of
-- its name.
pub account_dropped_erases :
    (s : State) (account : String)
    → let after = apply s (Event.account_dropped account) in
      (HashMap.get after.accounts (key account) ≡ none)
      × (any (λ (e : String × String). eq_ignore_ascii_case e.1 account) after.grouped ≡ false)
      × (any (λ (e : String × ChannelInfo). names_in_channel account e.1) after.channels ≡ false)
      × (any (names_in_group account) after.net.groups ≡ false)
      × ((k : String) → founder_at after.channels k ≡ founder_at s.channels k)
      × (after.net.opers ≡ s.net.opers)
unfolding apply purge_account_refs
account_dropped_erases s account = (
  rw (get-remove s.accounts (key account) (key account)) (ground (arith, eq_refl (key account))),
  any-retain_values (λ a. eq_ignore_ascii_case a account) s.grouped,
  any-modify_all account s.channels,
  purged_groups account s.net.groups,
  λ k. founder-purge account s.channels k,
  refl,
)

find-retain-ne :
    (account other : String) (xs : List ChanAccess)
    → eq_ignore_ascii_case account other ≡ false
    → find
        (λ (a : ChanAccess). eq_ignore_ascii_case a.account other)
        (retain (λ (a : ChanAccess). not (eq_ignore_ascii_case a.account account)) xs)
      ≡ find (λ (a : ChanAccess). eq_ignore_ascii_case a.account other) xs
unfolding find retain
find-retain-ne account other [] h = refl
find-retain-ne account other (x ∷ xs) h = ground (
  arith,
  find-retain-ne account other xs h,
  eq_iff (key x.account) (key other),
  eq_iff (key x.account) (key account),
  eq_iff (key account) (key other),
)

-- The access entry that the account has on the channel of this key, if it has one.
abbrev pub access_of : State → String → String → Option (Option ChanAccess)
access_of s k account =
    option_map
      (λ (c : ChannelInfo).
        find (λ (a : ChanAccess). eq_ignore_ascii_case a.account account) c.access)
      (HashMap.get s.channels k)

-- Dropping an account leaves every other account, by the comparison that ignores case, with its own
-- record and with the access entry that it had on each channel.
pub account_dropped_keeps :
    (s : State) (account other : String)
    → eq_ignore_ascii_case account other ≡ false
    → let after = apply s (Event.account_dropped account) in
      (HashMap.get after.accounts (key other) ≡ HashMap.get s.accounts (key other))
      × ((k : String) → access_of after k other ≡ access_of s k other)
unfolding apply purge_account_refs
account_dropped_keeps s account other h = (
  rw (get-remove s.accounts (key account) (key other), h) refl,
  λ k. rw (get-modify_all (purge_channel account) s.channels k) (kept (HashMap.get s.channels k)),
)
  where
    kept :
        (o : Option ChannelInfo)
        → option_map
            (λ (c : ChannelInfo).
              find (λ (a : ChanAccess). eq_ignore_ascii_case a.account other) c.access)
            (option_map (purge_channel account) o)
          ≡ option_map
              (λ (c : ChannelInfo).
                find (λ (a : ChanAccess). eq_ignore_ascii_case a.account other) c.access)
              o
    kept none = refl
    kept (some c) = ap some (find-retain-ne account other c.access h)
