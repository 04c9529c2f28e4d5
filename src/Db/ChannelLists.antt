-- ===== src/Db/ChannelLists.antt =====
-- A property of the access and auto-kick lists that every event keeps (`apply`,
-- src/engine/db/event.rs).
use echo_services.Prelude.{
  option_rule, String, Bool, false, not, List, [], ◌≡◌, retain, push, eq_ignore_ascii_case,
}
use echo_services.HashMap
use echo_services.HashMap.{HashMap}
use echo_services.HashMap.Everywhere.{
  Everywhere, insert-Everywhere, remove-Everywhere, modify-Everywhere, modify_all-Everywhere,
}
use echo_services.Data.{State, ChannelInfo, ChanAccess, ChanAkick, new_channel}
use echo_services.Event.{Event}
use echo_services.Fold.{apply}
use echo_services.Fold.Purge.{purge_channel, purge_account_refs}
use echo_services.Fold.Updates.{
  key, add_access, del_access, add_akick, del_akick, set_level, reset_level, set_badwords,
  set_triggers, use_channel, rename,
}
use echo_services.Db.Traced.{Admits, overflows}

abbrev pub account_of : ChanAccess → String
account_of a = a.account

abbrev pub mask_of : ChanAkick → String
mask_of a = a.mask

-- The entries that the one for `x` would replace.
abbrev pub same_as : {A : Type 0} → (A → String) → String → A → Bool
same_as name x a = eq_ignore_ascii_case (name a) x

-- A property of lists of named entries, which deletions and replacements keep.
module _ (L : (A : Type 0) → (A → String) → List A → Type 0)
    (nil : (A : Type 0) (name : A → String) → L A name [])
    (shrink : (A : Type 0) (name : A → String) (p : A → Bool) (xs : List A)
      → L A name xs
      → L A name (retain p xs))
    (replace : (A : Type 0) (name : A → String) (xs : List A) (x : A)
      → overflows (same_as name (name x)) xs ≡ false
      → L A name xs
      → L A name (push (retain (λ a. not (same_as name (name x) a)) xs) x)) where
  abbrev pub Listed : ChannelInfo → Type 0
  Listed c = L ChanAccess account_of c.access × L ChanAkick mask_of c.akick

  purge-Listed : (account : String) (c : ChannelInfo) → Listed c → Listed (purge_channel account c)
  unfolding purge_channel
  purge-Listed account c h = (shrink ChanAccess account_of _ c.access h.0, h.1)

  rename-Listed :
      (old new : String) (m : HashMap ChannelInfo)
      → Everywhere Listed m
      → Everywhere Listed (rename old new m)
  unfolding rename
  rename-Listed old new m h =
      option_rule (Everywhere Listed) (HashMap.get m (key old)) (λ _. h)
        λ c q.
          insert-Everywhere Listed (HashMap.remove m (key old)) (key new) (record c { name = new })
            (h (key old) c q) (remove-Everywhere Listed m (key old) h)

  -- What the caller has checked is enough for every event, local or of another node.
  pub apply-Listed :
      (s : State) (e : Event)
      → Admits s e
      → Everywhere Listed s.channels
      → Everywhere Listed (apply s e).channels
  unfolding apply purge_account_refs add_access del_access add_akick del_akick set_level reset_level
      set_badwords set_triggers use_channel new_channel
  apply-Listed s (Event.channel_mlock channel x y z) a h =
      modify-Everywhere Listed s.channels (key channel) _ (λ _ _ same. same) h
  apply-Listed s (Event.channel_access_del channel x) a h =
      modify-Everywhere Listed s.channels (key channel) _
        (λ c _ small. (shrink ChanAccess account_of _ c.access small.0, small.1)) h
  apply-Listed s (Event.channel_akick_del channel x) a h =
      modify-Everywhere Listed s.channels (key channel) _
        (λ c _ small. (small.0, shrink ChanAkick mask_of _ c.akick small.1)) h
  apply-Listed s (Event.channel_level_set channel x y) a h =
      modify-Everywhere Listed s.channels (key channel) _ (λ _ _ same. same) h
  apply-Listed s (Event.channel_level_reset channel x) a h =
      modify-Everywhere Listed s.channels (key channel) _ (λ _ _ same. same) h
  apply-Listed s (Event.channel_founder_set channel x) a h =
      modify-Everywhere Listed s.channels (key channel) _ (λ _ _ same. same) h
  apply-Listed s (Event.channel_successor_set channel x) a h =
      modify-Everywhere Listed s.channels (key channel) _ (λ _ _ same. same) h
  apply-Listed s (Event.channel_desc_set channel x) a h =
      modify-Everywhere Listed s.channels (key channel) _ (λ _ _ same. same) h
  apply-Listed s (Event.channel_entry_msg_set channel x) a h =
      modify-Everywhere Listed s.channels (key channel) _ (λ _ _ same. same) h
  apply-Listed s (Event.channel_url_set channel x) a h =
      modify-Everywhere Listed s.channels (key channel) _ (λ _ _ same. same) h
  apply-Listed s (Event.channel_email_set channel x) a h =
      modify-Everywhere Listed s.channels (key channel) _ (λ _ _ same. same) h
  apply-Listed s (Event.channel_settings_set channel x) a h =
      modify-Everywhere Listed s.channels (key channel) _ (λ _ _ same. same) h
  apply-Listed s (Event.channel_kicker_set channel x) a h =
      modify-Everywhere Listed s.channels (key channel) _ (λ _ _ same. same) h
  apply-Listed s (Event.channel_badwords_set channel x) a h =
      modify-Everywhere Listed s.channels (key channel) _ (λ _ _ same. same) h
  apply-Listed s (Event.channel_triggers_set channel x) a h =
      modify-Everywhere Listed s.channels (key channel) _ (λ _ _ same. same) h
  apply-Listed s (Event.channel_topic_set channel x y) a h =
      modify-Everywhere Listed s.channels (key channel) _ (λ _ _ same. same) h
  apply-Listed s (Event.channel_suspended channel x y z t) a h =
      modify-Everywhere Listed s.channels (key channel) _ (λ _ _ same. same) h
  apply-Listed s (Event.channel_unsuspended channel) a h =
      modify-Everywhere Listed s.channels (key channel) _ (λ _ _ same. same) h
  apply-Listed s (Event.channel_bot_assigned channel x) a h =
      modify-Everywhere Listed s.channels (key channel) _ (λ _ _ same. same) h
  apply-Listed s (Event.channel_bot_unassigned channel) a h =
      modify-Everywhere Listed s.channels (key channel) _ (λ _ _ same. same) h
  apply-Listed s (Event.channel_used channel x) a h =
      modify-Everywhere Listed s.channels (key channel) _ (λ _ _ same. same) h
  apply-Listed s (Event.channel_no_expire channel x) a h =
      modify-Everywhere Listed s.channels (key channel) _ (λ _ _ same. same) h
  apply-Listed s (Event.channel_expiry_warned channel) a h =
      modify-Everywhere Listed s.channels (key channel) _ (λ _ _ same. same) h
  apply-Listed s (Event.channel_oper_note_set channel x) a h =
      modify-Everywhere Listed s.channels (key channel) _ (λ _ _ same. same) h
  apply-Listed s (Event.channel_registered name founder ts) a h =
      insert-Everywhere Listed s.channels (key name) (new_channel name founder ts)
        (nil ChanAccess account_of, nil ChanAkick mask_of) h
  apply-Listed s (Event.channel_dropped name) a h = remove-Everywhere Listed s.channels (key name) h
  apply-Listed s (Event.channel_renamed old new) a h = rename-Listed old new s.channels h
  apply-Listed s (Event.account_dropped account) a h =
      modify_all-Everywhere Listed s.channels (purge_channel account) (purge-Listed account) h
  apply-Listed s (Event.channel_access_add channel account level) a h =
      modify-Everywhere Listed s.channels (key channel) _
        (λ c q small. (
          replace ChanAccess account_of c.access (record { account = account; level = level })
              (a c q) small.0,
          small.1,
        ))
        h
  apply-Listed s (Event.channel_akick_add channel mask reason) a h =
      modify-Everywhere Listed s.channels (key channel) _
        (λ c q small. (
          small.0,
          replace ChanAkick mask_of c.akick (record { mask = mask; reason = reason }) (a c q)
              small.1,
        ))
        h
  apply-Listed s _ a h = h
