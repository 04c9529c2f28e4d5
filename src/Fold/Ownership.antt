-- ===== src/Fold/Ownership.antt =====
-- What a replicated event can do to channels (`Event::scope` and `apply`, src/engine/db/event.rs).
use echo_services.Prelude.{String, Option, ◌≡◌, arith, option_map}
use echo_services.HashMap
use echo_services.HashMap.{HashMap}
use echo_services.HashMap.Laws.{get-modify_all}
use echo_services.Data.{State, ChannelInfo}
use echo_services.Event.{Event, scope, global}
use echo_services.Fold.Purge.{purge_channel, purge_account_refs}
use echo_services.Fold.{apply}

-- Who founded the channel of this key, if one is registered.
abbrev pub founder_at : HashMap ChannelInfo → String → Option String
founder_at channels k = option_map (λ (c : ChannelInfo). c.founder) (HashMap.get channels k)

pub founder-purge :
    (account : String) (channels : HashMap ChannelInfo) (k : String)
    → founder_at (HashMap.modify_all (purge_channel account) channels) k ≡ founder_at channels k
unfolding purge_channel
founder-purge account channels k =
    rw (get-modify_all (purge_channel account) channels k) (ground arith)

-- An event of the global scope registers no channel, drops none and hands none to another founder:
-- under every key the same founder stands as before, or still none does.
pub apply-founder :
    (s : State) (e : Event) (k : String)
    → scope e ≡ global
    → founder_at (apply s e).channels k ≡ founder_at s.channels k
unfolding apply scope purge_account_refs
apply-founder s (Event.account_dropped account) k h = founder-purge account s.channels k
apply-founder s _ k h = ground arith
