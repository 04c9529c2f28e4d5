-- ===== src/Db/Masks/Forbidden.antt =====
-- Registration bans as they are read after the calls that change them
-- (src/engine/db/network.rs).
use echo_services.Prelude.{
  Char, String, Bool, not, ◌&&◌, ◌||◌, ◌==◌, List, [], ◌∷◌, ◌≡◌, refl, ap, sym, ◌∙◌,
  retain-not-of_none, is_some, option_map, any, find, push, retain, arith, Result, ok, if_rule,
}
use echo_services.Data.{State, Forbid}
use echo_services.Event.{Event}
use echo_services.Fold.Lists.{same_forbid}
use echo_services.Glob.{lowered}
use echo_services.Glob.Meaning.{matches, NoStar, glob_match_exact}
use echo_services.Db.{Db, World, commit}
use echo_services.Db.Bans.{ForbidKind, RegError, forbid_wire, forbid_add, forbid_del}
use echo_services.Db.Masks.{is_forbidden}

commit-ok :
    {T E : Type 0} (w : World) (db : Db) (event : Event) (fault : E) (write : State → State)
    (value : T) {v : T}
    → (commit w db event fault write value).1 ≡ ok v
    → (commit w db event fault write value).0.state ≡ write db.state
unfolding commit
commit-ok w db event fault write value h = ground (arith, h)

find-any :
    {A B : Type 0} (f : A → B) (p : A → Bool) (xs : List A)
    → is_some (option_map f (find p xs)) ≡ any p xs
unfolding find any
find-any f p [] = refl
find-any f p (x ∷ xs) = ground (arith, find-any f p xs)

any-push : {A : Type 0} (p : A → Bool) (xs : List A) (x : A) → any p (push xs x) ≡ (any p xs || p x)
unfolding any
any-push p [] x = ground arith
any-push p (y ∷ xs) x = ground (arith, any-push p xs x)

any-congr :
    {A : Type 0} (p q : A → Bool) (xs : List A) → ((x : A) → p x ≡ q x) → any p xs ≡ any q xs
unfolding any
any-congr p q [] h = refl
any-congr p q (x ∷ xs) h = ground (arith, h x, any-congr p q xs h)

module _ (lower : Char → List Char) where
  -- The ban is of this kind, and its mask matches the name, a star standing for any run.
  abbrev pub bans : ForbidKind → String → Forbid → Bool
  bans kind name f =
      f.kind == forbid_wire kind && matches (lowered lower f.mask) (lowered lower name)

  is_forbidden-any :
      (db : Db) (kind : ForbidKind) (name : String)
      → NoStar (lowered lower name)
      → is_some (is_forbidden lower db kind name) ≡ any (bans kind name) db.state.net.forbids
  unfolding is_forbidden
  is_forbidden-any db kind name plain =
      find-any (λ (f : Forbid). f.reason) _ db.state.net.forbids
      ∙ any-congr _ (bans kind name) db.state.net.forbids (λ f.
        ap (λ (b : Bool). f.kind == forbid_wire kind && b)
          (glob_match_exact lower f.mask name plain))

  module _ (w : World) (db : Db) (kind : ForbidKind) (mask : String) where
    -- The bans without the one of this kind and mask
    abbrev pub others : List Forbid
    others = retain (λ f. not (same_forbid (forbid_wire kind) mask f)) db.state.net.forbids

    -- Once a registration ban was added, a name without `*` in it is forbidden for a kind exactly
    -- where the new ban is of that kind and its mask matches the name, or an older ban of another
    -- kind or mask does so.
    pub forbid_add-is_forbidden :
        (setter reason : String) (read : ForbidKind) (name : String) {fresh : Bool}
        → (forbid_add w db kind mask setter reason).1 ≡ ok fresh
        → NoStar (lowered lower name)
        → is_some (is_forbidden lower (forbid_add w db kind mask setter reason).0 read name) ≡ (
            any (bans read name) others
            || (forbid_wire kind == forbid_wire read
                && matches (lowered lower mask) (lowered lower name)))
    unfolding forbid_add
    forbid_add-is_forbidden setter reason read name done plain =
        is_forbidden-any (forbid_add w db kind mask setter reason).0 read name plain
        ∙ ap (λ (s : State). any (bans read name) s.net.forbids)
            (commit-ok w db (Event.forbid_added (forbid_wire kind) mask setter reason w.now) _ _ _
              done)
        ∙ any-push (bans read name) others _

    forbid_del-forbids :
        (there : Bool)
        → (forbid_del w db kind mask).1 ≡ ok there
        → (forbid_del w db kind mask).0.state.net.forbids ≡ others
    unfolding forbid_del
    forbid_del-forbids =
        if_rule
          (λ (r : Db × Result Bool RegError).
            (there : Bool) → r.1 ≡ ok there → r.0.state.net.forbids ≡ others)
          (any (same_forbid (forbid_wire kind) mask) db.state.net.forbids)
          (λ _ there done.
            ap (λ (s : State). s.net.forbids)
              (commit-ok w db (Event.forbid_removed (forbid_wire kind) mask) _ _ _ done))
          (λ absent there done. sym (retain-not-of_none _ db.state.net.forbids absent))

    -- Once a call to lift a registration ban succeeded, a name without `*` in it is forbidden for a
    -- kind exactly where a ban of another kind or mask than the lifted one forbids it.
    pub forbid_del-is_forbidden :
        (read : ForbidKind) (name : String) {there : Bool}
        → (forbid_del w db kind mask).1 ≡ ok there
        → NoStar (lowered lower name)
        → is_some (is_forbidden lower (forbid_del w db kind mask).0 read name)
          ≡ any (bans read name) others
    forbid_del-is_forbidden read name done plain =
        is_forbidden-any (forbid_del w db kind mask).0 read name plain
        ∙ ap (any (bans read name)) (forbid_del-forbids _ done)
