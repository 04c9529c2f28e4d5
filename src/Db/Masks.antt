-- ===== src/Db/Masks.antt =====
-- What the store reads by mask: registration bans, session exceptions and services ignores
-- (src/engine/db/network.rs), with the list of ignores that the session keeps.
pub mod Forbidden
pub mod Allowance
use echo_services.Prelude.{
  ℕ, code, Char, String, Bool, true, false, not, ◌&&◌, ◌||◌, ◌==◌, eqb, leb, Option, none, some,
  List, [], ◌∷◌, if◌then◌else◌, option_map, map, any, find, push, retain, to_ascii_lowercase,
  append_str, eq_ignore_ascii_case,
}
use echo_services.Data.{Forbid, SessionException}
use echo_services.Glob.{glob_match}
use echo_services.Db.{Db}
use echo_services.Db.Bans.{ForbidKind, forbid_wire, is_live}

-- `s.contains('@')`
unfoldable pub contains_at : String → Bool
contains_at String.[] = false
contains_at (String.◌∷◌ c s) = eqb (code c) b'@' || contains_at s

pub record Ignore : Type 0 where
  pub mask : String
  pub reason : String
  pub expires : Option ℕ

-- `u32::MAX`
abbrev pub u32_max : ℕ
u32_max = 4294967295

-- How permissive a limit is: 0 means no limit.
abbrev pub allowance : ℕ → ℕ
allowance limit = if eqb limit 0 then u32_max else limit

-- `max_by_key`: the last of the largest
unfoldable pub max_by : {A : Type 0} → (A → ℕ) → Option A → List A → Option A
max_by key best [] = best
max_by key none (x ∷ xs) = max_by key (some x) xs
max_by key (some b) (x ∷ xs) = max_by key (some (if leb (key b) (key x) then x else b)) xs

unfoldable pub ignore_add : List Ignore → String → String → Option ℕ → List Ignore
ignore_add ignores mask reason expires =
    push (retain (λ (i : Ignore). not (eq_ignore_ascii_case i.mask mask)) ignores)
      (record { mask = mask; reason = reason; expires = expires })

unfoldable pub ignore_del : ℕ → List Ignore → String → List Ignore × Bool
ignore_del now ignores mask = (
  retain (λ (i : Ignore). not (eq_ignore_ascii_case i.mask mask)) ignores,
  any (λ (i : Ignore). eq_ignore_ascii_case i.mask mask && is_live now i.expires) ignores,
)

-- `lower` is `char::to_lowercase`.
module _ (lower : Char → List Char) where
  unfoldable pub is_forbidden : Db → ForbidKind → String → Option String
  is_forbidden db kind name =
      option_map (λ (f : Forbid). f.reason)
        (find (λ (f : Forbid). f.kind == forbid_wire kind && glob_match lower f.mask name)
          db.state.net.forbids)

  abbrev pub covers : String → SessionException → Bool
  covers ip e = glob_match lower (to_ascii_lowercase e.mask) (to_ascii_lowercase ip)

  unfoldable pub session_exception_for : Db → String → Option ℕ
  unfolding max_by
  session_exception_for db ip =
      max_by allowance none
        (map (λ (e : SessionException). e.limit) (retain (covers ip) db.state.net.sess_exceptions))

  -- A mask with an `@` is for `nick!*@host`, any other for the nick.
  unfoldable pub ignores_user : String → String → Ignore → Bool
  unfolding contains_at
  ignores_user nick host i =
      let m : String = to_ascii_lowercase i.mask in
      if contains_at m
      then glob_match lower m
          (append_str (to_ascii_lowercase nick) (append_str "!*@" (to_ascii_lowercase host)))
      else glob_match lower m (to_ascii_lowercase nick)

  unfoldable pub is_ignored : ℕ → List Ignore → String → String → List Ignore × Bool
  unfolding ignores_user
  is_ignored now ignores nick host =
      let live : List Ignore = retain (λ (i : Ignore). is_live now i.expires) ignores in
      (live, any (ignores_user nick host) live)
