-- ===== src/Data/Profiles.antt =====
-- The public profile: its fields, their names and their writes (src/engine/db/mod.rs, api/src/lib.rs).
use echo_services.Prelude.{String, Option, none, some, eq_ignore_ascii_case, if◌then◌else◌}
use echo_services.Data.Accounts.{Profile}

pub data ProfileField : Type 0 where
  avatar bio pronouns timezone url : ProfileField

-- `ProfileField::parse`. The source compares the upper-cased text with upper-case words, which
-- is the comparison that ignores case.
unfoldable pub parse : String → Option ProfileField
parse s =
    if eq_ignore_ascii_case s "AVATAR"
    then some avatar
    else if eq_ignore_ascii_case s "BIO"
    then some bio
    else if eq_ignore_ascii_case s "PRONOUNS"
    then some pronouns
    else if eq_ignore_ascii_case s "TIMEZONE"
    then some timezone
    else if eq_ignore_ascii_case s "TZ"
    then some timezone
    else if eq_ignore_ascii_case s "URL"
    then some url
    else if eq_ignore_ascii_case s "WEBSITE"
    then some url
    else none

-- `Profile::set`
unfoldable pub set : Profile → ProfileField → Option String → Profile
set p avatar value = record p { avatar = value }
set p bio value = record p { bio = value }
set p pronouns value = record p { pronouns = value }
set p timezone value = record p { timezone = value }
set p url value = record p { url = value }

-- `Profile::get`
unfoldable pub get : Profile → ProfileField → Option String
get p avatar = p.avatar
get p bio = p.bio
get p pronouns = p.pronouns
get p timezone = p.timezone
get p url = p.url
