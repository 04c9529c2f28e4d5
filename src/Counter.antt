-- ===== src/Counter.antt =====
-- The sliding windows of the connection and flood detectors (src/engine/security/counter.rs).
pub mod Windows
pub mod Exact
use echo_services.Prelude.{
  ℕ, ◌+◌, ◌-◌, ◌%◌, ◌^◌, String, Bool, true, false, Option, none, some, List, [], ◌∷◌, ltb, leb,
  eqb, if◌then◌else◌, is_some_and, unwrap_or, push, length,
}
use echo_services.HashMap
use echo_services.HashMap.{HashMap}

-- `windows` holds the times of each key's events, oldest first.
pub record Counters : Type 0 where
  pub windows : HashMap (List ℕ)
  pub ops : ℕ

-- `Counters::default()`
abbrev pub default_counters : Counters
default_counters = record { windows = []; ops = 0 }

-- `while w.at.front().is_some_and(|&t| t < cutoff) { w.at.pop_front(); }`
unfoldable pub expire : ℕ → List ℕ → List ℕ
expire cutoff [] = []
expire cutoff (t ∷ ts) = if ltb t cutoff then expire cutoff ts else t ∷ ts

-- `w.at.back()`
unfoldable pub back : List ℕ → Option ℕ
back [] = none
back (t ∷ []) = some t
back (t ∷ u ∷ ts) = back (u ∷ ts)

-- Every 1024th event drops the windows with no event in the last hour.
unfoldable pub maybe_gc : Counters → ℕ → Counters
unfolding back
maybe_gc c now =
    let ops : ℕ = (c.ops + 1) % 2 ^ 32 in
    if eqb (ops % 1024) 0
    then record {
      windows =
          HashMap.retain_values (λ w. is_some_and (back w) (λ t. leb (now - 3600) t)) c.windows;
      ops = ops;
    }
    else record c { ops = ops }

unfoldable pub hit : Counters → String → ℕ → ℕ → Counters × ℕ
unfolding expire maybe_gc
hit c key now life =
    let w : List ℕ = push (expire (now - life) (unwrap_or (HashMap.get c.windows key) [])) now in
    (maybe_gc (record c { windows = HashMap.insert c.windows key w }) now, length w % 2 ^ 32)

unfoldable pub count : Counters → String → ℕ → ℕ → Counters × ℕ
unfolding expire
count c key now life = elim (HashMap.get c.windows key) [
  | none ↦ (c, 0)
  | some w ↦ (
    record c { windows = HashMap.insert c.windows key (expire (now - life) w) },
    length (expire (now - life) w) % 2 ^ 32,
  )
]
