-- ===== src/Counter/Exact.antt =====
-- What the windows count over a run of the detectors (src/engine/security/counter.rs).
use echo_services.Prelude.{
  ℕ, ◌+◌, ◌-◌, ◌%◌, ◌^◌, ◌≤◌, ◌≡◌, refl, ap, sym, ◌∙◌, inl, inr, String, Bool, false, ◌&&◌, ◌==◌,
  Option, none, some, List, [], ◌∷◌, leb, eqb, eq_iff, eq_refl, if◌then◌else◌, if_rule, is_some_and,
  unwrap_or, push, length, length-append, arith, Bool-cases, subst,
}
use echo_services.HashMap
use echo_services.HashMap.{HashMap}
use echo_services.HashMap.Laws.{get-insert}
use echo_services.HashMap.Unique.{Unique, insert-Unique, get-retain_values, retain-Unique}
use echo_services.Counter.{Counters, default_counters, expire, back, maybe_gc, hit, count}
use echo_services.Counter.Windows.{
  Ordered, since, Ordered-later, Ordered-push, Ordered-expire, since-push, since-anti,
  length-expire, since-expire, since-back,
}

-- How many events of the history are of this key and not before `from`
unfoldable pub within : ℕ → String → List (String × ℕ) → ℕ
within from key [] = 0
within from key ((k, t) ∷ past) = (if k == key && leb from t then 1 else 0) + within from key past

-- The window of a key, which is empty before its first event
abbrev window : HashMap (List ℕ) → String → List ℕ
window m k = unwrap_or (HashMap.get m k) []

-- An event of another key is not counted, one of the key is, from its time on.
past-other :
    (d : ℕ) (k key : String) (t : ℕ) (past : List (String × ℕ))
    → (key == k) ≡ false
    → within d k ((key, t) ∷ past) ≡ within d k past
unfolding within
past-other d k key t past e = rw e (omega arith)

past-same :
    (d : ℕ) (key : String) (t : ℕ) (past : List (String × ℕ))
    → within d key ((key, t) ∷ past) ≡ (if leb d t then 1 else 0) + within d key past
unfolding within
past-same d key t past = rw (eq_refl key) refl

since-none : (d : ℕ) → since d [] ≡ 0
unfolding since
since-none d = refl

-- `life` is how long each key's events count.
module _ (life : String → ℕ) where
  -- The windows at a time, with the history of events
  pub record Counts (m : HashMap (List ℕ)) (past : List (String × ℕ)) (now : ℕ) : Type 0 where
    pub unique : Unique m
    pub ordered : (k : String) → Ordered now (window m k)
    pub agrees : (k : String) (d : ℕ) → now - life k ≤ d → since d (window m k) ≡ within d k past

  -- A map whose windows are the given ones, but for one key
  Counts-insert :
      (m : HashMap (List ℕ)) (past past' : List (String × ℕ)) (now now' : ℕ) (key : String)
      (w : List ℕ)
      → now ≤ now'
      → Ordered now' w
      → ((k : String) (d : ℕ) → (key == k) ≡ false → within d k past' ≡ within d k past)
      → ((d : ℕ) → now' - life key ≤ d → since d w ≡ within d key past')
      → Counts m past now
      → Counts (HashMap.insert m key w) past' now'
  Counts-insert m past past' now now' key w later ordered others counted c = record {
    unique = insert-Unique m key w c.unique;
    ordered = λ k. elim (Bool-cases (key == k)) [
      | inl e ↦ rw (get-insert m key w k) (rw e ordered)
      | inr e ↦ rw (get-insert m key w k) (rw e (Ordered-later now now' _ later (c.ordered k)))
    ];
    agrees = λ k d h. elim (Bool-cases (key == k)) [
      | inl e ↦
          let same : key ≡ k = (eq_iff key k).0 e in
          rw (get-insert m key w k) (
            rw e (
              subst (λ j. since d w ≡ within d j past') same
                (counted d (subst (λ j. now' - life j ≤ d) (sym same) h))))
      | inr e ↦
          rw (get-insert m key w k)
            (rw e (c.agrees k d (omega (arith, later, h)) ∙ sym (others k d e)))
    ];
  }

  -- Dropping the windows without an event in the last hour changes no count, as no key's events
  -- count for longer than that.
  Counts-retain :
      (m : HashMap (List ℕ)) (past : List (String × ℕ)) (now : ℕ)
      → ((k : String) → life k ≤ 3600)
      → Counts m past now
      → Counts
          (HashMap.retain_values (λ w. is_some_and (back w) (λ t. leb (now - 3600) t)) m)
          past
          now
  Counts-retain m past now short c = record {
    unique = retain-Unique _ m c.unique;
    ordered = λ k. ordered k (HashMap.get m k) (get-retain_values _ m k c.unique) (c.ordered k);
    agrees = λ k d h.
        agrees k d h (HashMap.get m k) (get-retain_values _ m k c.unique) (c.ordered k)
          (c.agrees k d h);
  }
    where
      recent : List ℕ → Bool
      recent w = is_some_and (back w) (λ t. leb (now - 3600) t)

      ordered :
          (k : String) (o : Option (List ℕ)) {r : Option (List ℕ)}
          → r ≡ (elim o [ none ↦ none | some w ↦ if recent w then some w else none ])
          → Ordered now (unwrap_or o [])
          → Ordered now (unwrap_or r [])
      ordered k none e o = rw e tt
      ordered k (some w) e o = elim (Bool-cases (recent w)) [
        | inl kept ↦ rw e (rw kept o)
        | inr gone ↦ rw e (rw gone tt)
      ]

      agrees :
          (k : String) (d : ℕ)
          → now - life k ≤ d
          → (o : Option (List ℕ)) {r : Option (List ℕ)}
          → r ≡ (elim o [ none ↦ none | some w ↦ if recent w then some w else none ])
          → Ordered now (unwrap_or o [])
          → since d (unwrap_or o []) ≡ within d k past
          → since d (unwrap_or r []) ≡ within d k past
      agrees k d h none e o a = rw e a
      agrees k d h (some w) e o a = elim (Bool-cases (recent w)) [
        | inl kept ↦ rw e (rw kept a)
        | inr gone ↦ rw e (
            rw gone (
              since-none d
              ∙ omega (
                arith,
                a,
                since-back now (now - 3600) w o gone,
                since-anti (now - 3600) d w (omega (arith, short k, h)),
              )))
      ]

  gc-Counts :
      (c : Counters) (past : List (String × ℕ)) (now : ℕ)
      → ((k : String) → life k ≤ 3600)
      → Counts c.windows past now
      → Counts (maybe_gc c now).windows past now
  unfolding maybe_gc
  gc-Counts c past now short h =
      if_rule (λ (r : Counters). Counts r.windows past now) (eqb ((c.ops + 1) % 2 ^ 32 % 1024) 0)
        (λ _. Counts-retain c.windows past now short h) (λ _. h)

  -- The windows after some calls, the events that they were told of, and the time of the last call.
  -- Time does not run backwards, and a key's events always count for the same while.
  pub data Ran : Counters → List (String × ℕ) → ℕ → Type 0 where
    start : Ran default_counters [] 0
    hits :
        {c : Counters} {past : List (String × ℕ)} {now : ℕ}
        → Ran c past now
        → (key : String) (now' : ℕ) → now ≤ now'
        → Ran (hit c key now' (life key)).0 ((key, now') ∷ past) now'
    looks :
        {c : Counters} {past : List (String × ℕ)} {now : ℕ}
        → Ran c past now
        → (key : String) (now' : ℕ) → now ≤ now'
        → Ran (count c key now' (life key)).0 past now'

  hit-Counts :
      (c : Counters) (past : List (String × ℕ)) (now : ℕ)
      → ((k : String) → life k ≤ 3600)
      → (key : String) (now' : ℕ) → now ≤ now'
      → Counts c.windows past now
      → Counts (hit c key now' (life key)).0.windows ((key, now') ∷ past) now'
  unfolding hit
  hit-Counts c past now short key now' later h =
      gc-Counts (record c { windows = HashMap.insert c.windows key w }) ((key, now') ∷ past) now'
        short
        (Counts-insert c.windows past ((key, now') ∷ past) now now' key w later
          (Ordered-push now' _
            (Ordered-expire now' _ _ (Ordered-later now now' _ later (h.ordered key))))
          (λ k d e. past-other d k key now' past e)
          (λ d cut.
            since-push d (expire (now' - life key) (window c.windows key)) now'
            ∙ omega (
              arith,
              since-expire (now' - life key) d (window c.windows key) cut,
              h.agrees key d (omega (arith, later, cut)),
              past-same d key now' past,
            ))
          h)
    where
      w : List ℕ
      w = push (expire (now' - life key) (window c.windows key)) now'

  count-Counts :
      (c : Counters) (past : List (String × ℕ)) (now : ℕ) (key : String) (now' : ℕ)
      → now ≤ now'
      → Counts c.windows past now
      → Counts (count c key now' (life key)).0.windows past now'
  unfolding count
  count-Counts c past now key now' later h = go (HashMap.get c.windows key) refl
    where
      go :
          (o : Option (List ℕ))
          → HashMap.get c.windows key ≡ o
          → Counts (count c key now' (life key)).0.windows past now'
      go none e =
          rw (e, count)
            (record {
              unique = h.unique;
              ordered = λ k. Ordered-later now now' _ later (h.ordered k);
              agrees = λ k d cut. h.agrees k d (omega (arith, later, cut));
            })
      go (some w) e =
          let o : Ordered now w = rw e at (h.ordered key) in
          rw (e, count)
            (Counts-insert c.windows past past now now' key (expire (now' - life key) w) later
              (Ordered-expire now' _ _ (Ordered-later now now' _ later o)) (λ k d f. refl)
              (λ d cut.
                since-expire (now' - life key) d w cut
                ∙ rw e at (h.agrees key d (omega (arith, later, cut))))
              h)

  Ran-Counts :
      {c : Counters} {past : List (String × ℕ)} {now : ℕ}
      → ((k : String) → life k ≤ 3600)
      → Ran c past now
      → Counts c.windows past now
  unfolding HashMap.get since within
  Ran-Counts short start = record { unique = tt; ordered = λ k. tt; agrees = λ k d h. refl }
  Ran-Counts short (hits {c = c} {past = past} {now = now} r key now' later) =
      hit-Counts c past now short key now' later (Ran-Counts short r)
  Ran-Counts short (looks {c = c} {past = past} {now = now} r key now' later) =
      count-Counts c past now key now' later (Ran-Counts short r)

  module _ (c : Counters) (past : List (String × ℕ)) (now : ℕ) (h : Counts c.windows past now)
      (key : String) (now' : ℕ) (later : now ≤ now') where
    length-window :
        length (expire (now' - life key) (window c.windows key)) ≡ within (now' - life key) key past
    length-window =
        length-expire now' (now' - life key) (window c.windows key)
          (Ordered-later now now' _ later (h.ordered key))
        ∙ h.agrees key (now' - life key) (omega (arith, later))

    hit-exact : (hit c key now' (life key)).1 ≡ (within (now' - life key) key past + 1) % 2 ^ 32
    unfolding hit
    hit-exact =
        ap (λ (n : ℕ). n % 2 ^ 32)
          (length-append (expire (now' - life key) (window c.windows key)) (now' ∷ [])
            ∙ ap (λ (n : ℕ). n + 1) length-window)

    count-exact : (count c key now' (life key)).1 ≡ within (now' - life key) key past % 2 ^ 32
    unfolding count
    count-exact = go (HashMap.get c.windows key) refl
      where
        go :
            (o : Option (List ℕ))
            → HashMap.get c.windows key ≡ o
            → (count c key now' (life key)).1 ≡ within (now' - life key) key past % 2 ^ 32
        go none e = rw (e, count) (ap (λ (n : ℕ). n % 2 ^ 32) (rw (e, expire) at length-window))
        go (some w) e = rw (e, count) (ap (λ (n : ℕ). n % 2 ^ 32) (rw e at length-window))

  -- After any calls with a clock that does not run backwards, and as long as each key has a while of
  -- its own, of at most an hour: an event counts itself and the earlier events of its key within the
  -- last while, and a look at a key counts the events of that key within it, both in 32 bits. So
  -- neither expiry nor the clearing of idle windows ever loses an event that still counts.
  pub Ran-exact :
      {c : Counters} {past : List (String × ℕ)} {now : ℕ}
      → ((k : String) → life k ≤ 3600)
      → Ran c past now
      → (key : String) (now' : ℕ) → now ≤ now'
      → ((hit c key now' (life key)).1 ≡ (within (now' - life key) key past + 1) % 2 ^ 32)
        × ((count c key now' (life key)).1 ≡ within (now' - life key) key past % 2 ^ 32)
  Ran-exact {c = c} {past = past} {now = now} short r key now' later = (
    hit-exact c past now (Ran-Counts short r) key now' later,
    count-exact c past now (Ran-Counts short r) key now' later,
  )
