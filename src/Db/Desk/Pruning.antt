-- ===== src/Db/Desk/Pruning.antt =====
-- The queues and the throttle of the desk, and the ids of juped servers
-- (src/engine/db/network.rs, src/engine/db/mod.rs).
use echo_services.Prelude.{
  ℕ, zero, suc, ◌+◌, ◌-◌, ◌*◌, ◌/◌, ◌%◌, ◌≤◌, ◌<◌, ◌≡◌, refl, sym, ap, ◌∙◌, ◌↔◌, ◌≢◌, inl, inr,
  code, String, Bool, true, false, not, none, some, List, [], ◌∷◌, eqb, ltb, if◌then◌else◌, any,
  Option, push, ◌^◌, retain, remove_at, length, option_map-some, Option-cases, Bool-cases, arith,
  if_rule, to_ascii_lowercase, append_str, eq_refl,
}
use echo_services.HashMap
use echo_services.Data.{Report}
use echo_services.HashMap.Laws.{get-insert}
use echo_services.Db.{Db, World}
use echo_services.Db.Noted.{note}
use echo_services.Db.Desk.Queues.{
  Times, too_soon, first_closed, prune_queue, max_queue, cooldown, report_file,
}
use echo_services.Db.Desk.Grants.{jupe_sid}
use echo_services.Db.Desk.Numbers.{length-prune-lt}

first_closed-there :
    {A : Type 0} (is_open : A → Bool) (q : List A)
    → any (λ x. not (is_open x)) q ≡ true
    → first_closed is_open q ≢ none
unfolding first_closed any
first_closed-there is_open [] h = λ e. cc
first_closed-there is_open (x ∷ q) h = ground (arith, first_closed-there is_open q)

retain-first_closed :
    {A : Type 0} (is_open : A → Bool) (q : List A) (i : ℕ)
    → first_closed is_open q ≡ some i
    → retain is_open (remove_at i q) ≡ retain is_open q
unfolding first_closed retain remove_at
retain-first_closed is_open [] i h = ground arith
retain-first_closed is_open (x ∷ q) zero h = ground arith
retain-first_closed is_open (x ∷ q) (suc i) h = elim (Bool-cases (is_open x)) [
  | inl o ↦
      let (j, e, k) = option_map-some (λ (i : ℕ). i + 1) (first_closed is_open q) (rw o at h) in
      rw o (ap (λ (l : List _). x ∷ l) (retain-first_closed is_open q i (e ∙ ground arith)))
  | inr c ↦ ground (arith, c)
]

prune-keeps :
    {A : Type 0} (is_open : A → Bool) (q : List A)
    → any (λ x. not (is_open x)) q ≡ true
    → retain is_open (prune_queue is_open q) ≡ retain is_open q
unfolding prune_queue
prune-keeps is_open q closed =
    if_rule (λ (r : List _). retain is_open r ≡ retain is_open q) (ltb (length q) max_queue)
      (λ _. refl)
      (λ _. elim (Option-cases (first_closed is_open q)) [
        | inl e ↦ absurd (first_closed-there is_open q closed e)
        | inr (i, e) ↦ rw e (retain-first_closed is_open q i e)
      ])

-- A queue of at most 2,000 entries has room for one more after pruning; and pruning takes away no
-- open entry, and does not change the order of those, as long as there is one that is closed.
pub prune_queue_lem :
    {A : Type 0} (is_open : A → Bool) (q : List A)
    → length q ≤ max_queue
    → (length (prune_queue is_open q) < max_queue)
      × (any (λ x. not (is_open x)) q ≡ true
          → retain is_open (prune_queue is_open q) ≡ retain is_open q)
prune_queue_lem is_open q h = (length-prune-lt is_open q h, prune-keeps is_open q)

-- The entry that was put in last
unfoldable pub newest : List Report → Option Report
newest [] = none
newest (r ∷ []) = some r
newest (r ∷ r' ∷ rs) = newest (r' ∷ rs)

newest-push : (rs : List Report) (r : Report) → newest (push rs r) ≡ some r
unfolding newest
newest-push [] r = refl
newest-push (x ∷ []) r = refl
newest-push (x ∷ y ∷ rs) r = newest-push (y ∷ rs) r

-- A report was taken: it has the number that was next, another one is next now, and it stands last
-- in the queue, open, with what was said and the time.
pub record Filed (w : World) (db : Db) (reporter target reason : String)
    (r : (Db × Times) × Option ℕ) : Type 0 where
  pub answered : r.1 ≡ some db.state.net.report_seq
  pub counted : r.0.0.state.net.report_seq ≡ (db.state.net.report_seq + 1) % 2 ^ 64
  pub filed :
      newest r.0.0.state.net.reports
      ≡ some (record {
        id = db.state.net.report_seq;
        reporter = reporter;
        target = target;
        reason = reason;
        ts = w.now;
        is_open = true;
      })

module _ (w : World) (db : Db) (times : Times) (reporter cooldown_key target reason : String) where
  report_file-times :
      too_soon w.now times (to_ascii_lowercase cooldown_key) ≡ false
      → (report_file w (db, times) reporter cooldown_key target reason).0.1
        ≡ HashMap.insert times (to_ascii_lowercase cooldown_key) w.now
  unfolding report_file
  report_file-times free = rw free refl

  report_file-refused :
      too_soon w.now times (to_ascii_lowercase cooldown_key) ≡ true
      → report_file w (db, times) reporter cooldown_key target reason ≡ ((db, times), none)
  unfolding report_file
  report_file-refused early = rw early refl

  report_file-taken :
      too_soon w.now times (to_ascii_lowercase cooldown_key) ≡ false
      → Filed w db reporter target reason
          (report_file w (db, times) reporter cooldown_key target reason)
  unfolding report_file note
  report_file-taken free =
      rw free (record { answered = refl; counted = refl; filed = newest-push _ _ })

too_soon-insert :
    (times : Times) (k : String) (now later : ℕ)
    → too_soon later (HashMap.insert times k now) k ≡ ltb (later - now) cooldown
unfolding too_soon
too_soon-insert times k now later = rw (get-insert times k now k) (rw (eq_refl k) refl)

-- A report under a key, in any casing, that is free is taken: it gets the number n that is next and
-- stands last in the queue, open. For the next thirty seconds a report under that key is refused,
-- and such a refusal changes nothing. From then on a report under it is taken again: it gets the
-- number n + 1, in 64 bits, and stands last in the queue, open.
pub report_file-again :
    (w w' : World) (db : Db) (times : Times)
    (reporter cooldown_key target reason reporter' cooldown_key' target' reason' : String)
    → too_soon w.now times (to_ascii_lowercase cooldown_key) ≡ false
    → to_ascii_lowercase cooldown_key' ≡ to_ascii_lowercase cooldown_key
    → w.now ≤ w'.now
    → let first = report_file w (db, times) reporter cooldown_key target reason in
      let second = report_file w' first.0 reporter' cooldown_key' target' reason' in
      Filed w db reporter target reason first
      × (w'.now < w.now + cooldown → second ≡ (first.0, none))
      × (w.now + cooldown ≤ w'.now
          → Filed w' first.0.0 reporter' target' reason' second
            × (second.1 ≡ some ((db.state.net.report_seq + 1) % 2 ^ 64)))
report_file-again w w' db times reporter cooldown_key target reason reporter' cooldown_key' target'
      reason' free same later =
    let s : Db × Times = (report_file w (db, times) reporter cooldown_key target reason).0 in
    let k : String = to_ascii_lowercase cooldown_key in
    let taken : Filed w db reporter target reason
        (report_file w (db, times) reporter cooldown_key target reason) =
      report_file-taken w db times reporter cooldown_key target reason free in
    let test : too_soon w'.now s.1 (to_ascii_lowercase cooldown_key')
        ≡ ltb (w'.now - w.now) cooldown =
      ap (too_soon w'.now s.1) same
      ∙ ap (λ ts. too_soon w'.now ts k)
          (report_file-times w db times reporter cooldown_key target reason free)
      ∙ too_soon-insert times k w.now w'.now in
    (
      taken,
      λ early.
          report_file-refused w' s.0 s.1 reporter' cooldown_key' target' reason'
            (test ∙ ground arith),
      λ late.
          let again : Filed w' s.0 reporter' target' reason'
              (report_file w' s reporter' cooldown_key' target' reason') =
            report_file-taken w' s.0 s.1 reporter' cooldown_key' target' reason'
              (test ∙ ground arith) in
          (again, again.answered ∙ ap some taken.counted),
    )

-- What a text of one digit and two digits to the base 36 counts to
abbrev digit : ℕ → ℕ
digit c = if ltb c b'A' then c - b'0' else c - 55

unfoldable pub sid_number : String → ℕ
sid_number (String.◌∷◌ a (String.◌∷◌ b (String.◌∷◌ c String.[]))) =
    36 * digit (code b) + digit (code c)
sid_number _ = 0

-- Each id up to the one of this count gives its count back.
counts_back : ℕ → Bool
counts_back zero = true
counts_back (suc n) = if eqb (sid_number (jupe_sid n)) n then counts_back n else false

counted : (n m : ℕ) → counts_back n ≡ true → m < n → sid_number (jupe_sid m) ≡ m
unfolding counts_back
counted zero m h k = absurd (omega arith)
counted (suc n) m h k = elim (Bool-cases (eqb m n)) [
  | inl e ↦ let same : m ≡ n = ground arith in rw same (ground arith)
  | inr other ↦ counted n m (ground arith) (ground arith)
]

all_counted : counts_back 1296 ≡ true
unfolding counts_back sid_number jupe_sid append_str
all_counted = refl

jupe_sid-mod : (n : ℕ) → jupe_sid n ≡ jupe_sid (n % 1296)
unfolding jupe_sid
jupe_sid-mod n =
    let high : n / 36 % 36 ≡ n % 1296 / 36 % 36 = omega arith in
    let low : n % 36 ≡ n % 1296 % 36 = omega arith in rw (high, low) refl

sid_number-jupe_sid : (n : ℕ) → sid_number (jupe_sid n) ≡ n % 1296
sid_number-jupe_sid n =
    ap sid_number (jupe_sid-mod n) ∙ counted 1296 (n % 1296) all_counted (omega arith)

-- The ids that two counts give to juped servers are the same exactly where the counts differ by a
-- multiple of 1296.
pub jupe_sid_iff : (n m : ℕ) → (jupe_sid n ≡ jupe_sid m) ↔ (n % 1296 ≡ m % 1296)
jupe_sid_iff n m = (
  λ same. sym (sid_number-jupe_sid n) ∙ ap sid_number same ∙ sid_number-jupe_sid m,
  λ same. jupe_sid-mod n ∙ ap jupe_sid same ∙ sym (jupe_sid-mod m),
)
