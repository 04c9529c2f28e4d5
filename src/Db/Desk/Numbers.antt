-- ===== src/Db/Desk/Numbers.antt =====
-- The numbers of news, reports and tickets, and the bound on the queues
-- (src/engine/db/network.rs).
use echo_services.Prelude.{
  ℕ, zero, suc, ◌+◌, ◌≤◌, ◌<◌, ◌≡◌, refl, Bool, false, some, List, [], ◌∷◌, eqb, ltb, any, push,
  retain, modify_first, remove_at, length, option_map-some, Option-cases, arith, Bool-cases, inl,
  inr, if_rule, sym, subst,
}
use echo_services.Data.{NetData, News, Report, HelpTicket}
use echo_services.Db.Desk.Queues.{first_closed, prune_queue, max_queue}

module _ {A : Type 0} (id : A → ℕ) where
  abbrev Above : ℕ → List A → Type 0
  Above i [] = Unit {0}
  Above i (x ∷ xs) = (i < id x) × Above i xs

  -- The numbers rise along the list and stay below `n`.
  abbrev pub Rising : ℕ → List A → Type 0
  Rising n [] = Unit {0}
  Rising n (x ∷ xs) = (id x < n) × Above (id x) xs × Rising n xs

  Above-push : (i : ℕ) (xs : List A) (x : A) → Above i xs → i < id x → Above i (push xs x)
  Above-push i [] x h k = (k, tt)
  Above-push i (y ∷ xs) x h k = (h.0, Above-push i xs x h.1 k)

  pub Rising-push :
      (n m : ℕ) (xs : List A) (x : A) → id x ≡ n → n < m → Rising n xs → Rising m (push xs x)
  Rising-push n m [] x e k h = (omega arith, tt, tt)
  Rising-push n m (y ∷ xs) x e k h = (
    omega (arith, h.0),
    Above-push (id y) xs x h.1 (omega (arith, h.0)),
    Rising-push n m xs x e k h.2,
  )

  Above-retain : (i : ℕ) (p : A → Bool) (xs : List A) → Above i xs → Above i (retain p xs)
  unfolding retain
  Above-retain i p [] h = tt
  Above-retain i p (x ∷ xs) h =
      if_rule (Above i) (p x) (λ _. (h.0, Above-retain i p xs h.1)) (λ _. Above-retain i p xs h.1)

  pub Rising-retain : (n : ℕ) (p : A → Bool) (xs : List A) → Rising n xs → Rising n (retain p xs)
  unfolding retain
  Rising-retain n p [] h = tt
  Rising-retain n p (x ∷ xs) h =
      if_rule (Rising n) (p x) (λ _. (h.0, Above-retain (id x) p xs h.1, Rising-retain n p xs h.2))
        (λ _. Rising-retain n p xs h.2)

  Above-remove_at : (i j : ℕ) (xs : List A) → Above i xs → Above i (remove_at j xs)
  unfolding remove_at
  Above-remove_at i zero [] h = tt
  Above-remove_at i (suc j) [] h = tt
  Above-remove_at i zero (x ∷ xs) h = h.1
  Above-remove_at i (suc j) (x ∷ xs) h = (h.0, Above-remove_at i j xs h.1)

  Rising-remove_at : (n j : ℕ) (xs : List A) → Rising n xs → Rising n (remove_at j xs)
  unfolding remove_at
  Rising-remove_at n zero [] h = tt
  Rising-remove_at n (suc j) [] h = tt
  Rising-remove_at n zero (x ∷ xs) h = h.2
  Rising-remove_at n (suc j) (x ∷ xs) h =
      (h.0, Above-remove_at (id x) j xs h.1, Rising-remove_at n j xs h.2)

  pub Rising-prune :
      (n : ℕ) (is_open : A → Bool) (q : List A) → Rising n q → Rising n (prune_queue is_open q)
  unfolding prune_queue
  Rising-prune n is_open q h =
      if_rule (Rising n) (ltb (length q) max_queue) (λ _. h) (λ _. Rising-remove_at n _ q h)

  Above-modify :
      (i : ℕ) (p : A → Bool) (f : A → A) (xs : List A)
      → ((x : A) → id (f x) ≡ id x)
      → Above i xs
      → Above i (modify_first p f xs)
  unfolding modify_first
  Above-modify i p f [] same h = tt
  Above-modify i p f (x ∷ xs) same h =
      if_rule (Above i) (p x) (λ _. (omega (arith, same x, h.0), h.1))
        (λ _. (h.0, Above-modify i p f xs same h.1))

  pub Rising-modify :
      (n : ℕ) (p : A → Bool) (f : A → A) (xs : List A)
      → ((x : A) → id (f x) ≡ id x)
      → Rising n xs
      → Rising n (modify_first p f xs)
  unfolding modify_first
  Rising-modify n p f [] same h = tt
  Rising-modify n p f (x ∷ xs) same h =
      if_rule (Rising n) (p x)
        (λ _. (omega (arith, same x, h.0), subst (λ i. Above i xs) (sym (same x)) h.1, h.2))
        (λ _. (h.0, Above-modify (id x) p f xs same h.1, Rising-modify n p f xs same h.2))

  -- The next number is not taken.
  pub Rising-fresh : (n : ℕ) (xs : List A) → Rising n xs → any (λ x. eqb (id x) n) xs ≡ false
  unfolding any
  Rising-fresh n [] h = refl
  Rising-fresh n (x ∷ xs) h = ground (arith, h.0, Rising-fresh n xs h.2)

  length-remove_at-lt : (j : ℕ) (q : List A) → j < length q → length (remove_at j q) < length q
  unfolding remove_at
  length-remove_at-lt j [] h = absurd (omega arith)
  length-remove_at-lt zero (x ∷ q) h = omega arith
  length-remove_at-lt (suc j) (x ∷ q) h = omega (arith, length-remove_at-lt j q)

length-first_closed :
    {A : Type 0} (is_open : A → Bool) (q : List A) (i : ℕ)
    → first_closed is_open q ≡ some i
    → i < length q
unfolding first_closed
length-first_closed is_open [] i h = ground arith
length-first_closed is_open (x ∷ q) i h = elim (Bool-cases (is_open x)) [
  | inl o ↦
      let (j, e, k) = option_map-some (λ (i : ℕ). i + 1) (first_closed is_open q) (rw o at h) in
      omega (arith, length-first_closed is_open q j e)
  | inr c ↦ ground (arith, c)
]

-- A queue within its bound has room for one more after pruning.
pub length-prune-lt :
    {A : Type 0} (is_open : A → Bool) (q : List A)
    → length q ≤ max_queue
    → length (prune_queue is_open q) < max_queue
unfolding prune_queue
length-prune-lt is_open q h =
    if_rule (λ (r : List _). length r < max_queue) (ltb (length q) max_queue) (λ lt. ground arith)
      (λ full. elim (Option-cases (first_closed is_open q)) [
        | inl e ↦ rw e (omega (arith, length-remove_at-lt (λ _. 0) 0 q (ground arith)))
        | inr (i, e) ↦
            rw e
              (omega (arith, length-remove_at-lt (λ _. 0) i q (length-first_closed is_open q i e)))
      ])

pub prune_queue-short :
    {A : Type 0} (is_open : A → Bool) (q : List A)
    → length q < max_queue
    → prune_queue is_open q ≡ q
unfolding prune_queue
prune_queue-short is_open q h = ground arith

-- The news, the reports and the tickets each stand in the order of their numbers, no number is used
-- twice, and the next one is above all; a queue holds at most 2,000 entries.
pub record IsNumbered (net : NetData) : Type 0 where
  pub news : Rising (λ (n : News). n.id) net.news_seq net.news
  pub reports : Rising (λ (r : Report). r.id) net.report_seq net.reports
  pub help : Rising (λ (t : HelpTicket). t.id) net.help_seq net.help
  pub reports_bound : length net.reports ≤ max_queue
  pub help_bound : length net.help ≤ max_queue
