-- ===== src/Glob/Loop.antt =====
-- A rule for the loop of `glob_match`: with enough fuel it answers, and what its steps keep holds.
use echo_services.Prelude.{
  ℕ, zero, suc, ◌+◌, ◌*◌, ◌≤◌, ◌<◌, ◌≡◌, Char, Bool, true, false, Option, none, some, List, [], ◌∷◌,
  length, is_empty, arith, if_rule,
}
use echo_services.Glob.{is_star, accepts, Back, skip_stars, retry, loop}

-- An answer was reached, and the predicate holds of it.
abbrev pub Answers : (Bool → Type 0) → Option Bool → Type 0
Answers P none = ⊥
Answers P (some b) = P b

-- The pattern can neither take the character nor open a star.
abbrev pub Stuck : List Char → Char → Type 0
Stuck [] c = Unit {0}
Stuck (a ∷ p) c = (accepts a c ≡ false) × (is_star a ≡ false)

-- `k` is above the length of the pattern, `m` bounds the text that is left to retry.
abbrev pub BackFits : ℕ → ℕ → List Char → Back → Type 0
BackFits k m t none = Unit {0}
BackFits k m t (some (bp, mark)) = (length bp < k) × (length t ≤ length mark) × (length mark ≤ m)

pub record Fits (k f m : ℕ) (p t : List Char) (back : Back) : Type 0 where
  pub pattern_bound : length p < k
  pub text_bound : length t ≤ m
  pub saved : BackFits k m t back
  pub fuel : m * k + length p < f

module _ (k : ℕ) (Keeps : List Char → List Char → Back → Type 0) (P : Bool → Type 0)
    (at_end : (p : List Char) (back : Back) → Keeps p [] back → P (is_empty (skip_stars p)))
    (one : (a c : Char) (p t : List Char) (back : Back)
      → accepts a c ≡ true
      → Keeps (a ∷ p) (c ∷ t) back
      → Keeps p t back)
    (star : (a c : Char) (p t : List Char) (back : Back)
      → accepts a c ≡ false
      → is_star a ≡ true
      → Keeps (a ∷ p) (c ∷ t) back
      → Keeps p (c ∷ t) (some (p, c ∷ t)))
    (again : (c d : Char) (p t bp mark : List Char)
      → Stuck p c
      → Keeps p (c ∷ t) (some (bp, d ∷ mark))
      → Keeps bp mark (some (bp, mark)))
    (fails : (c : Char) (p t : List Char) → Stuck p c → Keeps p (c ∷ t) none → P false) where
  BackFits-one :
      (m : ℕ) (c : Char) (t : List Char) (back : Back)
      → BackFits k m (c ∷ t) back
      → BackFits k m t back
  BackFits-one m c t none h = tt
  BackFits-one m c t (some (bp, mark)) (h, i, j) = (h, omega arith, j)

  retry-Answers :
      {f : ℕ} (m : ℕ) {c : Char} {p t : List Char} (back : Back)
      → ((m' : ℕ) (p' t' : List Char) (b : Back)
          → Fits k f m' p' t' b
          → Keeps p' t' b
          → Answers P (loop f p' t' b))
      → Fits k (suc f) m p (c ∷ t) back
      → Keeps p (c ∷ t) back
      → Stuck p c
      → Answers P (retry back (loop f))
  unfolding retry
  retry-Answers m {c} {p} {t} none ih fit keep stuck = fails c p t stuck keep
  retry-Answers m (some (bp, [])) ih fit keep stuck = absurd (omega (arith, fit.saved.1))
  retry-Answers zero (some (bp, d ∷ mark)) ih fit keep stuck = absurd (omega (arith, fit.saved.2))
  retry-Answers (suc m) {c} {p} {t} (some (bp, d ∷ mark)) ih fit keep stuck =
      ih m bp mark (some (bp, mark))
        (record {
          pattern_bound = fit.saved.0;
          text_bound = omega (arith, fit.saved.2);
          saved = (fit.saved.0, omega arith, omega (arith, fit.saved.2));
          fuel = grind (arith, fit.fuel, fit.saved.0);
        })
        (again c d p t bp mark stuck keep)

  pub loop-Answers :
      (f m : ℕ) (p t : List Char) (back : Back)
      → Fits k f m p t back
      → Keeps p t back
      → Answers P (loop f p t back)
  unfolding loop
  loop-Answers zero m p t back fit keep = absurd (omega (arith, fit.fuel))
  loop-Answers (suc f) m p [] back fit keep = at_end p back keep
  loop-Answers (suc f) m [] (c ∷ t) back fit keep =
      retry-Answers m back (loop-Answers f) fit keep tt
  loop-Answers (suc f) m (a ∷ p) (c ∷ t) back fit keep =
      if_rule (Answers P) (accepts a c)
        (λ h.
          loop-Answers f m p t back
            (record {
              pattern_bound = omega (arith, fit.pattern_bound);
              text_bound = omega (arith, fit.text_bound);
              saved = BackFits-one m c t back fit.saved;
              fuel = omega (arith, fit.fuel);
            })
            (one a c p t back h keep))
        (λ h.
          if_rule (Answers P) (is_star a)
            (λ s.
              loop-Answers f m p (c ∷ t) (some (p, c ∷ t))
                (record {
                  pattern_bound = omega (arith, fit.pattern_bound);
                  text_bound = fit.text_bound;
                  saved = (omega (arith, fit.pattern_bound), omega arith, fit.text_bound);
                  fuel = omega (arith, fit.fuel);
                })
                (star a c p t back h s keep))
            (λ s. retry-Answers m back (loop-Answers f) fit keep (h, s)))

pub Fits-start :
    (p t : List Char) → Fits (length p + 1) ((length t + 1) * (length p + 1)) (length t) p t none
Fits-start p t = record {
  pattern_bound = omega arith;
  text_bound = omega arith;
  saved = tt;
  fuel = grind arith;
}
