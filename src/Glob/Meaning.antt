-- ===== src/Glob/Meaning.antt =====
-- What `glob_match` decides: the textbook meaning of a mask, and where the matcher keeps to it.
use echo_services.Prelude.{
  ℕ, suc, ◌+◌, ◌*◌, ◌≡◌, refl, Char, String, Bool, true, false, ◌&&◌, ◌||◌, Bool-cases, ◌∙◌, sym,
  subst, inl, inr, Option, none, some, List, [], ◌∷◌, length, drop, is_empty, arith, if◌then◌else◌,
  if_rule,
}
use echo_services.Glob.{is_star, accepts, Back, skip_stars, retry, loop, glob, lowered, glob_match}
use echo_services.Glob.Loop.{Answers, Stuck, loop-Answers, Fits-start}

-- Some end part of the text meets the test.
unfoldable pub any_suffix : (List Char → Bool) → List Char → Bool
any_suffix q [] = q []
any_suffix q (c ∷ t) = q (c ∷ t) || any_suffix q t

-- The meaning of a mask: a star stands for any run, a `?` for one character, and any other
-- character for itself.
unfoldable pub matches : List Char → List Char → Bool
unfolding any_suffix accepts
matches [] t = is_empty t
matches (a ∷ p) [] = is_star a && matches p []
matches (a ∷ p) (c ∷ t) =
    if is_star a then any_suffix (matches p) (c ∷ t) else accepts a c && matches p t

-- No star stands in the text.
abbrev pub NoStar : List Char → Type 0
NoStar [] = Unit {0}
NoStar (c ∷ t) = (is_star c ≡ false) × NoStar t

any_suffix-here : (q : List Char → Bool) (t : List Char) → q t ≡ true → any_suffix q t ≡ true
unfolding any_suffix
any_suffix-here q [] h = h
any_suffix-here q (c ∷ t) h = ground (arith, h)

any_suffix-cons :
    (q : List Char → Bool) (c : Char) (t : List Char)
    → any_suffix q t ≡ true
    → any_suffix q (c ∷ t) ≡ true
unfolding any_suffix
any_suffix-cons q c t h = ground (arith, h)

-- A star before the pattern lets the match begin anywhere.
matches-star :
    (a : Char) (p t : List Char) → is_star a ≡ true → matches (a ∷ p) t ≡ any_suffix (matches p) t
unfolding matches any_suffix
matches-star a p [] h = ground (arith, h)
matches-star a p (c ∷ t) h = ground (arith, h)

skip_stars-matches : (p : List Char) → is_empty (skip_stars p) ≡ matches p []
unfolding skip_stars matches
skip_stars-matches [] = refl
skip_stars-matches (a ∷ p) = ground (arith, skip_stars-matches p)

-- A mask that cannot start on the character does not match.
Stuck-matches : (p : List Char) (c : Char) (t : List Char) → Stuck p c → matches p (c ∷ t) ≡ false
unfolding matches
Stuck-matches [] c t h = refl
Stuck-matches (a ∷ p) c t (h, s) = rw (h, s)

matches-one :
    (a c : Char) (p t : List Char)
    → accepts a c ≡ true
    → matches p t ≡ true
    → matches (a ∷ p) (c ∷ t) ≡ true
unfolding matches
matches-one a c p t h k =
    if_rule (λ b. b ≡ true) (is_star a)
      (λ s. any_suffix-cons (matches p) c t (any_suffix-here (matches p) t k)) (λ s. rw (h, k))

-- Every match from the point to go back to is a match of the whole.
abbrev SavedSound : Type 0 → Back → Type 0
SavedSound G none = Unit {0}
SavedSound G (some (bp, mark)) = any_suffix (matches bp) mark ≡ true → G

module _ (G : Type 0) where
  abbrev Sound : List Char → List Char → Back → Type 0
  Sound p t back = (matches p t ≡ true → G) × SavedSound G back

  sound-Answers :
      (p t : List Char) → (matches p t ≡ true → G) → Answers (λ b. b ≡ true → G) (glob p t)
  unfolding glob
  sound-Answers p t h =
      loop-Answers (length p + 1) Sound (λ b. b ≡ true → G)
        (λ p back k e. k.0 (rw (← skip_stars-matches p) e))
        (λ a c p t back acc k. (λ e. k.0 (matches-one a c p t acc e), k.1))
        (λ a c p t back acc s k. (
          λ e. k.0 (matches-star a p (c ∷ t) s ∙ any_suffix-here (matches p) (c ∷ t) e),
          λ e. k.0 (matches-star a p (c ∷ t) s ∙ e),
        ))
        (λ c d p t bp mark stuck k. (
          λ e. k.1 (any_suffix-cons (matches bp) d mark (any_suffix-here (matches bp) mark e)),
          λ e. k.1 (any_suffix-cons (matches bp) d mark e),
        ))
        (λ c p t stuck k e. cc) _ (length t) p t none (Fits-start p t) (h, tt)

accepted-not-star : (a c : Char) → accepts a c ≡ true → is_star c ≡ false → is_star a ≡ false
unfolding accepts
accepted-not-star a c h s = ground arith

-- One character less of the mask needs one character less of the text.
any_suffix-shift :
    (a : Char) (p t : List Char)
    → is_star a ≡ false
    → any_suffix (matches (a ∷ p)) t ≡ true
    → any_suffix (matches p) (drop 1 t) ≡ true
unfolding any_suffix matches
any_suffix-shift a p [] s h = ground arith
any_suffix-shift a p (c ∷ []) s h = ground (arith, s, h)
any_suffix-shift a p (c ∷ d ∷ t) s h =
    ground (arith, any_suffix-here (matches p) (d ∷ t), any_suffix-shift a p (d ∷ t) s)

-- Two stars in a row mean one.
any_suffix-twice :
    (a : Char) (p t : List Char)
    → is_star a ≡ true
    → any_suffix (matches (a ∷ p)) t ≡ true
    → any_suffix (matches p) t ≡ true
unfolding any_suffix
any_suffix-twice a p [] s h = rw (← matches-star a p [] s) h
any_suffix-twice a p (c ∷ t) s h = elim (Bool-cases (matches (a ∷ p) (c ∷ t))) [
  | inl e ↦ rw (matches-star a p (c ∷ t) s) at e
  | inr e ↦ any_suffix-cons (matches p) c t (any_suffix-twice a p t s (rw e at h))
]

-- What going back would find
abbrev alt : Back → Bool
alt none = false
alt (some (bp, mark)) = any_suffix (matches bp) (drop 1 mark)

abbrev NoStarBack : Back → Type 0
NoStarBack none = Unit {0}
NoStarBack (some (bp, mark)) = NoStar mark

module _ (answer : Bool) where
  record Exact (p t : List Char) (back : Back) : Type 0 where
    answer_lem : answer ≡ (matches p t || alt back)
    later : alt back ≡ true → any_suffix (matches p) t ≡ true
    text : NoStar t
    marked : NoStarBack back

  Exact-end : (p : List Char) (back : Back) → Exact p [] back → answer ≡ is_empty (skip_stars p)
  unfolding any_suffix
  Exact-end p back e = ground (arith, e.answer_lem, e.later, skip_stars-matches p)

  Exact-one :
      (a c : Char) (p t : List Char) (back : Back)
      → accepts a c ≡ true
      → Exact (a ∷ p) (c ∷ t) back
      → Exact p t back
  unfolding matches
  Exact-one a c p t back h e =
      let plain : is_star a ≡ false = accepted-not-star a c h e.text.0 in
      record {
        answer_lem = rw (plain, h) at (e.answer_lem);
        later = λ k. any_suffix-shift a p (c ∷ t) plain (e.later k);
        text = e.text.1;
        marked = e.marked;
      }

  Exact-star :
      (a c : Char) (p t : List Char) (back : Back)
      → accepts a c ≡ false
      → is_star a ≡ true
      → Exact (a ∷ p) (c ∷ t) back
      → Exact p (c ∷ t) (some (p, c ∷ t))
  unfolding any_suffix
  Exact-star a c p t back h s e = record {
    answer_lem =
        ground (
          arith,
          e.answer_lem,
          matches-star a p (c ∷ t) s,
          e.later,
          any_suffix-twice a p (c ∷ t) s,
        );
    later = λ k. any_suffix-cons (matches p) c t k;
    text = e.text;
    marked = e.text;
  }

  Exact-again :
      (c d : Char) (p t bp mark : List Char)
      → Stuck p c
      → Exact p (c ∷ t) (some (bp, d ∷ mark))
      → Exact bp mark (some (bp, mark))
  unfolding any_suffix
  Exact-again c d p t bp [] stuck e = record {
    answer_lem = ground (arith, e.answer_lem, Stuck-matches p c t stuck);
    later = λ k. k;
    text = tt;
    marked = tt;
  }
  Exact-again c d p t bp (x ∷ mark) stuck e = record {
    answer_lem = ground (arith, e.answer_lem, Stuck-matches p c t stuck);
    later = λ k. any_suffix-cons (matches bp) x mark k;
    text = e.marked.1;
    marked = e.marked.1;
  }

  exact-Answers :
      (p t : List Char) → answer ≡ matches p t → NoStar t → Answers (λ b. answer ≡ b) (glob p t)
  unfolding glob
  exact-Answers p t h plain =
      loop-Answers (length p + 1) Exact (λ b. answer ≡ b) Exact-end Exact-one Exact-star Exact-again
        (λ c p t stuck e. ground (arith, e.answer_lem, Stuck-matches p c t stuck)) _ (length t) p t
        none (Fits-start p t)
        (record { answer_lem = ground arith; later = λ k. cc; text = plain; marked = tt })

Answers-some : {P : Bool → Type 0} (o : Option Bool) → Answers P o → (b : Bool) × (o ≡ some b) × P b
Answers-some none h = absurd h
Answers-some (some b) h = (b, refl, h)

-- For every mask and text the loops end within (length of the text + 1) × (length of the mask + 1)
-- rounds with an answer, and where that answer is yes, the mask matches the text.
pub glob_sound :
    (p t : List Char) → (b : Bool) × (glob p t ≡ some b) × (b ≡ true → matches p t ≡ true)
glob_sound p t = Answers-some (glob p t) (sound-Answers (matches p t ≡ true) p t (λ e. e))

-- On a text in which no `*` stands, the answer of `glob_match` is exactly the meaning of the mask.
pub glob_match_exact :
    (lower : Char → List Char) (pattern text : String)
    → NoStar (lowered lower text)
    → glob_match lower pattern text ≡ matches (lowered lower pattern) (lowered lower text)
unfolding glob_match
glob_match_exact lower pattern text plain =
    let (b, run, e) =
      Answers-some {P = λ b. matches (lowered lower pattern) (lowered lower text) ≡ b}
        (glob (lowered lower pattern) (lowered lower text))
        (exact-Answers (matches (lowered lower pattern) (lowered lower text))
          (lowered lower pattern) (lowered lower text) refl plain) in
    rw run (sym e)

any_suffix-empty : (t : List Char) → any_suffix (matches []) t ≡ true
unfolding any_suffix matches
any_suffix-empty [] = refl
any_suffix-empty (c ∷ t) = any_suffix-empty t

star-loop :
    (f : ℕ) (a c d : Char) (t : List Char)
    → is_star a ≡ true
    → is_star c ≡ true
    → loop (suc (suc f)) (a ∷ []) (c ∷ d ∷ t) none ≡ some false
unfolding loop accepts retry
star-loop f a c d t h k = ground (arith, h, k)

-- A mask that is one star does not match a text of two or more characters that begins with a
-- star, although its meaning is to match every text.
pub glob_star_misses :
    (a c d : Char) (t : List Char)
    → is_star a ≡ true
    → is_star c ≡ true
    → (glob (a ∷ []) (c ∷ d ∷ t) ≡ some false) × (matches (a ∷ []) (c ∷ d ∷ t) ≡ true)
unfolding glob
glob_star_misses a c d t h k = (
  subst (λ n. loop n (a ∷ []) (c ∷ d ∷ t) none ≡ some false) {x = suc (suc (2 * length t + 4))}
      {y = (length (c ∷ d ∷ t) + 1) * (length (a ∷ []) + 1)} (omega arith)
      (star-loop (2 * length t + 4) a c d t h k),
  matches-star a [] (c ∷ d ∷ t) h ∙ any_suffix-empty (c ∷ d ∷ t),
)
