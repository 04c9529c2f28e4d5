-- ===== src/Dice/Faces.antt =====
-- The faces of a throw, of which the first thousand are kept (modules/diceserv/src/expr.rs).
use echo_services.Prelude.{
  ℕ, zero, suc, ◌+◌, ◌-◌, ◌*◌, ◌%◌, ◌^◌, ◌≤◌, ◌≡◌, refl, sym, ap, ◌∙◌, subst, List, [], ◌∷◌, ◌++◌,
  length, push, ltb, if◌then◌else◌, arith, if_rule, length-append,
}
use mathlib.Core.List.{append_assoc, append-nil}
use echo_services.Dice.{GenRange, throw_dice, max_kept, max_sides}

unfoldable pub take {ℓ} : {A : Type ℓ} → ℕ → List A → List A
take zero xs = []
take (suc n) [] = []
take (suc n) (x ∷ xs) = x ∷ take n xs

unfoldable pub sum : List ℕ → ℕ
sum [] = 0
sum (x ∷ xs) = x + sum xs

-- Every face is one of the die's.
abbrev pub AllFaces : ℕ → List ℕ → Type 0
AllFaces sides [] = Unit {0}
AllFaces sides (x ∷ xs) = ((1 ≤ x) × (x ≤ sides)) × AllFaces sides xs

-- What a throw comes to: all its faces, of which it keeps as many as there is room for
pub record Thrown (n sides : ℕ) (before after : List ℕ) (start end : ℕ) : Type 0 where
  pub faces : List ℕ
  pub all_thrown : length faces ≡ n
  pub in_range : AllFaces sides faces
  pub kept : after ≡ before ++ take (max_kept - length before) faces
  pub added : end ≡ start + sum faces

-- The documented range of the generator
abbrev pub InRange : {R : Type 0} → GenRange R → Type 0
InRange {R} gen_range =
    (r : R) (sides : ℕ) → 1 ≤ sides → (1 ≤ (gen_range r sides).1) × ((gen_range r sides).1 ≤ sides)

take-zero {ℓ} : {A : Type ℓ} (k : ℕ) (xs : List A) → k ≡ 0 → take k xs ≡ []
unfolding take
take-zero zero xs h = refl
take-zero (suc k) xs h = absurd (omega (arith, h))

take-nil : (k : ℕ) → take {A = ℕ} k [] ≡ []
unfolding take
take-nil zero = refl
take-nil (suc k) = refl

take-suc {ℓ} :
    {A : Type ℓ} (m k : ℕ) (x : A) (xs : List A) → m ≡ suc k → take m (x ∷ xs) ≡ x ∷ take k xs
unfolding take
take-suc m k x xs h = rw h refl

-- A face that is kept
kept_one :
    (values fs : List ℕ) (x : ℕ)
    → length values + 1 ≤ max_kept
    → push values x ++ take (max_kept - length (push values x)) fs
      ≡ values ++ take (max_kept - length values) (x ∷ fs)
kept_one values fs x h =
    append_assoc values (x ∷ []) (take (max_kept - length (push values x)) fs)
    ∙ ap (λ ys. values ++ ys)
        (sym (
          take-suc (max_kept - length values) (max_kept - length (push values x)) x fs
            (omega (arith, h, length-append values (x ∷ [])))))

-- A face that is not kept
kept_full :
    (values fs : List ℕ) (x : ℕ)
    → max_kept ≤ length values
    → values ++ take (max_kept - length values) fs
      ≡ values ++ take (max_kept - length values) (x ∷ fs)
kept_full values fs x h =
    ap (λ ys. values ++ ys)
      (take-zero (max_kept - length values) fs (omega (arith, h))
        ∙ sym (take-zero (max_kept - length values) (x ∷ fs) (omega (arith, h))))

-- One more face before a throw
one_more :
    (n sides x start end : ℕ) (before before' after : List ℕ)
    → 1 ≤ x
    → x ≤ sides
    → ((fs : List ℕ)
        → before' ++ take (max_kept - length before') fs
          ≡ before ++ take (max_kept - length before) (x ∷ fs))
    → Thrown n sides before' after (start + x) end
    → Thrown (suc n) sides before after start end
unfolding sum
one_more n sides x start end before before' after lo hi same t = record {
  faces = x ∷ t.faces;
  all_thrown = omega (arith, t.all_thrown);
  in_range = ((lo, hi), t.in_range);
  kept = t.kept ∙ same t.faces;
  added = omega (arith, t.added);
}

module _ {R : Type 0} (gen_range : GenRange R) (in_range : InRange gen_range) where
  pub throw_dice-Thrown :
      (n sides : ℕ) (rng : R) (values : List ℕ) (start : ℕ)
      → 1 ≤ sides
      → sides ≤ max_sides
      → start + n * 99999 ≤ 99999 * 99999
      → Thrown n sides values
          (throw_dice gen_range n sides rng values start).1.0
          start
          (throw_dice gen_range n sides rng values start).1.1
  unfolding throw_dice take sum
  throw_dice-Thrown zero sides rng values start lo hi room = record {
    faces = [];
    all_thrown = refl;
    in_range = tt;
    kept =
        sym (append-nil values)
        ∙ ap (λ ys. values ++ ys) (sym (take-nil (max_kept - length values)));
    added = omega arith;
  }
  throw_dice-Thrown (suc n) sides rng values start lo hi room =
      let r : R = (gen_range rng sides).0 in
      let face : ℕ = (gen_range rng sides).1 in
      let (one_up, at_most) = in_range rng sides lo in
      let no_wrap : (start + face) % 2 ^ 64 ≡ start + face = ground (arith, room, at_most, hi) in
      let Goes : List ℕ → ℕ → Type 0 = λ vs st.
        Thrown (suc n) sides values (throw_dice gen_range n sides r vs st).1.0 start
          (throw_dice gen_range n sides r vs st).1.1 in
      subst (Goes (if ltb (length values) max_kept then push values face else values)) (sym no_wrap)
        (if_rule (λ vs. Goes vs (start + face)) (ltb (length values) max_kept)
          (λ fits.
            one_more n sides face start _ values (push values face) _ one_up at_most
              (λ fs. kept_one values fs face (ground (arith, fits)))
              (throw_dice-Thrown n sides r (push values face) (start + face) lo hi
                (omega (arith, room, at_most, hi))))
          (λ full.
            one_more n sides face start _ values values _ one_up at_most
              (λ fs. kept_full values fs face (ground (arith, full)))
              (throw_dice-Thrown n sides r values (start + face) lo hi
                (omega (arith, room, at_most, hi)))))
