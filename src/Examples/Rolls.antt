-- ===== src/Examples/Rolls.antt =====
-- The theorem on dice expressions at a concrete input, with natural numbers for `f64` and a generator
-- that counts up to the number of sides.
use echo_services.Prelude.{
  ℕ, ◌+◌, ◌≤◌, true, false, [], ◌≡◌, refl, eqb, leb, if◌then◌else◌, arith, ok,
}
use echo_services.Dice
use echo_services.Dice.{Float, GenRange, Ast, Op, Method, Tray, eval}
use echo_services.Dice.Faces.{InRange}
use echo_services.Dice.Tally
use echo_services.Dice.Tally.{Ends}

abbrev whole_op : Op → ℕ → ℕ → ℕ
whole_op Dice.plus x y = x + y
whole_op op x y = x

abbrev whole_numbers : Float ℕ
whole_numbers = record {
  is_finite = λ x. true;
  is_zero = λ x. eqb x 0;
  below_one = λ x. eqb x 0;
  to_u64 = λ x. x;
  of_u64 = λ x. x;
  negate = λ x. x;
  apply_op = whole_op;
  method = λ m x. x;
  hypot = λ x y. x;
  least = λ x y. x;
  greatest = λ x y. y;
  infinity = 0;
  neg_infinity = 0;
}

abbrev counting : GenRange ℕ
counting r sides = (r + 1, if leb (r + 1) sides then r + 1 else sides)

counting-InRange : InRange counting
counting-InRange r sides h = (ground (arith, h), ground (arith, h))

positive : (v : ℕ) → true ≡ true → eqb v 0 ≡ false → 1 ≤ v
positive v h e = ground (arith, e)

-- `3d2 + 1`
abbrev three_dice : Ast ℕ
three_dice = Dice.bin Dice.plus (Dice.dice (Dice.num 3) (Dice.num 2)) (Dice.num 1)

three_rolled :
    (eval whole_numbers counting three_dice (record { rng = 0; rolls = []; total = 0 })).1 ≡ ok 6
unfolding eval
three_rolled = refl

eval-IsTallied_example :
    Ends (eval whole_numbers counting three_dice (record { rng = 0; rolls = []; total = 0 }))
eval-IsTallied_example =
    Tally.eval-IsTallied whole_numbers counting counting-InRange positive three_dice 0
