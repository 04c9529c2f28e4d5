-- ===== src/Dice.antt =====
-- The evaluation of dice expressions (modules/diceserv/src/expr.rs). The floating-point numbers and
-- the random generator are parameters; an expression is given as its tree.
pub mod Faces
pub mod Tally
use echo_services.Prelude.{
  ℕ, zero, suc, ◌+◌, ◌%◌, ◌^◌, String, Bool, true, false, not, ◌&&◌, Option, none, some, List, [],
  ◌∷◌, length, is_empty, push, ltb, if◌then◌else◌, ok, err, Result, ◌==◌,
}

abbrev pub max_dice : ℕ
max_dice = 99999

abbrev pub max_sides : ℕ
max_sides = 99999

abbrev pub max_total : ℕ
max_total = 1000000

abbrev pub max_kept : ℕ
max_kept = 1000

-- `spec` is the number of dice and of sides that the source prints into a text.
pub record Roll : Type 0 where
  pub spec : ℕ × ℕ
  pub values : List ℕ
  pub total : ℕ

-- The operators of `Ast::Bin`
pub data Op : Type 0 where
  plus minus times divide modulo power : Op

mutual
  pub data Ast (F : Type 0) : Type 0 where
    num : F → Ast F
    neg : Ast F → Ast F
    bin : Op → Ast F → Ast F → Ast F
    dice : Ast F → Ast F → Ast F
    func : String → Args F → Ast F

  pub data Args (F : Type 0) : Type 0 where
    nil : Args F
    cons : Ast F → Args F → Args F

-- The methods of `f64` that a function of one argument calls
pub data Method : Type 0 where
  abs ceil floor round trunc sqrt cbrt exp ln log10 log2 sin cos tan asin acos atan sinh cosh tanh
        to_degrees to_radians signum :
      Method

-- What the evaluation uses of `f64`
pub record Float (F : Type 0) : Type 0 where
  pub is_finite : F → Bool
  pub is_zero : F → Bool
  pub below_one : F → Bool
  pub to_u64 : F → ℕ
  pub of_u64 : ℕ → F
  pub negate : F → F
  pub apply_op : Op → F → F → F
  pub method : Method → F → F
  pub hypot : F → F → F
  pub least : F → F → F
  pub greatest : F → F → F
  pub infinity : F
  pub neg_infinity : F

-- The messages of the source
pub data DiceError : Type 0 where
  not_a_number at_least_one : String → DiceError
  too_many_dice too_many_sides over_budget division_by_zero modulo_by_zero : DiceError
  one_argument unknown_function : String → DiceError
  two_arguments : String → DiceError

-- The generator, the rolls and the dice so far, which the evaluation changes
pub record Tray (R : Type 0) : Type 0 where
  pub rng : R
  pub rolls : List Roll
  pub total : ℕ

abbrev pub Outcome : Type 0 → Type 0 → Type 0
Outcome R A = Tray R × Result A DiceError

-- `?` on a result, with the state that the call left
unfoldable pub and_then : {R A B : Type 0} → Outcome R A → (A → Tray R → Outcome R B) → Outcome R B
and_then (s, ok x) next = next x s
and_then (s, err e) next = (s, err e)

-- The functions of one argument by their names
unfoldable pub method_of : String → Option Method
method_of name =
    if name == "abs"
    then some abs
    else if name == "ceil"
    then some ceil
    else if name == "floor"
    then some floor
    else if name == "round"
    then some round
    else if name == "trunc"
    then some trunc
    else if name == "int"
    then some trunc
    else if name == "sqrt"
    then some sqrt
    else if name == "cbrt"
    then some cbrt
    else if name == "exp"
    then some exp
    else if name == "ln"
    then some ln
    else if name == "log"
    then some ln
    else if name == "log10"
    then some log10
    else if name == "log2"
    then some log2
    else if name == "sin"
    then some sin
    else if name == "cos"
    then some cos
    else if name == "tan"
    then some tan
    else if name == "asin"
    then some asin
    else if name == "acos"
    then some acos
    else if name == "atan"
    then some atan
    else if name == "sinh"
    then some sinh
    else if name == "cosh"
    then some cosh
    else if name == "tanh"
    then some tanh
    else if name == "deg"
    then some to_degrees
    else if name == "rad"
    then some to_radians
    else if name == "sign"
    then some signum
    else none

-- `rng.gen_range(1..=sides)`
abbrev pub GenRange : Type 0 → Type 0
GenRange R = R → ℕ → R × ℕ

-- `for _ in 0..num`, from the faces kept and the sum so far
unfoldable pub throw_dice : {R : Type 0} → GenRange R → ℕ → ℕ → R → List ℕ → ℕ → R × (List ℕ × ℕ)
throw_dice gen_range zero sides rng values sum = (rng, (values, sum))
throw_dice gen_range (suc n) sides rng values sum =
    let (rng', face) = gen_range rng sides in
    throw_dice gen_range n sides rng'
      (if ltb (length values) max_kept then push values face else values) ((sum + face) % 2 ^ 64)

module _ {F R : Type 0} (fl : Float F) (gen_range : GenRange R) where
  unfoldable pub round_pos : F → String → Result ℕ DiceError
  round_pos v what =
      if not (fl.is_finite v)
      then err (not_a_number what)
      else let n : F = fl.method round v in
        if fl.below_one n then err (at_least_one what) else ok (fl.to_u64 n)

  unfoldable pub binary : Op → F → F → Result F DiceError
  binary plus x y = ok (fl.apply_op plus x y)
  binary minus x y = ok (fl.apply_op minus x y)
  binary times x y = ok (fl.apply_op times x y)
  binary divide x y = if fl.is_zero y then err division_by_zero else ok (fl.apply_op divide x y)
  binary modulo x y = if fl.is_zero y then err modulo_by_zero else ok (fl.apply_op modulo x y)
  binary power x y = ok (fl.apply_op power x y)

  -- `one`, and the method on that argument
  unfoldable pub one : String → Method → List F → Result F DiceError
  one name m (x ∷ []) = ok (fl.method m x)
  one name m [] = err (one_argument name)
  one name m (x ∷ y ∷ v) = err (one_argument name)

  unfoldable pub two : String → (F → F → F) → List F → Result F DiceError
  two name f (x ∷ y ∷ []) = ok (f x y)
  two name f [] = err (two_arguments name)
  two name f (x ∷ []) = err (two_arguments name)
  two name f (x ∷ y ∷ z ∷ v) = err (two_arguments name)

  -- `v.into_iter().fold`
  unfoldable pub fold_all : (F → F → F) → F → List F → F
  fold_all f x [] = x
  fold_all f x (y ∷ v) = fold_all f (f x y) v

  -- The match on the name, at the values of the arguments
  unfoldable pub call_named : String → List F → Result F DiceError
  unfolding method_of one two fold_all
  call_named name v = elim (method_of name) [
    | some m ↦ one name m v
    | none ↦
        if name == "min" && not (is_empty v)
        then ok (fold_all fl.least fl.infinity v)
        else if name == "max" && not (is_empty v)
        then ok (fold_all fl.greatest fl.neg_infinity v)
        else if name == "hypot"
        then two name fl.hypot v
        else if name == "pow"
        then two name (fl.apply_op power) v
        else err (unknown_function name)
  ]

  -- The dice, once their number and their sides are known
  unfoldable pub roll : ℕ → ℕ → Tray R → Outcome R F
  unfolding throw_dice
  roll n sides s =
      if ltb max_dice n
      then (s, err too_many_dice)
      else if ltb max_sides sides
      then (s, err too_many_sides)
      else let total : ℕ = (s.total + n) % 2 ^ 64 in
        if ltb max_total total
        then (record s { total = total }, err over_budget)
        else let (rng, (values, sum)) = throw_dice gen_range n sides s.rng [] 0 in
          (
            record {
              rng = rng;
              rolls = push s.rolls (record { spec = (n, sides); values = values; total = sum });
              total = total;
            },
            ok (fl.of_u64 sum),
          )

  unfoldable mutual
    unfolding and_then binary round_pos roll call_named

    pub eval : Ast F → Tray R → Outcome R F
    eval (num x) s = (s, ok x)
    eval (neg a) s = and_then (eval a s) (λ x t. (t, ok (fl.negate x)))
    eval (bin op a b) s =
        and_then (eval a s) (λ x t. and_then (eval b t) (λ y u. (u, binary op x y)))
    eval (dice a b) s = and_then (eval a s) (λ x t.
        and_then (t, round_pos x "number of dice")
          (λ n u.
            and_then (eval b u) (λ y v. and_then (v, round_pos y "sides") (λ m w. roll n m w))))
    eval (func name as_args) s = and_then (eval_args as_args s) (λ v t. (t, call_named name v))

    pub eval_args : Args F → Tray R → Outcome R (List F)
    eval_args nil s = (s, ok [])
    eval_args (cons a rest) s =
        and_then (eval a s) (λ x t. and_then (eval_args rest t) (λ v u. (u, ok (x ∷ v))))
