-- ===== src/Dice/Tally.antt =====
-- What an evaluation may roll (modules/diceserv/src/expr.rs).
use echo_services.Prelude.{
  ℕ, ◌+◌, ◌%◌, ◌^◌, ◌≤◌, ◌≡◌, refl, String, true, false, List, [], ◌∷◌, length, push, ltb, ok, err,
  Result, arith, Bool-cases, inl, inr, if_rule,
}
use echo_services.Dice.{
  Float, GenRange, Tray, Roll, Outcome, DiceError, Ast, num, neg, bin, dice, func, Args, nil, cons,
  and_then, eval, eval_args, round_pos, roll, max_dice, max_sides, max_total, max_kept, round,
}
use echo_services.Dice.Faces.{take, sum, AllFaces, InRange, Thrown, throw_dice-Thrown}

-- A roll as it is told: the faces were all in range, the sum is theirs, and the first ones are kept.
pub record IsFair (r : Roll) : Type 0 where
  pub faces : List ℕ
  pub all_thrown : length faces ≡ r.spec.0
  pub dice_bound : r.spec.0 ≤ max_dice
  pub sides_bound : r.spec.1 ≤ max_sides
  pub in_range : AllFaces r.spec.1 faces
  pub kept : r.values ≡ take max_kept faces
  pub summed : r.total ≡ sum faces

abbrev pub AllFair : List Roll → Type 0
AllFair [] = Unit {0}
AllFair (r ∷ rs) = IsFair r × AllFair rs

-- How many dice the rolls took
unfoldable pub dice_rolled : List Roll → ℕ
dice_rolled [] = 0
dice_rolled (r ∷ rs) = r.spec.0 + dice_rolled rs

-- What holds of the state while the evaluation goes on
pub record IsTallied {R : Type 0} (s : Tray R) : Type 0 where
  pub fair : AllFair s.rolls
  pub counted : s.total ≡ dice_rolled s.rolls
  pub within : s.total ≤ max_total

-- What holds of it at the end: after an error too, no more dice were rolled than the budget allows.
abbrev pub Ends : {R A : Type 0} → Outcome R A → Type 0
Ends (s, ok x) = IsTallied s
Ends (s, err e) = AllFair s.rolls × (dice_rolled s.rolls ≤ max_total)

stopped :
    {R : Type 0} (s : Tray R) → IsTallied s → AllFair s.rolls × (dice_rolled s.rolls ≤ max_total)
stopped s h = (h.fair, omega (arith, h.counted, h.within))

result-Ends : {R A : Type 0} (s : Tray R) (o : Result A DiceError) → IsTallied s → Ends (s, o)
result-Ends s (ok x) h = h
result-Ends s (err e) h = stopped s h

and_then-Ends :
    {R A B : Type 0} (o : Outcome R A) (next : A → Tray R → Outcome R B)
    → Ends o
    → ((x : A) (s : Tray R) → o.1 ≡ ok x → IsTallied s → Ends (next x s))
    → Ends (and_then o next)
unfolding and_then
and_then-Ends (s, ok x) next h k = k x s refl h
and_then-Ends (s, err e) next h k = h

AllFair-push : (rs : List Roll) (r : Roll) → AllFair rs → IsFair r → AllFair (push rs r)
AllFair-push [] r a h = (h, tt)
AllFair-push (x ∷ xs) r a h = (a.0, AllFair-push xs r a.1 h)

dice_rolled-push : (rs : List Roll) (r : Roll) → dice_rolled (push rs r) ≡ dice_rolled rs + r.spec.0
unfolding dice_rolled
dice_rolled-push [] r = omega arith
dice_rolled-push (x ∷ xs) r = omega (arith, dice_rolled-push xs r)

module _ {F R : Type 0} (fl : Float F) (gen_range : GenRange R) (in_range : InRange gen_range)
    (to_u64-pos : (v : F)
      → fl.is_finite v ≡ true
      → fl.below_one (fl.method round v) ≡ false
      → 1 ≤ fl.to_u64 (fl.method round v)) where
  round_pos-pos : (v : F) (what : String) (n : ℕ) → round_pos fl gen_range v what ≡ ok n → 1 ≤ n
  unfolding round_pos
  round_pos-pos v what n h = elim (Bool-cases (fl.is_finite v)) [
    | inr no_number ↦ absurd (ground (arith, h, no_number))
    | inl finite ↦ elim (Bool-cases (fl.below_one (fl.method round v))) [
      | inl below ↦ absurd (ground (arith, h, finite, below))
      | inr enough ↦
          let at_least : 1 ≤ fl.to_u64 (fl.method round v) = to_u64-pos v finite enough in
          ground (arith, h, finite, enough, at_least)
    ]
  ]

  roll-Ends :
      (n sides : ℕ) (s : Tray R) → 1 ≤ sides → IsTallied s → Ends (roll fl gen_range n sides s)
  unfolding roll
  roll-Ends n sides s lo h =
      if_rule Ends (ltb max_dice n) (λ _. stopped s h)
        (λ few.
          if_rule Ends (ltb max_sides sides) (λ _. stopped s h)
            (λ small.
              if_rule Ends (ltb max_total ((s.total + n) % 2 ^ 64)) (λ _. stopped s h)
                (λ enough.
                  let t : Thrown n sides [] _ 0 _ =
                    throw_dice-Thrown gen_range in_range n sides s.rng [] 0 lo
                      (ground (arith, small)) (ground (arith, few)) in
                  let no_wrap : (s.total + n) % 2 ^ 64 ≡ s.total + n =
                    ground (arith, h.within, few) in
                  record {
                    fair = AllFair-push s.rolls _ h.fair (record {
                      faces = t.faces;
                      all_thrown = t.all_thrown;
                      dice_bound = ground (arith, few);
                      sides_bound = ground (arith, small);
                      in_range = t.in_range;
                      kept = t.kept;
                      summed = omega (arith, t.added);
                    });
                    counted = omega (arith, no_wrap, h.counted, dice_rolled-push s.rolls _);
                    within = ground (arith, enough);
                  })))

  mutual
    unfolding eval eval_args

    eval-Ends : (e : Ast F) (s : Tray R) → IsTallied s → Ends (eval fl gen_range e s)
    eval-Ends (num x) s h = h
    eval-Ends (neg a) s h = and_then-Ends _ _ (eval-Ends a s h) (λ x t _ k. k)
    eval-Ends (bin op a b) s h =
        and_then-Ends _ _ (eval-Ends a s h)
          (λ x t _ k. and_then-Ends _ _ (eval-Ends b t k) (λ y u _ l. result-Ends u _ l))
    eval-Ends (dice a b) s h = and_then-Ends _ _ (eval-Ends a s h) (λ x t _ k.
        and_then-Ends (t, round_pos fl gen_range x "number of dice")
          (λ n u. and_then (eval fl gen_range b u) (λ y v.
            and_then (v, round_pos fl gen_range y "sides") (λ m w. roll fl gen_range n m w)))
          (result-Ends t (round_pos fl gen_range x "number of dice") k)
          (λ n u _ l.
            and_then-Ends (eval fl gen_range b u)
              (λ y v.
                and_then (v, round_pos fl gen_range y "sides") (λ m w. roll fl gen_range n m w))
              (eval-Ends b u l)
              (λ y v _ m.
                and_then-Ends (v, round_pos fl gen_range y "sides") (λ c w. roll fl gen_range n c w)
                  (result-Ends v (round_pos fl gen_range y "sides") m)
                  (λ c w e q. roll-Ends n c w (round_pos-pos y "sides" c e) q))))
    eval-Ends (func name args) s h =
        and_then-Ends _ _ (args-Ends args s h) (λ v t _ k. result-Ends t _ k)

    args-Ends : (es : Args F) (s : Tray R) → IsTallied s → Ends (eval_args fl gen_range es s)
    args-Ends nil s h = h
    args-Ends (cons a rest) s h =
        and_then-Ends _ _ (eval-Ends a s h)
          (λ x t _ k. and_then-Ends _ _ (args-Ends rest t k) (λ v u _ l. l))

  -- Where the generator stays in the range that it is given, and a finite number that does not round
  -- below one converts to a positive integer: an evaluation that starts with no rolls, whether it
  -- ends with a value or with an error, rolled at most 1,000,000 dice in all, and each roll that it
  -- tells is of at most 99,999 dice of at most 99,999 sides, whose faces are all from 1 to the number
  -- of sides; its total is the sum of all the faces, and it keeps the first 1,000 of them. With a
  -- value, the number of dice that it gives is that of the rolls.
  pub eval-IsTallied :
      (e : Ast F) (rng : R)
      → Ends (eval fl gen_range e (record { rng = rng; rolls = []; total = 0 }))
  unfolding dice_rolled
  eval-IsTallied e rng =
      eval-Ends e (record { rng = rng; rolls = []; total = 0 })
        (record { fair = tt; counted = refl; within = omega arith })
