-- ===== src/Board/Lines.antt =====
-- The lines of a board, and when a game is over (modules/gameserv/src/board.rs).
use echo_services.Prelude.{
  ℕ, zero, suc, ◌+◌, ◌*◌, ◌≤◌, ◌<◌, ◌≡◌, ◌⊎◌, refl, subst, Option, none, some, List, [], ◌∷◌, eqb,
  arith, Bool-cases, inl, inr,
}
use echo_services.Board.{GameType, ttt, c4, c4_w, c4_h}
use echo_services.Board.Ending.{at, find_map, or_else, range_from}

-- The lines of the two games, by their cells: rows, columns and diagonals
pub data Line : GameType → List ℕ → Type 0 where
  row : (r : ℕ) → r < 3 → Line ttt ((3 * r) ∷ (3 * r + 1) ∷ (3 * r + 2) ∷ [])
  column : (c : ℕ) → c < 3 → Line ttt (c ∷ (c + 3) ∷ (c + 6) ∷ [])
  diagonal : Line ttt (0 ∷ 4 ∷ 8 ∷ [])
  antidiagonal : Line ttt (2 ∷ 4 ∷ 6 ∷ [])
  flat :
      (c r : ℕ)
      → c + 3 < c4_w
      → r < c4_h
      → Line c4 ((r * 7 + c) ∷ (r * 7 + c + 1) ∷ (r * 7 + c + 2) ∷ (r * 7 + c + 3) ∷ [])
  stack :
      (c r : ℕ)
      → c < c4_w
      → r + 3 < c4_h
      → Line c4 ((r * 7 + c) ∷ (r * 7 + c + 7) ∷ (r * 7 + c + 14) ∷ (r * 7 + c + 21) ∷ [])
  slope :
      (c r : ℕ)
      → c + 3 < c4_w
      → r + 3 < c4_h
      → Line c4 ((r * 7 + c) ∷ (r * 7 + c + 8) ∷ (r * 7 + c + 16) ∷ (r * 7 + c + 24) ∷ [])
  descent :
      (c r : ℕ)
      → c + 3 < c4_w
      → r + 3 < c4_h
      → Line c4 ((r * 7 + c + 21) ∷ (r * 7 + c + 15) ∷ (r * 7 + c + 9) ∷ (r * 7 + c + 3) ∷ [])

-- This piece stands on all of these cells.
abbrev pub Holds : List ℕ → ℕ → List ℕ → Type 0
Holds cells p [] = Unit {0}
Holds cells p (i ∷ is) = (at cells i ≡ p) × Holds cells p is

-- A piece stands on a whole line of the game.
pub record Wins (kind : GameType) (cells : List ℕ) (p : ℕ) : Type 0 where
  pub line : List ℕ
  pub of_game : Line kind line
  pub held : Holds cells p line

pub or_else-none : (o o' : Option ℕ) → or_else o o' ≡ none → (o ≡ none) × (o' ≡ none)
unfolding or_else
or_else-none none o' h = (refl, h)
or_else-none (some x) o' h = absurd (ground (arith, h))

pub or_else-some : (o o' : Option ℕ) (p : ℕ) → or_else o o' ≡ some p → (o ≡ some p) ⊎ (o' ≡ some p)
unfolding or_else
or_else-some none o' p h = inr h
or_else-some (some x) o' p h = inl h

-- A loop over numbers that yields nothing has no turn that does.
pub find_map-none :
    (g : ℕ → Option ℕ) (n i j : ℕ)
    → find_map g (range_from i n) ≡ none
    → i ≤ j
    → j < i + n
    → g j ≡ none
unfolding find_map range_from
find_map-none g zero i j h le lt = absurd (omega (arith, le, lt))
find_map-none g (suc n) i j h le lt =
    let (here, later) = or_else-none (g i) (find_map g (range_from (i + 1) n)) h in
    elim (Bool-cases (eqb i j)) [
      | inl same ↦ let at_it : i ≡ j = ground (arith, same) in subst (λ k. g k ≡ none) at_it here
      | inr differs ↦
          find_map-none g n (i + 1) j later (ground (arith, differs, le)) (omega (arith, lt))
    ]

-- A loop over numbers that yields something has a turn that does.
pub find_map-some :
    (g : ℕ → Option ℕ) (n i p : ℕ)
    → find_map g (range_from i n) ≡ some p
    → (j : ℕ) × (j < i + n) × (g j ≡ some p)
unfolding find_map range_from
find_map-some g zero i p h = absurd (ground (arith, h))
find_map-some g (suc n) i p h = elim (or_else-some (g i) (find_map g (range_from (i + 1) n)) p h) [
  | inl here ↦ (i, omega arith, here)
  | inr later ↦ let (j, lt, e) = find_map-some g n (i + 1) p later in (j, omega (arith, lt), e)
]
