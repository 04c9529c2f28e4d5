-- ===== src/Board/Ending.antt =====
-- When a board game is over (modules/gameserv/src/board.rs).
use echo_services.Prelude.{
  ℕ, zero, suc, ◌+◌, ◌-◌, ◌*◌, Bool, true, not, ◌&&◌, Option, none, some, List, [], ◌∷◌, ltb, leb,
  eqb, if◌then◌else◌, get_elem?, unwrap_or, any,
}
use echo_services.Board.{GameType, ttt, c4, Side, a, b, empty, c4_w, c4_h, glyph, Game}

pub data Outcome : Type 0 where
  draw : Outcome
  win : Side → Outcome

-- `GameType::side_of_glyph`
unfoldable pub side_of_glyph : GameType → ℕ → Side
side_of_glyph kind p = if eqb p (glyph kind a) then a else b

-- `b[i]`, which the two scans read at cells of the board only
unfoldable pub at : List ℕ → ℕ → ℕ
at cells i = unwrap_or (get_elem? cells i) empty

-- `TTT_LINES`
abbrev pub ttt_lines : List (ℕ × ℕ × ℕ)
ttt_lines =
    (0, 1, 2)
    ∷ (3, 4, 5)
    ∷ (6, 7, 8)
    ∷ (0, 3, 6)
    ∷ (1, 4, 7)
    ∷ (2, 5, 8)
    ∷ (0, 4, 8)
    ∷ (2, 4, 6)
    ∷ []

unfoldable pub or_else {ℓ} : {A : Type ℓ} → Option A → Option A → Option A
or_else (some x) o = some x
or_else none o = o

-- A loop that returns at the first turn that yields something
unfoldable pub find_map {ℓ κ} : {A : Type ℓ} {B : Type κ} → (A → Option B) → List A → Option B
unfolding or_else
find_map f [] = none
find_map f (x ∷ xs) = or_else (f x) (find_map f xs)

-- The piece that holds a line of tic-tac-toe
unfoldable pub line_piece : List ℕ → ℕ × ℕ × ℕ → Option ℕ
unfolding at
line_piece cells (i, j, k) =
    if not (eqb (at cells i) empty)
      && (eqb (at cells i) (at cells j) && eqb (at cells i) (at cells k))
    then some (at cells i)
    else none

-- `dirs`, with the steps of the column and of the row of each: (1, 0), (0, 1), (1, 1) and (1, -1)
pub data Dir : Type 0 where
  across up rising falling : Dir

abbrev pub dirs : List Dir
dirs = across ∷ up ∷ rising ∷ falling ∷ []

unfoldable pub next_column : Dir → ℕ → ℕ
next_column across c = c + 1
next_column up c = c
next_column rising c = c + 1
next_column falling c = c + 1

unfoldable pub next_row : Dir → ℕ → ℕ
next_row across r = r
next_row up r = r + 1
next_row rising r = r + 1
next_row falling r = r - 1

-- `(0..4).all`, from this column and row on. A row is one more than the source's `rr`, so that the
-- row below the board is 0; the first cell off the board ends the loop.
unfoldable pub run : List ℕ → ℕ → ℕ → ℕ → ℕ → Dir → Bool
unfolding at next_column next_row
run cells p zero c r d = true
run cells p (suc n) c r d =
    let rest = run cells p n (next_column d c) (next_row d r) d in
    ltb c c4_w && (leb 1 r && (leb r c4_h && (eqb (at cells ((r - 1) * c4_w + c)) p && rest)))

-- The piece on a cell of Connect Four, if four of it stand in a row from there
unfoldable pub run_piece : List ℕ → ℕ → ℕ → Option ℕ
unfolding at run
run_piece cells c r =
    let p : ℕ = at cells (r * c4_w + c) in
    if eqb p empty then none else if any (run cells p 4 c (r + 1)) dirs then some p else none

-- The numbers below one
unfoldable pub range_from : ℕ → ℕ → List ℕ
range_from i zero = []
range_from i (suc n) = i ∷ range_from (i + 1) n

-- The piece that has a line of the game
unfoldable pub winner : GameType → List ℕ → Option ℕ
unfolding find_map line_piece run_piece range_from
winner ttt cells = find_map (line_piece cells) ttt_lines
winner c4 cells =
    find_map (λ c. find_map (run_piece cells c) (range_from 0 c4_h)) (range_from 0 c4_w)

-- `cells.iter().all(|&c| c != EMPTY)`
unfoldable pub is_full : List ℕ → Bool
is_full [] = true
is_full (x ∷ xs) = not (eqb x empty) && is_full xs

unfoldable pub full_or_ongoing : List ℕ → Option Outcome
unfolding is_full
full_or_ongoing cells = if is_full cells then some draw else none

-- What the scan comes to: a winner, or a full board, or a game that goes on
unfoldable pub verdict : GameType → List ℕ → Option ℕ → Option Outcome
unfolding full_or_ongoing side_of_glyph
verdict kind cells (some p) = some (win (side_of_glyph kind p))
verdict kind cells none = full_or_ongoing cells

unfoldable pub terminal : Game → Option Outcome
unfolding winner verdict
terminal g = verdict g.kind g.cells (winner g.kind g.cells)
