-- ===== src/Board.antt =====
-- The board games of the game service, tic-tac-toe and Connect Four (modules/gameserv/src/board.rs),
-- and its escape of message tags. Chess has a board of its own, and is not here.
pub mod Play
pub mod Balance
pub mod Tags
pub mod Ending
pub mod Lines
pub mod Runs
pub mod Scans
pub mod Verdict
use echo_services.Prelude.{
  ℕ, zero, suc, ◌+◌, ◌-◌, ◌*◌, ◌≤◌, code, Char, String, Bool, true, false, not, ◌&&◌, ◌||◌, ◌==◌,
  Option, none, some, List, [], ◌∷◌, ltb, leb, eqb, if◌then◌else◌, get_elem?, is_some_and,
  modify_at, u64_max,
}

-- `GameType` of a grid game
pub data GameType : Type 0 where
  ttt c4 : GameType

pub data Side : Type 0 where
  a b : Side

-- `Side::other`
unfoldable pub other : Side → Side
other a = b
other b = a

unfoldable pub same_side : Side → Side → Bool
same_side a a = true
same_side b b = true
same_side a b = false
same_side b a = false

-- `EMPTY`
abbrev pub empty : ℕ
empty = b' '

abbrev pub c4_w : ℕ
c4_w = 7

abbrev pub c4_h : ℕ
c4_h = 6

-- `GameType::glyph`
unfoldable pub glyph : GameType → Side → ℕ
glyph ttt a = b'X'
glyph ttt b = b'O'
glyph c4 a = b'R'
glyph c4 b = b'Y'

-- A `Board` is its kind and its cells; `turn` is the game's.
pub record Game : Type 0 where
  pub kind : GameType
  pub cells : List ℕ
  pub turn : Side

-- The decimal digits of a text, as a number; `none` if it has another character in it
unfoldable pub digits : ℕ → String → Option ℕ
digits n String.[] = some n
digits n (String.◌∷◌ c s) =
    let rest = digits (10 * n + (code c - b'0')) s in
    if leb b'0' (code c) && leb (code c) b'9' then rest else none

abbrev pub in_usize : Option ℕ → Option ℕ
in_usize none = none
in_usize (some n) = if leb n u64_max then some n else none

-- `mv.parse::<usize>()`: an optional plus and at least one digit, within 64 bits
unfoldable pub parse_usize : String → Option ℕ
unfolding digits
parse_usize String.[] = none
parse_usize (String.◌∷◌ c String.[]) = in_usize (digits 0 (String.◌∷◌ c String.[]))
parse_usize (String.◌∷◌ c (String.◌∷◌ d s)) =
    in_usize
      (digits 0 (if eqb (code c) b'+' then String.◌∷◌ d s else String.◌∷◌ c (String.◌∷◌ d s)))

abbrev pub is_free : List ℕ → ℕ → Bool
is_free cells i = is_some_and (get_elem? cells i) (λ x. eqb x empty)

-- The lowest free cell of a column, over the rows that are left, from this row up
unfoldable pub drop_to : List ℕ → ℕ → ℕ → ℕ → Option ℕ
drop_to cells col zero r = none
drop_to cells col (suc rows) r =
    let above = drop_to cells col rows (r + 1) in
    if is_free cells (r * c4_w + col) then some (r * c4_w + col) else above

-- Where a move puts its piece, if it is legal
unfoldable pub target : GameType → List ℕ → ℕ → Option ℕ
unfolding drop_to
target ttt cells c = if is_free cells c then some c else none
target c4 cells col = if leb c4_w col then none else drop_to cells col c4_h 0

abbrev pub play : Game → Side → Option ℕ → Game × Bool
play g side none = (g, false)
play g side (some i) =
    (record g { cells = modify_at i (λ _. glyph g.kind side) g.cells; turn = other side }, true)

abbrev pub place : Game → Side → Option ℕ → Game × Bool
place g side none = (g, false)
place g side (some n) = play g side (target g.kind g.cells n)

unfoldable pub apply_move : Game → Side → String → Game × Bool
unfolding same_side parse_usize target glyph other
apply_move g side mv = if same_side g.turn side then place g side (parse_usize mv) else (g, false)

unfoldable pub free_cells : ℕ → List ℕ
free_cells zero = []
free_cells (suc n) = empty ∷ free_cells n

-- `Board::new`, with the challenger to move
unfoldable pub new_game : GameType → Game
unfolding free_cells
new_game ttt = record { kind = ttt; cells = free_cells 9; turn = a }
new_game c4 = record { kind = c4; cells = free_cells (c4_w * c4_h); turn = a }
