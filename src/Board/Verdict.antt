-- ===== src/Board/Verdict.antt =====
-- When a board game is over (modules/gameserv/src/board.rs).
use echo_services.Prelude.{
  ℕ, zero, suc, ◌≡◌, ◌≢◌, ◌⊎◌, refl, sym, ap, ◌∙◌, subst, true, false, Option, none, some, List, [],
  ◌∷◌, modify_at, arith, inl, inr, String,
}
use echo_services.Board.{GameType, ttt, c4, Side, a, b, empty, glyph, Game}
use echo_services.Board.Ending.{
  Outcome, draw, win, side_of_glyph, at, winner, is_full, full_or_ongoing, terminal, verdict,
}
use echo_services.Board.Lines.{
  Line, row, column, diagonal, antidiagonal, flat, stack, slope, descent, Holds, Wins,
}
use echo_services.Board.Play.{count}
use echo_services.Board.Scans.{winner-some, winner-none}
use echo_services.Board.Balance.{session}
use echo_services.Board.Play.{apply_move-Outcome}
use echo_services.Board.{apply_move, new_game, free_cells}

-- Every cell is free or holds a piece of one of the players.
abbrev pub HasPieces : GameType → List ℕ → Type 0
HasPieces kind cells =
    (i : ℕ) → (at cells i ≡ empty) ⊎ ((at cells i ≡ glyph kind a) ⊎ (at cells i ≡ glyph kind b))

-- What a verdict says of the board
abbrev pub Holding : Game → Option Outcome → Type 0
Holding g none = ((p : ℕ) → p ≢ empty → ¬ Wins g.kind g.cells p) × (count empty g.cells ≢ 0)
Holding g (some draw) = ((p : ℕ) → p ≢ empty → ¬ Wins g.kind g.cells p) × (count empty g.cells ≡ 0)
Holding g (some (win side)) = Wins g.kind g.cells (glyph g.kind side)

is_full-count :
    (cells : List ℕ)
    → ((is_full cells ≡ true) × (count empty cells ≡ 0))
      ⊎ ((is_full cells ≡ false) × (count empty cells ≢ 0))
unfolding is_full count
is_full-count [] = inl (refl, refl)
is_full-count (x ∷ xs) = ground (arith, is_full-count xs)

-- A line has a cell.
Line-cell :
    (kind : GameType) (cells : List ℕ) (p : ℕ) (is : List ℕ)
    → Line kind is
    → Holds cells p is
    → (i : ℕ) × (at cells i ≡ p)
Line-cell kind cells p is (row r l) h = (_, h.0)
Line-cell kind cells p is (column c l) h = (_, h.0)
Line-cell kind cells p is diagonal h = (_, h.0)
Line-cell kind cells p is antidiagonal h = (_, h.0)
Line-cell kind cells p is (flat c r l m) h = (_, h.0)
Line-cell kind cells p is (stack c r l m) h = (_, h.0)
Line-cell kind cells p is (slope c r l m) h = (_, h.0)
Line-cell kind cells p is (descent c r l m) h = (_, h.0)

side_of_glyph-glyph : (kind : GameType) (side : Side) → side_of_glyph kind (glyph kind side) ≡ side
unfolding side_of_glyph glyph
side_of_glyph-glyph ttt a = refl
side_of_glyph-glyph ttt b = refl
side_of_glyph-glyph c4 a = refl
side_of_glyph-glyph c4 b = refl

won-Holding :
    (g : Game) (p : ℕ) (side : Side)
    → p ≡ glyph g.kind side
    → Wins g.kind g.cells p
    → Holding g (some (win (side_of_glyph g.kind p)))
won-Holding g p side e w =
    let named : side_of_glyph g.kind p ≡ side =
      ap (side_of_glyph g.kind) e ∙ side_of_glyph-glyph g.kind side in
    rw named (subst (Wins g.kind g.cells) e w)

verdict-Holding :
    (g : Game) (o : Option ℕ)
    → HasPieces g.kind g.cells
    → winner g.kind g.cells ≡ o
    → Holding g (verdict g.kind g.cells o)
unfolding verdict full_or_ongoing
verdict-Holding g (some p) pieces e =
    let (n, w) = winner-some g.kind g.cells p e in
    let (i, at_it) = Line-cell g.kind g.cells p w.line w.of_game w.held in
    elim (pieces i) [
      | inl free ↦ absurd (n (sym at_it ∙ free))
      | inr (inl is_a) ↦ won-Holding g p a (sym at_it ∙ is_a) w
      | inr (inr is_b) ↦ won-Holding g p b (sym at_it ∙ is_b) w
    ]
verdict-Holding g none pieces e = elim (is_full-count g.cells) [
  | inl (full, free) ↦ rw full ((λ p n. winner-none g.kind g.cells p e n), free)
  | inr (partial, free) ↦ rw partial ((λ p n. winner-none g.kind g.cells p e n), free)
]

at-modify_at :
    (i q : ℕ) (cells : List ℕ) (j : ℕ)
    → (at (modify_at i (λ _. q) cells) j ≡ q) ⊎ (at (modify_at i (λ _. q) cells) j ≡ at cells j)
unfolding modify_at at
at-modify_at i q [] j = inr refl
at-modify_at zero q (x ∷ xs) zero = inl refl
at-modify_at zero q (x ∷ xs) (suc j) = inr refl
at-modify_at (suc i) q (x ∷ xs) zero = inr refl
at-modify_at (suc i) q (x ∷ xs) (suc j) = at-modify_at i q xs j

at-free_cells : (n i : ℕ) → at (free_cells n) i ≡ empty
unfolding at free_cells
at-free_cells zero i = refl
at-free_cells (suc n) zero = refl
at-free_cells (suc n) (suc i) = at-free_cells n i

new_game-HasPieces : (kind : GameType) → HasPieces (new_game kind).kind (new_game kind).cells
unfolding new_game
new_game-HasPieces ttt = λ i. inl (at-free_cells 9 i)
new_game-HasPieces c4 = λ i. inl (at-free_cells 42 i)

put-HasPieces :
    (kind : GameType) (side : Side) (i : ℕ) (cells : List ℕ)
    → HasPieces kind cells
    → HasPieces kind (modify_at i (λ _. glyph kind side) cells)
put-HasPieces kind a i cells h = λ j. elim (at-modify_at i (glyph kind a) cells j) [
  | inl put ↦ inr (inl put)
  | inr kept ↦ rw kept (h j)
]
put-HasPieces kind b i cells h = λ j. elim (at-modify_at i (glyph kind b) cells j) [
  | inl put ↦ inr (inr put)
  | inr kept ↦ rw kept (h j)
]

session-HasPieces :
    (g : Game) (ms : List (Side × String))
    → HasPieces g.kind g.cells
    → HasPieces (session g ms).0.kind (session g ms).0.cells
unfolding session
session-HasPieces g [] h = h
session-HasPieces g ((side, mv) ∷ ms) h =
    session-HasPieces (apply_move g side mv).0 ms (elim (apply_move-Outcome g side mv) [
      | inl (made, m) ↦
          subst (λ (x : Game). HasPieces x.kind x.cells) (sym m.after)
            (put-HasPieces g.kind side m.cell g.cells h)
      | inr (refused, same) ↦ subst (λ (x : Game). HasPieces x.kind x.cells) (sym same) h
    ])

-- Whatever the two players sent since the game was new: where a side is said to have won, its piece
-- stands on a whole row, column or diagonal of the game (three cells in tic-tac-toe, four in Connect
-- Four); where the game is said to be drawn or to go on, no piece does, and the board is full in
-- the first case and has a free cell in the second.
pub terminal-Holding :
    (kind : GameType) (ms : List (Side × String))
    → Holding (session (new_game kind) ms).0 (terminal (session (new_game kind) ms).0)
unfolding terminal
terminal-Holding kind ms =
    verdict-Holding (session (new_game kind) ms).0 _
      (session-HasPieces (new_game kind) ms (new_game-HasPieces kind)) refl
