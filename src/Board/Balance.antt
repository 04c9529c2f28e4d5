-- ===== src/Board/Balance.antt =====
-- The pieces on a board, and how long a game lasts (modules/gameserv/src/board.rs).
use echo_services.Prelude.{
  ℕ, ◌+◌, ◌≡◌, ◌≢◌, refl, ap, sym, ◌∙◌, subst, String, true, List, [], ◌∷◌, if◌then◌else◌,
  modify_at, length, arith, inl, inr,
}
use echo_services.Board.{
  GameType, ttt, c4, Side, a, b, other, empty, glyph, Game, is_free, apply_move, new_game,
  free_cells,
}
use echo_services.Board.Play.{
  count, count-modify, length-modify_at, Made, apply_move-Outcome, Fits-free,
}

abbrev moved : Side → ℕ
moved a = 0
moved b = 1

-- The challenger has as many pieces on the board as the other player, and one more when that player
-- is to move; every cell is free or holds a piece of one of the two.
pub record IsPlayed (g : Game) : Type 0 where
  pub balance : count (glyph g.kind a) g.cells ≡ count (glyph g.kind b) g.cells + moved g.turn
  pub total :
      count empty g.cells + count (glyph g.kind a) g.cells + count (glyph g.kind b) g.cells
      ≡ length g.cells

pieces :
    (p q : ℕ) (cells : List ℕ) (i : ℕ)
    → is_free cells i ≡ true
    → p ≢ empty
    → q ≢ empty
    → p ≢ q
    → let cells' : List ℕ = modify_at i (λ _. p) cells in
      (count empty cells' + 1 ≡ count empty cells)
      × (count p cells' ≡ count p cells + 1)
      × (count q cells' ≡ count q cells)
pieces p q cells i h pe qe pq = (
  ground (arith, count-modify empty p cells i h pe),
  ground (arith, count-modify p p cells i h pe),
  ground (arith, count-modify q p cells i h pe),
)

-- What a piece on a free cell does to the counts
piece :
    (kind : GameType) (side : Side) (cells : List ℕ) (i : ℕ)
    → is_free cells i ≡ true
    → let cells' : List ℕ = modify_at i (λ _. glyph kind side) cells in
      (count empty cells' + 1 ≡ count empty cells)
      × (count (glyph kind side) cells' ≡ count (glyph kind side) cells + 1)
      × (count (glyph kind (other side)) cells' ≡ count (glyph kind (other side)) cells)
unfolding glyph other
piece ttt a cells i h = pieces b'X' b'O' cells i h (omega arith) (omega arith) (omega arith)
piece ttt b cells i h = pieces b'O' b'X' cells i h (omega arith) (omega arith) (omega arith)
piece c4 a cells i h = pieces b'R' b'Y' cells i h (omega arith) (omega arith) (omega arith)
piece c4 b cells i h = pieces b'Y' b'R' cells i h (omega arith) (omega arith) (omega arith)

next-IsPlayed :
    (g : Game) (side : Side) (i : ℕ)
    → g.turn ≡ side
    → is_free g.cells i ≡ true
    → IsPlayed g
    → IsPlayed
        (record g { cells = modify_at i (λ _. glyph g.kind side) g.cells; turn = other side })
unfolding other
next-IsPlayed g a i t f h =
    let p : (_ ≡ _) × (_ ≡ _) × (_ ≡ _) = piece g.kind a g.cells i f in
    record {
      balance = omega (arith, h.balance, ap moved t, p.1, p.2);
      total =
          omega (arith, h.total, p.0, p.1, p.2, length-modify_at i (λ _. glyph g.kind a) g.cells);
    }
next-IsPlayed g b i t f h =
    let p : (_ ≡ _) × (_ ≡ _) × (_ ≡ _) = piece g.kind b g.cells i f in
    record {
      balance = omega (arith, h.balance, ap moved t, p.1, p.2);
      total =
          omega (arith, h.total, p.0, p.1, p.2, length-modify_at i (λ _. glyph g.kind b) g.cells);
    }

Made-IsPlayed : (g g' : Game) (side : Side) → Made g side g' → IsPlayed g → IsPlayed g'
Made-IsPlayed g g' side m h =
    subst IsPlayed (sym m.after)
      (next-IsPlayed g side m.cell m.turn (Fits-free g.kind g.cells m.cell m.fits) h)

Made-count :
    (g g' : Game) (side : Side) → Made g side g' → count empty g'.cells + 1 ≡ count empty g.cells
Made-count g g' side m =
    ap (λ (x : Game). count empty x.cells + 1) m.after
    ∙ (piece g.kind side g.cells m.cell (Fits-free g.kind g.cells m.cell m.fits)).0

-- A game under these moves, and how many of them were made
unfoldable pub session : Game → List (Side × String) → Game × ℕ
unfolding apply_move
session g [] = (g, 0)
session g ((side, mv) ∷ ms) =
    let (g', made) = apply_move g side mv in
    let (end, n) = session g' ms in (end, if made then n + 1 else n)

session-both :
    (g : Game) (ms : List (Side × String))
    → IsPlayed g
    → IsPlayed (session g ms).0
      × ((session g ms).1 + count empty (session g ms).0.cells ≡ count empty g.cells)
unfolding session
session-both g [] h = (h, omega arith)
session-both g ((side, mv) ∷ ms) h = elim (apply_move-Outcome g side mv) [
  | inl (yes_made, m) ↦
      let (later, left) =
        session-both (apply_move g side mv).0 ms
          (Made-IsPlayed g (apply_move g side mv).0 side m h) in
      (later, rw yes_made (omega (arith, left, Made-count g (apply_move g side mv).0 side m)))
  | inr (refused, same) ↦
      let (later, left) = session-both (apply_move g side mv).0 ms (subst IsPlayed (sym same) h) in
      (later, rw refused (left ∙ ap (λ (x : Game). count empty x.cells) same))
]

new_game-IsPlayed : (kind : GameType) → IsPlayed (new_game kind)
unfolding new_game free_cells count glyph
new_game-IsPlayed ttt = record { balance = refl; total = refl }
new_game-IsPlayed c4 = record { balance = refl; total = refl }

all_free : (kind : GameType) → count empty (new_game kind).cells ≡ length (new_game kind).cells
unfolding new_game free_cells count
all_free ttt = refl
all_free c4 = refl

-- From a new game on, whatever the two players send: every cell is free or holds a piece of one of
-- them, the challenger has as many pieces as the other player, or one more when that player is to
-- move, and the moves that were made and the cells that are still free are as many as the cells of
-- the board. So at most nine moves of tic-tac-toe, and 42 of Connect Four, are ever made.
pub session-IsPlayed :
    (kind : GameType) (ms : List (Side × String))
    → IsPlayed (session (new_game kind) ms).0
      × ((session (new_game kind) ms).1 + count empty (session (new_game kind) ms).0.cells
          ≡ length (new_game kind).cells)
session-IsPlayed kind ms =
    let (h, left) = session-both (new_game kind) ms (new_game-IsPlayed kind) in
    (h, left ∙ all_free kind)
