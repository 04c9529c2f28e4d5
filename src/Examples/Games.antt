-- ===== src/Examples/Games.antt =====
-- The theorems on the board games at concrete inputs.
use echo_services.Prelude.{ℕ, ◌+◌, String, List, [], ◌∷◌, ◌≡◌, refl, length, modify_at, some, any}
use echo_services.Board.Ending
use echo_services.Board.Ending.{terminal}
use echo_services.Board.Verdict
use echo_services.Board.Verdict.{Holding}
use echo_services.Board
use echo_services.Board.{Side, Game, apply_move, new_game}
use echo_services.Board.Balance
use echo_services.Board.Balance.{IsPlayed, session}
use echo_services.Board.Play
use echo_services.Board.Play.{Outcome, count}
use echo_services.Board.Tags
use echo_services.Board.Tags.{IsSafe, escape_tag, read_tag}

abbrev moves : List (Side × String)
moves = (Board.a, "3") ∷ (Board.a, "3") ∷ (Board.b, "3") ∷ (Board.a, "9") ∷ []

-- The second move is out of turn, and the last one is off the board.
two_made : (session (new_game Board.c4) moves).1 ≡ 2
unfolding session new_game apply_move modify_at
two_made = refl

session-IsPlayed_example :
    IsPlayed (session (new_game Board.c4) moves).0
    × ((session (new_game Board.c4) moves).1
          + count Board.empty (session (new_game Board.c4) moves).0.cells
        ≡ length (new_game Board.c4).cells)
session-IsPlayed_example = Balance.session-IsPlayed Board.c4 moves

apply_move-Outcome_example :
    Outcome (new_game Board.c4) Board.a (apply_move (new_game Board.c4) Board.a "3")
apply_move-Outcome_example = Play.apply_move-Outcome (new_game Board.c4) Board.a "3"

-- `GS# 1;`
abbrev tag : List ℕ
tag = b'G' ∷ b'S' ∷ b'#' ∷ b' ' ∷ b'1' ∷ b';' ∷ []

escape_tag-IsSafe_example : IsSafe (escape_tag tag) × (read_tag (escape_tag tag) ≡ tag)
escape_tag-IsSafe_example = Tags.escape_tag-IsSafe tag

-- The challenger fills the top row of tic-tac-toe, while the other player is in the middle one.
abbrev top_row : List (Side × String)
top_row = (Board.a, "0") ∷ (Board.b, "3") ∷ (Board.a, "1") ∷ (Board.b, "4") ∷ (Board.a, "2") ∷ []

top_row_wins : terminal (session (new_game Board.ttt) top_row).0 ≡ some (Ending.win Board.a)
unfolding terminal session new_game apply_move modify_at any
top_row_wins = refl

-- The challenger has four in column 3 of Connect Four.
abbrev column_moves : List (Side × String)
column_moves =
    (Board.a, "3")
    ∷ (Board.b, "4")
    ∷ (Board.a, "3")
    ∷ (Board.b, "4")
    ∷ (Board.a, "3")
    ∷ (Board.b, "4")
    ∷ (Board.a, "3")
    ∷ []

column_wins : terminal (session (new_game Board.c4) column_moves).0 ≡ some (Ending.win Board.a)
unfolding terminal session new_game apply_move modify_at any
column_wins = refl

terminal-Holding_example :
    Holding
      (session (new_game Board.ttt) top_row).0
      (terminal (session (new_game Board.ttt) top_row).0)
terminal-Holding_example = Verdict.terminal-Holding Board.ttt top_row
