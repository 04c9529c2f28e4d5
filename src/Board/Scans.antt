-- ===== src/Board/Scans.antt =====
-- The two scans for a winner (modules/gameserv/src/board.rs).
use echo_services.Prelude.{
  ℕ, zero, suc, ◌+◌, ◌*◌, ◌≡◌, ◌≢◌, sym, subst, Bool, true, none, some, List, [], ◌∷◌, any, arith,
  Bool-cases, inl, inr,
}
use echo_services.Board.{GameType, ttt, c4, empty, c4_w, c4_h}
use echo_services.Board.Ending.{
  at, ttt_lines, find_map, line_piece, Dir, dirs, across, up, rising, falling, run, run_piece,
  range_from, winner,
}
use echo_services.Board.Lines.{
  Line, row, column, diagonal, antidiagonal, Holds, Wins, find_map-none, find_map-some,
  or_else-none, or_else-some,
}
use echo_services.Board.Runs.{run-Wins, Line-run}

-- A line of tic-tac-toe that a piece holds, and the other way round
line_piece-some :
    (cells : List ℕ) (i j k p : ℕ)
    → line_piece cells (i, j, k) ≡ some p
    → (p ≢ empty) × Holds cells p (i ∷ j ∷ k ∷ [])
unfolding line_piece
line_piece-some cells i j k p h =
    (ground (arith, h), (ground (arith, h), (ground (arith, h), (ground (arith, h), tt))))

line_piece-none :
    (cells : List ℕ) (i j k p : ℕ)
    → line_piece cells (i, j, k) ≡ none
    → Holds cells p (i ∷ j ∷ k ∷ [])
    → p ≡ empty
unfolding line_piece
line_piece-none cells i j k p h (e, (f, (g, u))) = ground (arith, h, e, f, g)

any-dirs : (f : Dir → Bool) → any f dirs ≡ true → (d : Dir) × (f d ≡ true)
unfolding any
any-dirs f h = elim (Bool-cases (f across)) [
  | inl e ↦ (across, e)
  | inr m ↦ elim (Bool-cases (f up)) [
    | inl e ↦ (up, e)
    | inr n ↦ elim (Bool-cases (f rising)) [
      | inl e ↦ (rising, e)
      | inr o ↦ (falling, ground (arith, h, m, n, o))
    ]
  ]
]

dirs-any : (f : Dir → Bool) (d : Dir) → f d ≡ true → any f dirs ≡ true
unfolding any
dirs-any f across h = ground (arith, h)
dirs-any f up h = ground (arith, h)
dirs-any f rising h = ground (arith, h)
dirs-any f falling h = ground (arith, h)

-- The piece of a run that is found stands on a line.
run_piece-some :
    (cells : List ℕ) (c r p : ℕ) → run_piece cells c r ≡ some p → (p ≢ empty) × Wins c4 cells p
unfolding run_piece
run_piece-some cells c r p h =
    let q : ℕ = at cells (r * c4_w + c) in
    let same : q ≡ p = ground (arith, h) in
    let (d, e) = any-dirs (run cells q 4 c (r + 1)) (ground (arith, h)) in
    (ground (arith, h), subst (λ x. Wins c4 cells x) same (run-Wins cells q c r d e))

run_piece-none :
    (cells : List ℕ) (c r p : ℕ) (d : Dir)
    → run_piece cells c r ≡ none
    → at cells (r * c4_w + c) ≡ p
    → run cells p 4 c (r + 1) d ≡ true
    → p ≡ empty
unfolding run_piece
run_piece-none cells c r p d h e k =
    let q : ℕ = at cells (r * c4_w + c) in
    let found : any (run cells q 4 c (r + 1)) dirs ≡ true =
      dirs-any (run cells q 4 c (r + 1)) d
        (subst (λ x. run cells x 4 c (r + 1) d ≡ true) (sym e) k) in
    ground (arith, h, e, found)

-- The cells of each entry of the table are a line.
abbrev AllLines : List (ℕ × ℕ × ℕ) → Type 0
AllLines [] = Unit {0}
AllLines ((i, j, k) ∷ ls) = Line ttt (i ∷ j ∷ k ∷ []) × AllLines ls

-- No entry of the table is held.
abbrev AllMiss : List ℕ → List (ℕ × ℕ × ℕ) → Type 0
AllMiss cells [] = Unit {0}
AllMiss cells ((i, j, k) ∷ ls) = (line_piece cells (i, j, k) ≡ none) × AllMiss cells ls

ttt_lines-AllLines : AllLines ttt_lines
ttt_lines-AllLines = (
  row 0 (omega arith),
  (
    row 1 (omega arith),
    (
      row 2 (omega arith),
      (
        column 0 (omega arith),
        (column 1 (omega arith), (column 2 (omega arith), (diagonal, (antidiagonal, tt)))),
      ),
    ),
  ),
)

line_pieces-some :
    (cells : List ℕ) (ls : List (ℕ × ℕ × ℕ)) (p : ℕ)
    → find_map (line_piece cells) ls ≡ some p
    → AllLines ls
    → (p ≢ empty) × Wins ttt cells p
unfolding find_map
line_pieces-some cells [] p h lines = absurd (ground (arith, h))
line_pieces-some cells ((i, j, k) ∷ ls) p h (l, lines) =
    elim (or_else-some (line_piece cells (i, j, k)) (find_map (line_piece cells) ls) p h) [
      | inl here ↦
          let (n, held) = line_piece-some cells i j k p here in
          (n, record { line = _; of_game = l; held = held })
      | inr later ↦ line_pieces-some cells ls p later lines
    ]

line_pieces-none :
    (cells : List ℕ) (ls : List (ℕ × ℕ × ℕ))
    → find_map (line_piece cells) ls ≡ none
    → AllMiss cells ls
unfolding find_map
line_pieces-none cells [] h = tt
line_pieces-none cells ((i, j, k) ∷ ls) h =
    let (here, later) =
      or_else-none (line_piece cells (i, j, k)) (find_map (line_piece cells) ls) h in
    (here, line_pieces-none cells ls later)

-- Every line of tic-tac-toe is an entry of the table.
missed-Line :
    (cells : List ℕ) (p : ℕ) (is : List ℕ)
    → AllMiss cells ttt_lines
    → Line ttt is
    → Holds cells p is
    → p ≡ empty
missed-Line cells p is m (row zero lt) h = line_piece-none cells 0 1 2 p m.0 h
missed-Line cells p is m (row (suc zero) lt) h = line_piece-none cells 3 4 5 p m.1.0 h
missed-Line cells p is m (row (suc (suc zero)) lt) h = line_piece-none cells 6 7 8 p m.1.1.0 h
missed-Line cells p is m (row (suc (suc (suc r))) lt) h = absurd (omega (arith, lt))
missed-Line cells p is m (column zero lt) h = line_piece-none cells 0 3 6 p m.1.1.1.0 h
missed-Line cells p is m (column (suc zero) lt) h = line_piece-none cells 1 4 7 p m.1.1.1.1.0 h
missed-Line cells p is m (column (suc (suc zero)) lt) h =
    line_piece-none cells 2 5 8 p m.1.1.1.1.1.0 h
missed-Line cells p is m (column (suc (suc (suc c))) lt) h = absurd (omega (arith, lt))
missed-Line cells p is m diagonal h = line_piece-none cells 0 4 8 p m.1.1.1.1.1.1.0 h
missed-Line cells p is m antidiagonal h = line_piece-none cells 2 4 6 p m.1.1.1.1.1.1.1.0 h

-- No piece stands on a line where the scan finds none.
pub winner-none :
    (kind : GameType) (cells : List ℕ) (p : ℕ)
    → winner kind cells ≡ none
    → p ≢ empty
    → ¬ Wins kind cells p
unfolding winner find_map
winner-none ttt cells p h n w =
    n (missed-Line cells p w.line (line_pieces-none cells ttt_lines h) w.of_game w.held)
winner-none c4 cells p h n w =
    let (c, r, d, cl, rl, e, k) = Line-run cells p w.line w.of_game w.held in
    n (
      run_piece-none cells c r p d
        (find_map-none (run_piece cells c) c4_h 0 r
          (find_map-none (λ i. find_map (run_piece cells i) (range_from 0 c4_h)) c4_w 0 c h
            (omega arith) (omega (arith, cl)))
          (omega arith) (omega (arith, rl)))
        e k)

-- The piece that the scan finds stands on a line.
pub winner-some :
    (kind : GameType) (cells : List ℕ) (p : ℕ)
    → winner kind cells ≡ some p
    → (p ≢ empty) × Wins kind cells p
unfolding winner
winner-some ttt cells p h = line_pieces-some cells ttt_lines p h ttt_lines-AllLines
winner-some c4 cells p h =
    let (c, cl, found) =
      find_map-some (λ i. find_map (run_piece cells i) (range_from 0 c4_h)) c4_w 0 p h in
    let (r, rl, e) = find_map-some (run_piece cells c) c4_h 0 p found in
    run_piece-some cells c r p e
