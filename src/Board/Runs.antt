-- ===== src/Board/Runs.antt =====
-- A run of four in Connect Four is a line of the board (modules/gameserv/src/board.rs).
use echo_services.Prelude.{ℕ, suc, ◌+◌, ◌-◌, ◌*◌, ◌≤◌, ◌<◌, ◌≡◌, refl, subst, true, List, arith}
use echo_services.Board.{c4, c4_w, c4_h}
use echo_services.Board.Ending.{at, Dir, across, up, rising, falling, next_column, next_row, run}
use echo_services.Board.Lines.{Line, flat, stack, slope, descent, Holds, Wins}

-- A cell of the board with this piece, its row counted from 1
abbrev OnBoard : List ℕ → ℕ → ℕ → ℕ → Type 0
OnBoard cells p c r = (c < c4_w) × (1 ≤ r) × (r ≤ c4_h) × (at cells ((r - 1) * c4_w + c) ≡ p)

-- The first cell of a run, and the run from the next one
run-first :
    (cells : List ℕ) (p n c r : ℕ) (d : Dir)
    → run cells p (suc n) c r d ≡ true
    → OnBoard cells p c r × (run cells p n (next_column d c) (next_row d r) d ≡ true)
unfolding run
run-first cells p n c r d h = (
  (ground (arith, h), ground (arith, h), ground (arith, h), ground (arith, h)),
  ground (arith, h),
)

-- The four cells of a run
run-OnBoard :
    (cells : List ℕ) (p c r : ℕ) (d : Dir)
    → run cells p 4 c r d ≡ true
    → OnBoard cells p c r
      × OnBoard cells p (next_column d c) (next_row d r)
      × OnBoard cells p (next_column d (next_column d c)) (next_row d (next_row d r))
      × OnBoard cells p
          (next_column d (next_column d (next_column d c)))
          (next_row d (next_row d (next_row d r)))
run-OnBoard cells p c r d h =
    let (e0, h1) = run-first cells p 3 c r d h in
    let (e1, h2) = run-first cells p 2 (next_column d c) (next_row d r) d h1 in
    let (e2, h3) =
      run-first cells p 1 (next_column d (next_column d c)) (next_row d (next_row d r)) d h2 in
    let (e3, h4) =
      run-first cells p 0 (next_column d (next_column d (next_column d c)))
        (next_row d (next_row d (next_row d r))) d h3 in
    (e0, e1, e2, e3)

same_cell : (cells : List ℕ) (p i j : ℕ) → at cells i ≡ p → i ≡ j → at cells j ≡ p
same_cell cells p i j h e = subst (λ k. at cells k ≡ p) e h

-- A run of four is a line.
pub run-Wins :
    (cells : List ℕ) (p c r : ℕ) (d : Dir) → run cells p 4 c (r + 1) d ≡ true → Wins c4 cells p
unfolding next_column next_row
run-Wins cells p c r across h =
    let ((c0, a0, b0, e0), (c1, a1, b1, e1), (c2, a2, b2, e2), (c3, a3, b3, e3)) =
      run-OnBoard cells p c (r + 1) across h in
    record {
      line = _;
      of_game = flat c r (omega (arith, c3)) (omega (arith, b0));
      held = (
        same_cell cells p _ _ e0 (omega (arith)),
        (
          same_cell cells p _ _ e1 (omega (arith)),
          (
            same_cell cells p _ _ e2 (omega (arith)),
            (same_cell cells p _ _ e3 (omega (arith)), tt),
          ),
        ),
      );
    }
run-Wins cells p c r up h =
    let ((c0, a0, b0, e0), (c1, a1, b1, e1), (c2, a2, b2, e2), (c3, a3, b3, e3)) =
      run-OnBoard cells p c (r + 1) up h in
    record {
      line = _;
      of_game = stack c r (omega (arith, c0)) (omega (arith, b3));
      held = (
        same_cell cells p _ _ e0 (omega (arith)),
        (
          same_cell cells p _ _ e1 (omega (arith)),
          (
            same_cell cells p _ _ e2 (omega (arith)),
            (same_cell cells p _ _ e3 (omega (arith)), tt),
          ),
        ),
      );
    }
run-Wins cells p c r rising h =
    let ((c0, a0, b0, e0), (c1, a1, b1, e1), (c2, a2, b2, e2), (c3, a3, b3, e3)) =
      run-OnBoard cells p c (r + 1) rising h in
    record {
      line = _;
      of_game = slope c r (omega (arith, c3)) (omega (arith, b3));
      held = (
        same_cell cells p _ _ e0 (omega (arith)),
        (
          same_cell cells p _ _ e1 (omega (arith)),
          (
            same_cell cells p _ _ e2 (omega (arith)),
            (same_cell cells p _ _ e3 (omega (arith)), tt),
          ),
        ),
      );
    }
run-Wins cells p c r falling h =
    let ((c0, a0, b0, e0), (c1, a1, b1, e1), (c2, a2, b2, e2), (c3, a3, b3, e3)) =
      run-OnBoard cells p c (r + 1) falling h in
    record {
      line = _;
      of_game = descent c (r - 3) (omega (arith, c3)) (omega (arith, a3, b0));
      held = (
        same_cell cells p _ _ e0 (omega (arith, a3)),
        (
          same_cell cells p _ _ e1 (omega (arith, a3)),
          (
            same_cell cells p _ _ e2 (omega (arith, a3)),
            (same_cell cells p _ _ e3 (omega (arith, a3)), tt),
          ),
        ),
      );
    }

run-step :
    (cells : List ℕ) (p n c r : ℕ) (d : Dir)
    → OnBoard cells p c r
    → run cells p n (next_column d c) (next_row d r) d ≡ true
    → run cells p (suc n) c r d ≡ true
unfolding run
run-step cells p n c r d (cl, rl, ru, e) h = ground (arith, cl, rl, ru, e, h)

run-made :
    (cells : List ℕ) (p c r : ℕ) (d : Dir)
    → OnBoard cells p c r
    → OnBoard cells p (next_column d c) (next_row d r)
    → OnBoard cells p (next_column d (next_column d c)) (next_row d (next_row d r))
    → OnBoard cells p
        (next_column d (next_column d (next_column d c)))
        (next_row d (next_row d (next_row d r)))
    → run cells p 4 c r d ≡ true
unfolding run
run-made cells p c r d e0 e1 e2 e3 =
    run-step cells p 3 c r d e0
      (run-step cells p 2 _ _ d e1 (run-step cells p 1 _ _ d e2 (run-step cells p 0 _ _ d e3 refl)))

on_board :
    (cells : List ℕ) (p i c r : ℕ)
    → at cells i ≡ p
    → c < c4_w
    → 1 ≤ r
    → r ≤ c4_h
    → i ≡ (r - 1) * c4_w + c
    → OnBoard cells p c r
on_board cells p i c r e cl lo hi at_it = (cl, lo, hi, same_cell cells p _ _ e at_it)

-- A line held by a piece is a run of four from a cell of the board.
pub Line-run :
    (cells : List ℕ) (p : ℕ) (is : List ℕ)
    → Line c4 is
    → Holds cells p is
    → (c : ℕ) × (r : ℕ) × (d : Dir) × (c < c4_w)
      × (r < c4_h)
      × (at cells (r * c4_w + c) ≡ p)
      × (run cells p 4 c (r + 1) d ≡ true)
unfolding next_column next_row
Line-run cells p is (flat c r cl rl) (e0, (e1, (e2, (e3, u)))) = (
  c,
  r,
  across,
  omega (arith, cl),
  omega (arith, rl),
  e0,
  run-made cells p c (r + 1) across
      (on_board cells p _ _ _ e0 (omega (arith, cl)) (omega arith) (omega (arith, rl))
        (omega arith))
      (on_board cells p _ _ _ e1 (omega (arith, cl)) (omega arith) (omega (arith, rl))
        (omega arith))
      (on_board cells p _ _ _ e2 (omega (arith, cl)) (omega arith) (omega (arith, rl))
        (omega arith))
      (on_board cells p _ _ _ e3 (omega (arith, cl)) (omega arith) (omega (arith, rl))
        (omega arith)),
)
Line-run cells p is (stack c r cl rl) (e0, (e1, (e2, (e3, u)))) = (
  c,
  r,
  up,
  omega (arith, cl),
  omega (arith, rl),
  e0,
  run-made cells p c (r + 1) up
      (on_board cells p _ _ _ e0 (omega (arith, cl)) (omega arith) (omega (arith, rl))
        (omega arith))
      (on_board cells p _ _ _ e1 (omega (arith, cl)) (omega arith) (omega (arith, rl))
        (omega arith))
      (on_board cells p _ _ _ e2 (omega (arith, cl)) (omega arith) (omega (arith, rl))
        (omega arith))
      (on_board cells p _ _ _ e3 (omega (arith, cl)) (omega arith) (omega (arith, rl))
        (omega arith)),
)
Line-run cells p is (slope c r cl rl) (e0, (e1, (e2, (e3, u)))) = (
  c,
  r,
  rising,
  omega (arith, cl),
  omega (arith, rl),
  e0,
  run-made cells p c (r + 1) rising
      (on_board cells p _ _ _ e0 (omega (arith, cl)) (omega arith) (omega (arith, rl))
        (omega arith))
      (on_board cells p _ _ _ e1 (omega (arith, cl)) (omega arith) (omega (arith, rl))
        (omega arith))
      (on_board cells p _ _ _ e2 (omega (arith, cl)) (omega arith) (omega (arith, rl))
        (omega arith))
      (on_board cells p _ _ _ e3 (omega (arith, cl)) (omega arith) (omega (arith, rl))
        (omega arith)),
)
Line-run cells p is (descent c r cl rl) (e0, (e1, (e2, (e3, u)))) = (
  c,
  r + 3,
  falling,
  omega (arith, cl),
  omega (arith, rl),
  same_cell cells p _ _ e0 (omega arith),
  run-made cells p c (r + 3 + 1) falling
      (on_board cells p _ _ _ e0 (omega (arith, cl)) (omega arith) (omega (arith, rl))
        (omega arith))
      (on_board cells p _ _ _ e1 (omega (arith, cl)) (omega arith) (omega (arith, rl))
        (omega arith))
      (on_board cells p _ _ _ e2 (omega (arith, cl)) (omega arith) (omega (arith, rl))
        (omega arith))
      (on_board cells p _ _ _ e3 (omega (arith, cl)) (omega arith) (omega (arith, rl))
        (omega arith)),
)
