-- ===== src/Board/Play.antt =====
-- What a legal move does, and how long a game can last (modules/gameserv/src/board.rs).
use echo_services.Prelude.{
  ℕ, zero, suc, ◌+◌, ◌*◌, ◌≤◌, ◌<◌, ◌≡◌, ◌≢◌, refl, sym, ◌⊎◌, String, Bool, true, false, Option,
  none, some, List, [], ◌∷◌, eqb, leb, if◌then◌else◌, modify_at, length, arith, Bool-cases, inl,
  inr, if_rule,
}
use echo_services.Board.{
  GameType, ttt, c4, Side, a, b, other, same_side, empty, c4_w, c4_h, glyph, Game, is_free, drop_to,
  target, parse_usize, place, play, apply_move,
}

-- How many cells hold this piece
unfoldable pub count : ℕ → List ℕ → ℕ
count p [] = 0
count p (x ∷ xs) = (if eqb x p then 1 else 0) + count p xs

pub count-modify :
    (p q : ℕ) (xs : List ℕ) (i : ℕ)
    → is_free xs i ≡ true
    → q ≢ empty
    → count p (modify_at i (λ _. q) xs) + (if eqb p empty then 1 else 0)
      ≡ count p xs + (if eqb p q then 1 else 0)
unfolding count modify_at
count-modify p q [] i h n = ground arith
count-modify p q (x ∷ xs) zero h n = ground (arith, h)
count-modify p q (x ∷ xs) (suc i) h n = ground (arith, count-modify p q xs i h n)

pub length-modify_at : (i : ℕ) (f : ℕ → ℕ) (xs : List ℕ) → length (modify_at i f xs) ≡ length xs
unfolding modify_at
length-modify_at i f [] = refl
length-modify_at zero f (x ∷ xs) = refl
length-modify_at (suc i) f (x ∷ xs) = omega (arith, length-modify_at i f xs)

-- A piece that drops lands on a free cell of its column, and every cell of the column below is taken.
drop_to-lands :
    (cells : List ℕ) (col rows r i : ℕ)
    → drop_to cells col rows r ≡ some i
    → (k : ℕ) × (i ≡ k * c4_w + col)
      × (r ≤ k)
      × (is_free cells i ≡ true)
      × ((j : ℕ) → r ≤ j → j < k → is_free cells (j * c4_w + col) ≡ false)
unfolding drop_to
drop_to-lands cells col zero r i h = absurd (ground (arith, h))
drop_to-lands cells col (suc rows) r i h = elim (Bool-cases (is_free cells (r * c4_w + col))) [
  | inl here ↦
      let e : r * c4_w + col ≡ i = ground (arith, h, here) in
      (r, sym e, omega arith, rw (← e) here, λ j u l. absurd (omega arith))
  | inr taken ↦
      let (k, e, le, free, below) =
        drop_to-lands cells col rows (r + 1) i (ground (arith, h, taken)) in
      (
        k,
        e,
        omega arith,
        free,
        λ j u l. elim (Bool-cases (eqb j r)) [
          | inl at ↦ let same : j ≡ r = ground (arith, at) in rw same taken
          | inr up ↦ below j (ground (arith, up)) l
        ],
      )
]

-- Where a piece may go: on a free cell; in Connect Four also in a column with no hole below it.
abbrev pub Fits : GameType → List ℕ → ℕ → Type 0
Fits ttt cells i = is_free cells i ≡ true
Fits c4 cells i =
    (is_free cells i ≡ true)
    × ((k col : ℕ) × (i ≡ k * c4_w + col)
        × (col < c4_w)
        × ((j : ℕ) → j < k → is_free cells (j * c4_w + col) ≡ false))

target-Fits :
    (kind : GameType) (cells : List ℕ) (n i : ℕ) → target kind cells n ≡ some i → Fits kind cells i
unfolding target
target-Fits ttt cells n i h = elim (Bool-cases (is_free cells n)) [
  | inl free ↦ let e : n ≡ i = ground (arith, h, free) in rw (← e) free
  | inr taken ↦ absurd (ground (arith, h, taken))
]
target-Fits c4 cells n i h = elim (Bool-cases (leb c4_w n)) [
  | inl out ↦ absurd (ground (arith, h, out))
  | inr col ↦
      let (k, e, le, free, below) = drop_to-lands cells n c4_h 0 i (rw col at h) in
      (free, (k, n, e, ground (arith, col), λ j l. below j (omega arith) l))
]

pub Fits-free :
    (kind : GameType) (cells : List ℕ) (i : ℕ) → Fits kind cells i → is_free cells i ≡ true
Fits-free ttt cells i f = f
Fits-free c4 cells i f = f.0

-- A move that was made: the player was to move, one fitting cell got the player's piece, and the
-- other player is to move.
pub record Made (g : Game) (side : Side) (g' : Game) : Type 0 where
  pub turn : g.turn ≡ side
  pub cell : ℕ
  pub fits : Fits g.kind g.cells cell
  pub after :
      g' ≡ record g { cells = modify_at cell (λ _. glyph g.kind side) g.cells; turn = other side }

-- The two outcomes of a move
abbrev pub Outcome : Game → Side → Game × Bool → Type 0
Outcome g side r = ((r.1 ≡ true) × Made g side r.0) ⊎ ((r.1 ≡ false) × (r.0 ≡ g))

same_side-eq : (s t : Side) → same_side s t ≡ true → s ≡ t
unfolding same_side
same_side-eq a a h = refl
same_side-eq b b h = refl
same_side-eq a b h = ground (arith, h)
same_side-eq b a h = ground (arith, h)

play-Outcome :
    (g : Game) (side : Side) (o : Option ℕ)
    → g.turn ≡ side
    → ((i : ℕ) → o ≡ some i → Fits g.kind g.cells i)
    → Outcome g side (play g side o)
play-Outcome g side none t f = inr (refl, refl)
play-Outcome g side (some i) t f =
    inl (refl, record { turn = t; cell = i; fits = f i refl; after = refl })

place-Outcome :
    (g : Game) (side : Side) (o : Option ℕ) → g.turn ≡ side → Outcome g side (place g side o)
place-Outcome g side none t = inr (refl, refl)
place-Outcome g side (some n) t =
    play-Outcome g side (target g.kind g.cells n) t (target-Fits g.kind g.cells n)

-- A move is made or refused. A refused move changes nothing. A move that is made was the player's
-- turn, puts the player's piece on one cell that was free, in Connect Four on the lowest free one of
-- a column of the board, changes no other cell, and passes the turn.
pub apply_move-Outcome :
    (g : Game) (side : Side) (mv : String) → Outcome g side (apply_move g side mv)
unfolding apply_move
apply_move-Outcome g side mv =
    if_rule (Outcome g side) (same_side g.turn side)
      (λ t. place-Outcome g side (parse_usize mv) (same_side-eq g.turn side t))
      (λ _. inr (refl, refl))
