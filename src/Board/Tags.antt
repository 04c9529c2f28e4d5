-- ===== src/Board/Tags.antt =====
-- The escape of message tags (modules/gameserv/src/board.rs).
use echo_services.Prelude.{
  ℕ, ◌≡◌, ◌≢◌, refl, ap, ◌∙◌, List, [], ◌∷◌, ◌++◌, eqb, if◌then◌else◌, arith, Bool-cases, inl, inr,
}

-- A text is the list of the codes of its characters.
unfoldable pub escaped : ℕ → List ℕ
escaped c =
    if eqb c b';'
    then b'\\' ∷ b':' ∷ []
    else if eqb c b' '
    then b'\\' ∷ b's' ∷ []
    else if eqb c b'\\'
    then b'\\' ∷ b'\\' ∷ []
    else if eqb c 13
    then b'\\' ∷ b'r' ∷ []
    else if eqb c 10
    then b'\\' ∷ b'n' ∷ []
    else c ∷ []

unfoldable pub escape_tag : List ℕ → List ℕ
unfolding escaped
escape_tag [] = []
escape_tag (c ∷ cs) = escaped c ++ escape_tag cs

-- What a receiver of the tag reads for the character after a backslash
unfoldable pub unescaped : ℕ → ℕ
unescaped c =
    if eqb c b':'
    then b';'
    else if eqb c b's'
    then b' '
    else if eqb c b'r'
    then 13
    else if eqb c b'n'
    then 10
    else c

-- How a receiver reads a tag
unfoldable pub read_tag : List ℕ → List ℕ
unfolding unescaped
read_tag [] = []
read_tag (c ∷ []) = if eqb c b'\\' then [] else c ∷ []
read_tag (c ∷ d ∷ cs) =
    let plain = c ∷ read_tag (d ∷ cs) in
    let escape = unescaped d ∷ read_tag cs in if eqb c b'\\' then escape else plain

-- No character of the text ends a tag, a parameter or a line.
abbrev pub IsSafe : List ℕ → Type 0
IsSafe [] = Unit {0}
IsSafe (c ∷ cs) = (c ≢ b';') × (c ≢ b' ') × (c ≢ 13) × (c ≢ 10) × IsSafe cs

escape-IsSafe : (cs : List ℕ) → IsSafe (escape_tag cs)
unfolding escape_tag escaped
escape-IsSafe [] = tt
escape-IsSafe (c ∷ cs) = ground (arith, escape-IsSafe cs)

read-plain : (c : ℕ) (cs : List ℕ) → c ≢ b'\\' → read_tag (c ∷ cs) ≡ c ∷ read_tag cs
unfolding read_tag
read-plain c [] h = ground arith
read-plain c (d ∷ cs) h = ground arith

read-escaped : (c : ℕ) (cs : List ℕ) → read_tag (escaped c ++ cs) ≡ c ∷ read_tag cs
unfolding escaped read_tag unescaped
read-escaped c cs = elim (Bool-cases (eqb c b';')) [
  | inl e ↦ rw e (ground (arith, e))
  | inr n1 ↦ elim (Bool-cases (eqb c b' ')) [
    | inl e ↦ rw (n1, e) (ground (arith, e))
    | inr n2 ↦ elim (Bool-cases (eqb c b'\\')) [
      | inl e ↦ rw (n1, n2, e) (ground (arith, e))
      | inr n3 ↦ elim (Bool-cases (eqb c 13)) [
        | inl e ↦ rw (n1, n2, n3, e) (ground (arith, e))
        | inr n4 ↦ elim (Bool-cases (eqb c 10)) [
          | inl e ↦ rw (n1, n2, n3, n4, e) (ground (arith, e))
          | inr n5 ↦ rw (n1, n2, n3, n4, n5) (read-plain c cs (ground (arith, n3)))
        ]
      ]
    ]
  ]
]

read-escape : (cs : List ℕ) → read_tag (escape_tag cs) ≡ cs
unfolding escape_tag read_tag
read-escape [] = refl
read-escape (c ∷ cs) = read-escaped c (escape_tag cs) ∙ ap (λ (l : List ℕ). c ∷ l) (read-escape cs)

-- An escaped tag holds no semicolon, blank or line break, and reading it by the rules of message
-- tags gives back the text.
pub escape_tag-IsSafe : (cs : List ℕ) → IsSafe (escape_tag cs) × (read_tag (escape_tag cs) ≡ cs)
escape_tag-IsSafe cs = (escape-IsSafe cs, read-escape cs)
