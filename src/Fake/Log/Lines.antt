-- ===== src/Fake/Log/Lines.antt =====
-- lightr-cri-fake: the lines of a byte stream, as the tee thread cuts them.
use lightr_cri.Prelude.{
  ℕ, suc, ◌==◌, ◌≡◌, refl, List, [], ◌∷◌, ◌++◌, none, some, if◌then◌else◌, take, drop, arith,
  Option-cases, inl, inr,
}
use lightr_cri.Fake.Log.{newline, position}

-- The first line of a list whose first byte is `b`, given those of the rest.
abbrev pub cons_line : ℕ → List (List ℕ) × List ℕ → List (List ℕ) × List ℕ
cons_line b ([], rest) = ([], b ∷ rest)
cons_line b (l ∷ ls, rest) = ((b ∷ l) ∷ ls, rest)

-- The lines that have ended, each with its newline, and the bytes behind the last of them.
unfoldable pub lines : List ℕ → List (List ℕ) × List ℕ
lines [] = ([], [])
lines (b ∷ bytes) =
    let (ls, rest) = lines bytes in
    if b == newline then ((b ∷ []) ∷ ls, rest) else cons_line b (ls, rest)

abbrev pub joined_lines : List (List ℕ) → List ℕ
joined_lines [] = []
joined_lines (l ∷ ls) = l ++ joined_lines ls

-- Lines and the rest are the bytes.
pub lines_joined : (bytes : List ℕ) → joined_lines (lines bytes).0 ++ (lines bytes).1 ≡ bytes
unfolding lines
lines_joined [] = refl
lines_joined (b ∷ bytes) = go (lines bytes) (lines_joined bytes)
  where
    go :
        (p : List (List ℕ) × List ℕ)
        → joined_lines p.0 ++ p.1 ≡ bytes
        → let q = if b == newline then ((b ∷ []) ∷ p.0, p.1) else cons_line b p in
          joined_lines q.0 ++ q.1 ≡ b ∷ bytes
    go ([], rest) h = ground arith
    go (l ∷ ls, rest) h = ground arith

-- The lines of two pieces: those of the first, then those of what it left before the second.
pub lines-append :
    (xs ys : List ℕ)
    → lines (xs ++ ys)
      ≡ ((lines xs).0 ++ (lines ((lines xs).1 ++ ys)).0, (lines ((lines xs).1 ++ ys)).1)
unfolding lines
lines-append [] ys = refl
lines-append (x ∷ xs) ys = go (lines xs) (lines (xs ++ ys)) (lines-append xs ys)
  where
    go :
        (p q : List (List ℕ) × List ℕ)
        → q ≡ (p.0 ++ (lines (p.1 ++ ys)).0, (lines (p.1 ++ ys)).1)
        → let r = if x == newline then ((x ∷ []) ∷ p.0, p.1) else cons_line x p in
          (if x == newline then ((x ∷ []) ∷ q.0, q.1) else cons_line x q)
          ≡ (r.0 ++ (lines (r.1 ++ ys)).0, (lines (r.1 ++ ys)).1)
    go ([], rest) q e = ground arith
    go (l ∷ ls, rest) q e = ground arith

pub lines_whole : (bytes : List ℕ) → position bytes ≡ none → lines bytes ≡ ([], bytes)
unfolding lines position
lines_whole [] e = refl
lines_whole (b ∷ bytes) e = elim (Option-cases (position bytes)) [
  | inl n ↦ ground (arith, lines_whole bytes n)
  | inr (i, n) ↦ absurd (ground arith)
]

-- What is left behind the last newline has no line.
pub lines_rest : (bytes : List ℕ) → lines (lines bytes).1 ≡ ([], (lines bytes).1)
unfolding lines
lines_rest [] = refl
lines_rest (b ∷ bytes) = go (lines bytes) (lines_rest bytes)
  where
    go :
        (p : List (List ℕ) × List ℕ)
        → lines p.1 ≡ ([], p.1)
        → let q = if b == newline then ((b ∷ []) ∷ p.0, p.1) else cons_line b p in
          lines q.1 ≡ ([], q.1)
    go ([], rest) h = ground arith
    go (l ∷ ls, rest) h = ground arith

-- Where a newline stands, the lines are the bytes up to it and the lines behind it; where none
-- stands, there are none.
pub lines-position :
    (bytes : List ℕ) (pos : ℕ)
    → position bytes ≡ some pos
    → lines bytes
      ≡ (take (suc pos) bytes ∷ (lines (drop (suc pos) bytes)).0, (lines (drop (suc pos) bytes)).1)
unfolding lines position
lines-position [] pos e = absurd (ground arith)
lines-position (b ∷ bytes) pos e = elim (Option-cases (position bytes)) [
  | inl n ↦ ground arith
  | inr (i, n) ↦ ground (arith, lines-position bytes i n)
]
