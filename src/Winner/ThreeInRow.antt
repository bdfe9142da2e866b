-- ===== src/Winner/ThreeInRow.antt =====
-- Three in a row, described without the list of lines.
use tintemp_plus_plus.Base.{
  ℕ, ◌≡◌, refl, ◌≢◌, ◌⊎◌, inl, inr, ◌↔◌, Bool, true, false, ◌||◌, arith, Bool-cases, sym, ◌∙◌,
}
use tintemp_plus_plus.Board.{Ix, i0, i1, i2, idle, Board, status_at}
use tintemp_plus_plus.Ttt.{Ttt, won}
use tintemp_plus_plus.Winner.{fetch_winner}
use mathlib.Core.Bool.{false≢true}
use tintemp_plus_plus.Winner.Lines.{
  Line, row_line, column_line, diagonal, antidiagonal, status_of, is_complete,
}
use tintemp_plus_plus.Winner.Result.{any_line, result-fetch_winner}

abbrev pub opposite : Ix → Ix
opposite i0 = i2
opposite i1 = i1
opposite i2 = i0

-- A mark fills a row, a column or a diagonal.
abbrev pub ThreeInRow : Board → ℕ → Type 0
ThreeInRow b m =
    ((i : Ix) × ((k : Ix) → status_at b i k ≡ m))
    ⊎ ((k : Ix) × ((i : Ix) → status_at b i k ≡ m))
    ⊎ ((i : Ix) → status_at b i i ≡ m)
    ⊎ ((i : Ix) → status_at b i (opposite i) ≡ m)

-- Boards with the same statuses have the same marks three in a row.
pub ThreeInRow-same :
    (a b : Board) (m : ℕ)
    → ((i k : Ix) → status_at a i k ≡ status_at b i k)
    → ThreeInRow a m
    → ThreeInRow b m
ThreeInRow-same a b m same (inl (i, f)) = inl (i, λ k. sym (same i k) ∙ f k)
ThreeInRow-same a b m same (inr (inl (k, f))) = inr (inl (k, λ i. sym (same i k) ∙ f i))
ThreeInRow-same a b m same (inr (inr (inl f))) = inr (inr (inl (λ i. sym (same i i) ∙ f i)))
ThreeInRow-same a b m same (inr (inr (inr f))) =
    inr (inr (inr (λ i. sym (same i (opposite i)) ∙ f i)))

pub by_Ix {ℓ} : (P : Ix → Type ℓ) → P i0 → P i1 → P i2 → (i : Ix) → P i
by_Ix P p q r i0 = p
by_Ix P p q r i1 = q
by_Ix P p q r i2 = r

or-cases : (a b : Bool) → (a || b) ≡ true → (a ≡ true) ⊎ (b ≡ true)
or-cases true b h = inl refl
or-cases false b h = inr h

-- The mark of a complete line.
complete→eq :
    (b : Board) (l : Line)
    → is_complete b l ≡ true
    → (status_of b l.a ≢ idle)
      × (status_of b l.b ≡ status_of b l.a)
      × (status_of b l.c ≡ status_of b l.a)
unfolding is_complete
complete→eq b l h = (ground arith, ground arith, ground arith)

eq→complete :
    (b : Board) (l : Line) (m : ℕ)
    → m ≢ idle
    → status_of b l.a ≡ m
    → status_of b l.b ≡ m
    → status_of b l.c ≡ m
    → is_complete b l ≡ true
unfolding is_complete
eq→complete b l m h p q r = ground arith

abbrev Wins : Board → Type 0
Wins b = (m : ℕ) × (m ≢ idle) × ThreeInRow b m

row→Wins : (b : Board) (i : Ix) → is_complete b (row_line i) ≡ true → Wins b
row→Wins b i h =
    let (ne, p, q) = complete→eq b (row_line i) h in
    (status_at b i i0, ne, inl (i, by_Ix _ refl p q))

column→Wins : (b : Board) (i : Ix) → is_complete b (column_line i) ≡ true → Wins b
column→Wins b i h =
    let (ne, p, q) = complete→eq b (column_line i) h in
    (status_at b i0 i, ne, inr (inl (i, by_Ix _ refl p q)))

diagonals→Wins :
    (b : Board) → (is_complete b diagonal || (is_complete b antidiagonal || false)) ≡ true → Wins b
diagonals→Wins b h = elim (or-cases (is_complete b diagonal) _ h) [
  | inl d ↦
      let (ne, p, q) = complete→eq b diagonal d in
      (status_at b i0 i0, ne, inr (inr (inl (by_Ix _ refl p q))))
  | inr h' ↦ elim (or-cases (is_complete b antidiagonal) _ h') [
    | inl d ↦
        let (ne, p, q) = complete→eq b antidiagonal d in
        (status_at b i0 i2, ne, inr (inr (inr (by_Ix _ refl p q))))
    | inr absurd' ↦ absurd (false≢true absurd')
  ]
]

-- A round of the loop, or the rest of the tests.
round→Wins :
    (b : Board) (i : Ix) (rest : Bool)
    → (is_complete b (row_line i) || (is_complete b (column_line i) || rest)) ≡ true
    → (rest ≡ true → Wins b)
    → Wins b
round→Wins b i rest h k = elim (or-cases (is_complete b (row_line i)) _ h) [
  | inl r ↦ row→Wins b i r
  | inr h' ↦ elim (or-cases (is_complete b (column_line i)) _ h') [
    | inl c ↦ column→Wins b i c
    | inr h'' ↦ k h''
  ]
]

pub any_line→ThreeInRow : (b : Board) → any_line b ≡ true → Wins b
unfolding any_line
any_line→ThreeInRow b h =
    round→Wins b i0 _ h
      λ h1. round→Wins b i1 _ h1 λ h2. round→Wins b i2 _ h2 λ h3. diagonals→Wins b h3

pub ThreeInRow→any_line : (b : Board) (m : ℕ) → m ≢ idle → ThreeInRow b m → any_line b ≡ true
unfolding any_line
ThreeInRow→any_line b m h (inl (i0, f)) = rw (eq→complete b (row_line i0) m h (f i0) (f i1) (f i2))
ThreeInRow→any_line b m h (inl (i1, f)) =
    ground (arith, eq→complete b (row_line i1) m h (f i0) (f i1) (f i2))
ThreeInRow→any_line b m h (inl (i2, f)) =
    ground (arith, eq→complete b (row_line i2) m h (f i0) (f i1) (f i2))
ThreeInRow→any_line b m h (inr (inl (i0, f))) =
    ground (arith, eq→complete b (column_line i0) m h (f i0) (f i1) (f i2))
ThreeInRow→any_line b m h (inr (inl (i1, f))) =
    ground (arith, eq→complete b (column_line i1) m h (f i0) (f i1) (f i2))
ThreeInRow→any_line b m h (inr (inl (i2, f))) =
    ground (arith, eq→complete b (column_line i2) m h (f i0) (f i1) (f i2))
ThreeInRow→any_line b m h (inr (inr (inl f))) =
    ground (arith, eq→complete b diagonal m h (f i0) (f i1) (f i2))
ThreeInRow→any_line b m h (inr (inr (inr f))) =
    ground (arith, eq→complete b antidiagonal m h (f i0) (f i1) (f i2))

-- `fetch_winner` ends with a won game exactly when the game was won before, or some mark other than
-- idle fills a row, a column or a diagonal of the board.
pub fetch_winner_won_iff :
    (t : Ttt)
    → ((fetch_winner t).result ≡ won)
      ↔ ((t.result ≡ won) ⊎ ((m : ℕ) × (m ≢ idle) × ThreeInRow t.board m))
fetch_winner_won_iff t = (forth, back)
  where
    forth :
        (fetch_winner t).result ≡ won
        → (t.result ≡ won) ⊎ ((m : ℕ) × (m ≢ idle) × ThreeInRow t.board m)
    forth e = elim (Bool-cases (any_line t.board)) [
      | inl line ↦ inr (any_line→ThreeInRow t.board line)
      | inr none' ↦ inl (ground (arith, result-fetch_winner t))
    ]

    back :
        (t.result ≡ won) ⊎ ((m : ℕ) × (m ≢ idle) × ThreeInRow t.board m)
        → (fetch_winner t).result ≡ won
    back (inl e) = ground (arith, result-fetch_winner t)
    back (inr (m, ne, three)) = rw (result-fetch_winner t, ThreeInRow→any_line t.board m ne three)
