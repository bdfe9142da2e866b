-- ===== src/Winner/Lines.antt =====
-- `fetch_winner` as one test for each of the eight lines of the board, in the order of the source.
use tintemp_plus_plus.Base.{
  ℕ, ◌≡◌, refl, Bool, not, ◌&&◌, ◌==◌, if◌then◌else◌, List, [], ◌∷◌, arith, ◌∙◌, Bool-cases, inl,
  inr,
}
use tintemp_plus_plus.Board.{Ix, i0, i1, i2, idle, Pair, Board, at, update, status_at}
use tintemp_plus_plus.Board.Access.{at-update_keep}
use tintemp_plus_plus.Ttt.{Ttt, won}
use tintemp_plus_plus.Winner.{
  set_won, mark_won, check_row, check_column, check_diagonal, check_antidiagonal, fetch_winner,
}

pub record Line : Type 0 where
  pub a : Ix × Ix
  pub b : Ix × Ix
  pub c : Ix × Ix

abbrev pub row_line : Ix → Line
row_line i = record { a = (i, i0); b = (i, i1); c = (i, i2) }

abbrev pub column_line : Ix → Line
column_line i = record { a = (i0, i); b = (i1, i); c = (i2, i) }

abbrev pub diagonal : Line
diagonal = record { a = (i0, i0); b = (i1, i1); c = (i2, i2) }

abbrev pub antidiagonal : Line
antidiagonal = record { a = (i0, i2); b = (i1, i1); c = (i2, i0) }

abbrev pub lines : List Line
lines =
    row_line i0
    ∷ column_line i0
    ∷ row_line i1
    ∷ column_line i1
    ∷ row_line i2
    ∷ column_line i2
    ∷ diagonal
    ∷ antidiagonal
    ∷ []

abbrev pub status_of : Board → Ix × Ix → ℕ
status_of b p = status_at b p.0 p.1

-- The three squares of the line bear one mark.
unfoldable pub is_complete : Board → Line → Bool
is_complete b l =
    not (status_of b l.a == idle)
    && ((status_of b l.a == status_of b l.b) && (status_of b l.b == status_of b l.c))

unfoldable pub mark_line : Line → Ttt → Ttt
unfolding mark_won
mark_line l t = mark_won (mark_won (mark_won t l.a.0 l.a.1) l.b.0 l.b.1) l.c.0 l.c.1

unfoldable pub check_line : Line → Ttt → Ttt
check_line l t = if is_complete t.board l then record (mark_line l t) { result = won } else t

unfoldable pub check_all : List Line → Ttt → Ttt
check_all [] t = t
check_all (l ∷ ls) t = check_all ls (check_line l t)

check_row-line : (i : Ix) (t : Ttt) → check_row i t ≡ check_line (row_line i) t
unfolding check_row check_line mark_line is_complete
check_row-line i t = refl

check_column-line : (i : Ix) (t : Ttt) → check_column i t ≡ check_line (column_line i) t
unfolding check_column check_line mark_line is_complete
check_column-line i t = refl

check_diagonal-line : (t : Ttt) → check_diagonal t ≡ check_line diagonal t
unfolding check_diagonal check_line mark_line is_complete
check_diagonal-line t = ground arith

check_antidiagonal-line : (t : Ttt) → check_antidiagonal t ≡ check_line antidiagonal t
unfolding check_antidiagonal check_line mark_line is_complete
check_antidiagonal-line t = ground arith

pub fetch_winner-check_all : (t : Ttt) → fetch_winner t ≡ check_all lines t
unfolding fetch_winner check_all
fetch_winner-check_all t =
    simp (check_row-line, check_column-line, check_diagonal-line, check_antidiagonal-line)

-- What marking a line leaves alone.
at-mark_line {κ} :
    {B : Type κ} (g : Pair → B) (l : Line) (t : Ttt) (i k : Ix)
    → ((x : Pair) → g (set_won x) ≡ g x)
    → g (at (mark_line l t).board i k) ≡ g (at t.board i k)
unfolding mark_line
at-mark_line g l t i k h =
    at-update_keep g set_won (update (update t.board l.a.0 l.a.1 set_won) l.b.0 l.b.1 set_won) l.c.0
      l.c.1 i k h
    ∙ at-update_keep g set_won (update t.board l.a.0 l.a.1 set_won) l.b.0 l.b.1 i k h
    ∙ at-update_keep g set_won t.board l.a.0 l.a.1 i k h

at-check_line {κ} :
    {B : Type κ} (g : Pair → B) (l : Line) (t : Ttt) (i k : Ix)
    → ((x : Pair) → g (set_won x) ≡ g x)
    → g (at (check_line l t).board i k) ≡ g (at t.board i k)
unfolding check_line
at-check_line g l t i k h = elim (Bool-cases (is_complete t.board l)) [
  | inl yes' ↦ rw yes' (at-mark_line g l t i k h)
  | inr no' ↦ rw no'
]

-- Marking squares as won changes neither statuses nor ids.
pub at-check_all {κ} :
    {B : Type κ} (g : Pair → B) (ls : List Line) (t : Ttt) (i k : Ix)
    → ((x : Pair) → g (set_won x) ≡ g x)
    → g (at (check_all ls t).board i k) ≡ g (at t.board i k)
unfolding check_all
at-check_all g [] t i k h = refl
at-check_all g (l ∷ ls) t i k h =
    at-check_all g ls (check_line l t) i k h ∙ at-check_line g l t i k h

-- So a test finds the same lines before and after another.
pub is_complete-check_line :
    (l m : Line) (t : Ttt) → is_complete (check_line l t).board m ≡ is_complete t.board m
unfolding is_complete
is_complete-check_line l m t = simp (same m.a, same m.b, same m.c)
  where
    same : (p : Ix × Ix) → status_of (check_line l t).board p ≡ status_of t.board p
    same p = at-check_line (λ x. x.status) l t p.0 p.1 (λ x. refl)
