-- ===== src/Winner/Result.antt =====
-- The effect of `fetch_winner`: the result, the `won` flags, and what stays.
use mathlib.Core.Path.{fun_ext}
use tintemp_plus_plus.Base.{
  ◌≡◌, refl, ◌∙◌, inl, inr, Bool, if◌then◌else◌, List, [], ◌∷◌, arith, any, Bool-cases,
}
use tintemp_plus_plus.Board.{Ix, Pair, Board, at}
use tintemp_plus_plus.Ttt.{Ttt, GameResult, won}
use tintemp_plus_plus.Winner.{set_won, mark_won, fetch_winner}
use tintemp_plus_plus.Winner.Lines.{
  Line, lines, is_complete, mark_line, check_line, check_all, at-check_all, is_complete-check_line,
  fetch_winner-check_all,
}

-- Some line of the board bears one mark on its three squares.
unfoldable pub any_line : Board → Bool
any_line b = any (is_complete b) lines

result-check_all :
    (ls : List Line) (t : Ttt)
    → (check_all ls t).result ≡ (if any (is_complete t.board) ls then won else t.result)
unfolding check_all check_line mark_line mark_won
result-check_all [] t = refl
result-check_all (l ∷ ls) t =
    result-check_all ls (check_line l t)
    ∙ rw (fun_ext (λ m. is_complete-check_line l m t)) (ground arith)

pub result-fetch_winner :
    (t : Ttt) → (fetch_winner t).result ≡ (if any_line t.board then won else t.result)
unfolding any_line
result-fetch_winner t = rw (fetch_winner-check_all t) (result-check_all lines t)

-- The tests of the squares read the board and write `won` only.
pub at-fetch_winner {κ} :
    {B : Type κ} (g : Pair → B) (t : Ttt) (i k : Ix)
    → ((x : Pair) → g (set_won x) ≡ g x)
    → g (at (fetch_winner t).board i k) ≡ g (at t.board i k)
at-fetch_winner g t i k h = rw (fetch_winner-check_all t) (at-check_all g lines t i k h)

field-check_all {κ} :
    {B : Type κ} (g : Ttt → B) (ls : List Line) (t : Ttt)
    → ((u : Ttt) (b : Board) (r : GameResult) → g (record u { board = b; result = r }) ≡ g u)
    → g (check_all ls t) ≡ g t
unfolding check_all check_line mark_line mark_won
field-check_all g [] t h = refl
field-check_all g (l ∷ ls) t h =
    field-check_all g ls (check_line l t) h ∙ (elim (Bool-cases (is_complete t.board l)) [
      | inl complete ↦ rw complete (h t _ won)
      | inr incomplete ↦ rw incomplete
    ])

-- Every other field of the game stays.
pub field-fetch_winner {κ} :
    {B : Type κ} (g : Ttt → B) (t : Ttt)
    → ((u : Ttt) (b : Board) (r : GameResult) → g (record u { board = b; result = r }) ≡ g u)
    → g (fetch_winner t) ≡ g t
field-fetch_winner g t h = rw (fetch_winner-check_all t) (field-check_all g lines t h)
