-- ===== src/Winner/Statuses.antt =====
-- Lines and winning squares depend on the statuses of the squares only.
use mathlib.Core.Path.{fun_ext}
use tintemp_plus_plus.Base.{◌≡◌, refl, ap, Bool, false, ◌&&◌, List, [], ◌∷◌, any, arith}
use tintemp_plus_plus.Board.{Ix, Board, status_at}
use tintemp_plus_plus.Ttt.{Ttt}
use tintemp_plus_plus.Winner.{fetch_winner}
use tintemp_plus_plus.Winner.Lines.{Line, lines, is_complete}
use tintemp_plus_plus.Winner.Result.{any_line, at-fetch_winner}
use tintemp_plus_plus.Winner.Flags.{on_line, is_winning}

module _ (a b : Board) (same : (i k : Ix) → status_at a i k ≡ status_at b i k) where
  is_complete_same : (l : Line) → is_complete a l ≡ is_complete b l
  unfolding is_complete
  is_complete_same l = rw (same l.a.0 l.a.1, same l.b.0 l.b.1, same l.c.0 l.c.1)

  pub any_line_same : any_line a ≡ any_line b
  unfolding any_line
  any_line_same = rw (fun_ext is_complete_same)

  pub is_winning_same : (i k : Ix) → is_winning a i k ≡ is_winning b i k
  unfolding is_winning
  is_winning_same i k =
      ap (λ (f : Line → Bool). any (λ l. f l && on_line l i k) lines) (fun_ext is_complete_same)

pub status-fetch_winner :
    (t : Ttt) (i k : Ix) → status_at (fetch_winner t).board i k ≡ status_at t.board i k
status-fetch_winner t i k = at-fetch_winner (λ p. p.status) t i k (λ p. refl)

-- With no line, no square is winning.
pub is_winning_of_no_line : (b : Board) (i k : Ix) → any_line b ≡ false → is_winning b i k ≡ false
unfolding any_line is_winning
is_winning_of_no_line b i k h = none_winning lines h
  where
    none_winning :
        (ls : List Line)
        → any (is_complete b) ls ≡ false
        → any (λ l. is_complete b l && on_line l i k) ls ≡ false
    none_winning [] e = refl
    none_winning (l ∷ ls) e = ground (arith, none_winning ls)
