-- ===== src/Winner.antt =====
-- `ttt::fetch_winner` of tictactoe.cpp: the tests for three in a row, each of which marks its squares
-- and the game as won.
pub mod Lines
pub mod Result
pub mod ThreeInRow
pub mod Flags
pub mod Statuses
use tintemp_plus_plus.Base.{ℕ, Bool, true, not, ◌&&◌, ◌==◌, if◌then◌else◌, List, [], ◌∷◌}
use tintemp_plus_plus.Board.{Ix, i0, i1, i2, idle, Pair, Board, update, status_at}
use tintemp_plus_plus.Ttt.{Ttt, won}

abbrev pub set_won : Pair → Pair
set_won p = record p { won = true }

-- `board[i][k].won = true`.
unfoldable pub mark_won : Ttt → Ix → Ix → Ttt
mark_won t i k = record t { board = update t.board i k set_won }

-- The test on row `i`.
unfoldable pub check_row : Ix → Ttt → Ttt
unfolding mark_won
check_row i t =
    let b = t.board in
    if not (status_at b i i0 == idle)
      && ((status_at b i i0 == status_at b i i1) && (status_at b i i1 == status_at b i i2))
    then record (mark_won (mark_won (mark_won t i i0) i i1) i i2) { result = won }
    else t

-- The test on column `i`.
unfoldable pub check_column : Ix → Ttt → Ttt
unfolding mark_won
check_column i t =
    let b = t.board in
    if not (status_at b i0 i == idle)
      && ((status_at b i0 i == status_at b i1 i) && (status_at b i1 i == status_at b i2 i))
    then record (mark_won (mark_won (mark_won t i0 i) i1 i) i2 i) { result = won }
    else t

-- The tests on the two diagonals, which look at the centre first.
unfoldable pub check_diagonal : Ttt → Ttt
unfolding mark_won
check_diagonal t =
    let b = t.board in
    if not (status_at b i1 i1 == idle)
      && ((status_at b i0 i0 == status_at b i1 i1) && (status_at b i1 i1 == status_at b i2 i2))
    then record (mark_won (mark_won (mark_won t i1 i1) i0 i0) i2 i2) { result = won }
    else t

unfoldable pub check_antidiagonal : Ttt → Ttt
unfolding mark_won
check_antidiagonal t =
    let b = t.board in
    if not (status_at b i1 i1 == idle)
      && ((status_at b i0 i2 == status_at b i1 i1) && (status_at b i1 i1 == status_at b i2 i0))
    then record (mark_won (mark_won (mark_won t i1 i1) i0 i2) i2 i0) { result = won }
    else t

-- `for (int i = 0; i < 3; ++i)`, a row and a column each round, and then the diagonals.
unfoldable pub fetch_winner : Ttt → Ttt
fetch_winner t = check_antidiagonal (check_diagonal (round i2 (round i1 (round i0 t))))
  where
    round : Ix → Ttt → Ttt
    round i t = check_column i (check_row i t)
