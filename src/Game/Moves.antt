-- ===== src/Game/Moves.antt =====
-- Tic-tac-toe by its rules, and when a `ttt` object stands for a game after a list of moves.
use tintemp_plus_plus.Base.{ℕ, zero, suc, ◌+◌, ◌≡◌, ◌==◌, if◌then◌else◌, List, [], ◌∷◌, length}
use tintemp_plus_plus.Board.{Ix, i0, i1, i2, Array3, Board, at, status_at, idle, x_mark, o_mark}
use tintemp_plus_plus.Ttt.{Ttt, GameResult, in_progress, draw, won}
use tintemp_plus_plus.Winner.Result.{any_line}
use tintemp_plus_plus.Winner.Flags.{is_square, is_winning}

-- The squares taken, the newest first.
abbrev pub Moves : Type 0
Moves = List (Ix × Ix)

-- Who moves after `n` moves, and with which mark: the first player begins, with X.
abbrev pub mark_after : ℕ → ℕ
mark_after zero = x_mark
mark_after (suc n) = if mark_after n == x_mark then o_mark else x_mark

abbrev pub player_after : ℕ → ℕ → ℕ → ℕ
player_after p1 p2 zero = p1
player_after p1 p2 (suc n) = player_after p2 p1 n

-- The mark on a square.
abbrev pub cell : Moves → Ix → Ix → ℕ
cell [] i k = idle
cell (m ∷ ms) i k = if is_square m i k then mark_after (length ms) else cell ms i k

abbrev pub count_mark : ℕ → ℕ
count_mark s = if s == idle then 0 else 1

abbrev pub filled_row : Array3 ℕ → ℕ
filled_row r = count_mark r.e0 + count_mark r.e1 + count_mark r.e2

abbrev pub row_statuses : Board → Ix → Array3 ℕ
row_statuses b i = record { e0 = status_at b i i0; e1 = status_at b i i1; e2 = status_at b i i2 }

-- How many squares are taken.
unfoldable pub filled : Board → ℕ
filled b =
    filled_row (row_statuses b i0) + filled_row (row_statuses b i1) + filled_row (row_statuses b i2)

-- A line wins, a full board without one is a draw.
abbrev pub outcome : Board → GameResult
outcome b = if any_line b then won else if filled b == 9 then draw else in_progress

-- The object `t` stands for the game of the players after the moves `ms`.
pub record IsGame (t : Ttt) (ms : Moves) : Type 0 where
  pub statuses : (i k : Ix) → status_at t.board i k ≡ cell ms i k
  pub counted : t.turns ≡ length ms
  pub taken : filled t.board ≡ length ms
  pub turn_player :
      t.result ≡ in_progress → t.turn.0 ≡ player_after t.player_1 t.player_2 (length ms)
  pub turn_mark : t.result ≡ in_progress → t.turn.1 ≡ mark_after (length ms)
  pub result_outcome : t.result ≡ outcome t.board
  pub flags : (i k : Ix) → (at t.board i k).won ≡ is_winning t.board i k
