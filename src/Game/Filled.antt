-- ===== src/Game/Filled.antt =====
-- How a move changes the number of squares taken.
use tintemp_plus_plus.Base.{ℕ, ◌+◌, ◌≡◌, ◌≤◌, ◌≢◌, arith}
use tintemp_plus_plus.Board.{Ix, i0, i1, i2, Board, update, status_at, set_status, idle}
use tintemp_plus_plus.Game.Moves.{filled}

pub filled-update :
    (b : Board) (i k : Ix) (m : ℕ)
    → m ≢ idle
    → status_at b i k ≡ idle
    → filled (update b i k (set_status m)) ≡ filled b + 1
unfolding filled
filled-update b i k m h e = ground arith

pub filled-le : (b : Board) → filled b ≤ 9
unfolding filled
filled-le b = ground arith

pub filled_same :
    (a b : Board) → ((i k : Ix) → status_at a i k ≡ status_at b i k) → filled a ≡ filled b
unfolding filled
filled_same a b same = rw (
  same i0 i0,
  same i0 i1,
  same i0 i2,
  same i1 i0,
  same i1 i1,
  same i1 i2,
  same i2 i0,
  same i2 i1,
  same i2 i2,
)
