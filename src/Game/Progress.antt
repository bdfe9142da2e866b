-- ===== src/Game/Progress.antt =====
-- A board that is not full has a free square, so that a game in progress can go on.
use tintemp_plus_plus.Base.{◌≡◌, ◌⊎◌, inl, inr, arith, Bool-cases, ==_iff, ◌==◌}
use tintemp_plus_plus.Dpp.{Dpp}
use tintemp_plus_plus.Board.{Ix, i0, i1, i2, Board, status_at, idle}
use tintemp_plus_plus.Ttt.{Ttt, in_progress}
use tintemp_plus_plus.Game.Moves.{Moves, filled, filled_row, row_statuses}
use tintemp_plus_plus.Game.Plays.{Plays, Plays-IsGame, Plays-bounded}

free_in_row :
    (b : Board) (i : Ix)
    → ((k : Ix) × (status_at b i k ≡ idle)) ⊎ (filled_row (row_statuses b i) ≡ 3)
free_in_row b i = elim (Bool-cases (status_at b i i0 == idle)) [
  | inl e ↦ inl (i0, (==_iff (status_at b i i0) idle).0 e)
  | inr a0 ↦ elim (Bool-cases (status_at b i i1 == idle)) [
    | inl e ↦ inl (i1, (==_iff (status_at b i i1) idle).0 e)
    | inr a1 ↦ elim (Bool-cases (status_at b i i2 == idle)) [
      | inl e ↦ inl (i2, (==_iff (status_at b i i2) idle).0 e)
      | inr a2 ↦ inr (ground arith)
    ]
  ]
]

pub free_or_full : (b : Board) → ((i : Ix) × (k : Ix) × (status_at b i k ≡ idle)) ⊎ (filled b ≡ 9)
unfolding filled
free_or_full b = elim (free_in_row b i0) [
  | inl (k, e) ↦ inl (i0, k, e)
  | inr a0 ↦ elim (free_in_row b i1) [
    | inl (k, e) ↦ inl (i1, k, e)
    | inr a1 ↦ elim (free_in_row b i2) [
      | inl (k, e) ↦ inl (i2, k, e)
      | inr a2 ↦ inr (omega (arith, a0, a1, a2))
    ]
  ]
]

module _ ⦃d : Dpp⦄ where
  -- A game in progress has a free square.
  pub free_of_playing :
      {t : Ttt} {ms : Moves}
      → Plays t ms
      → t.result ≡ in_progress
      → (i : Ix) × (k : Ix) × (status_at t.board i k ≡ idle)
  free_of_playing {t = t} p playing = elim (free_or_full t.board) [
    | inl free ↦ free
    | inr full ↦
        absurd (omega (arith, (Plays-IsGame p).taken, full, ((Plays-bounded p).2.0 playing).1))
  ]
