-- ===== src/Game/Mover.antt =====
-- Who wins, how long a game lasts, and the start of one.
use tintemp_plus_plus.Base.{ℕ, ◌≡◌, sym, ◌∙◌, ◌≢◌, ◌⊎◌, ◌↔◌, subst, true, arith, inl, inr}
use tintemp_plus_plus.Board.{Ix, i0, i1, i2, status_at, idle}
use tintemp_plus_plus.Ttt.{Ttt, in_progress, won}
use tintemp_plus_plus.Winner.Result.{any_line}
use tintemp_plus_plus.Winner.ThreeInRow.{
  ThreeInRow, ThreeInRow-same, opposite, by_Ix, any_line→ThreeInRow, ThreeInRow→any_line,
}
use tintemp_plus_plus.Game.{take_turn}
use tintemp_plus_plus.Game.Moves.{Moves, IsGame}
use tintemp_plus_plus.Game.Refines.{turn_marked}
use tintemp_plus_plus.Game.Turn.{placed, status-placed, status-take_turn, result-take_turn}

module _ (t : Ttt) (i k : Ix) (m : ℕ) where
  -- A mark on a square after the turn is the mover's or was there before.
  mover_or_old :
      (p q : Ix) → status_at (placed t i k) p q ≡ m → (m ≡ t.turn.1) ⊎ (status_at t.board p q ≡ m)
  mover_or_old p q e = ground (arith, status-placed t i k p q)

  mover_or_line :
      (s : Ix → Ix × Ix)
      → ((j : Ix) → status_at (placed t i k) (s j).0 (s j).1 ≡ m)
      → (m ≡ t.turn.1) ⊎ ((j : Ix) → status_at t.board (s j).0 (s j).1 ≡ m)
  mover_or_line s f = elim (mover_or_old _ _ (f i0)) [
    | inl e ↦ inl e
    | inr a ↦ elim (mover_or_old _ _ (f i1)) [
      | inl e ↦ inl e
      | inr b ↦ elim (mover_or_old _ _ (f i2)) [ inl e ↦ inl e | inr c ↦ inr (by_Ix _ a b c) ]
    ]
  ]

  mover_or_three : ThreeInRow (placed t i k) m → (m ≡ t.turn.1) ⊎ ThreeInRow t.board m
  mover_or_three (inl (r, f)) = elim (mover_or_line (λ j. (r, j)) f) [
    | inl e ↦ inl e
    | inr f' ↦ inr (inl (r, f'))
  ]
  mover_or_three (inr (inl (c, f))) = elim (mover_or_line (λ j. (j, c)) f) [
    | inl e ↦ inl e
    | inr f' ↦ inr (inr (inl (c, f')))
  ]
  mover_or_three (inr (inr (inl f))) = elim (mover_or_line (λ j. (j, j)) f) [
    | inl e ↦ inl e
    | inr f' ↦ inr (inr (inr (inl f')))
  ]
  mover_or_three (inr (inr (inr f))) = elim (mover_or_line (λ j. (j, opposite j)) f) [
    | inl e ↦ inl e
    | inr f' ↦ inr (inr (inr (inr f')))
  ]

-- While a game is in progress no mark has three in a row, and after a turn only the mover's can.
pub three_is_mover :
    (t : Ttt) (ms : Moves) (i k : Ix) (m : ℕ)
    → IsGame t ms
    → t.result ≡ in_progress
    → m ≢ idle
    → ThreeInRow (placed t i k) m
    → m ≡ t.turn.1
three_is_mover t ms i k m g playing marked three = elim (mover_or_three t i k m three) [
  | inl e ↦ e
  | inr old ↦ absurd (ground (arith, g.result_outcome, ThreeInRow→any_line t.board m marked old))
]

any_line_of_won :
    (t : Ttt) (i k : Ix)
    → t.result ≡ in_progress
    → (take_turn t i k).result ≡ won
    → any_line (placed t i k) ≡ true
any_line_of_won t i k playing e = ground (arith, result-take_turn t i k)

won_of_any_line :
    (t : Ttt) (i k : Ix) → any_line (placed t i k) ≡ true → (take_turn t i k).result ≡ won
won_of_any_line t i k line = ground (arith, result-take_turn t i k)

-- A turn on a free square of a game in progress that stands for a game by the rules leads to a mark
-- other than idle with three in a row exactly if that is the mark of the mover and the game is then
-- won.
pub won_iff_mover :
    (t : Ttt) (ms : Moves) (i k : Ix) (m : ℕ)
    → IsGame t ms
    → t.result ≡ in_progress
    → status_at t.board i k ≡ idle
    → ((m ≢ idle) × ThreeInRow (take_turn t i k).board m)
      ↔ ((m ≡ t.turn.1) × ((take_turn t i k).result ≡ won))
won_iff_mover t ms i k m g playing free = (
  λ (marked, three).
      let mover = only m marked three in
      (mover, back (subst (ThreeInRow (take_turn t i k).board) mover three)),
  λ (mover, over). (
    λ none'. turn_marked t ms g playing (sym mover ∙ none'),
    subst (ThreeInRow (take_turn t i k).board) (sym mover) (forth over),
  ),
)
  where
    same : (p q : Ix) → status_at (take_turn t i k).board p q ≡ status_at (placed t i k) p q
    same = status-take_turn t i k

    only : (m : ℕ) → m ≢ idle → ThreeInRow (take_turn t i k).board m → m ≡ t.turn.1
    only m marked h = three_is_mover t ms i k m g playing marked (ThreeInRow-same _ _ m same h)

    forth : (take_turn t i k).result ≡ won → ThreeInRow (take_turn t i k).board t.turn.1
    forth e =
        let (m, marked, three) = any_line→ThreeInRow _ (any_line_of_won t i k playing e) in
        ThreeInRow-same _ _ t.turn.1 (λ p q. sym (same p q))
          (subst (ThreeInRow (placed t i k)) (three_is_mover t ms i k m g playing marked three)
            three)

    back : ThreeInRow (take_turn t i k).board t.turn.1 → (take_turn t i k).result ≡ won
    back h =
        won_of_any_line t i k (
          ThreeInRow→any_line _ _ (turn_marked t ms g playing)
            (ThreeInRow-same _ _ t.turn.1 same h))
