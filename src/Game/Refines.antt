-- ===== src/Game/Refines.antt =====
-- The object follows the game: a new game stands for no moves, and a turn on a free square is one
-- move of it.
use tintemp_plus_plus.Base.{
  ℕ, zero, suc, ◌+◌, ◌≡◌, refl, sym, ap, ◌∙◌, ◌≢◌, ◌≤◌, ◌⊎◌, false, not, ◌&&◌, leb, ◌==◌,
  if◌then◌else◌, ◌∷◌, length, arith, inl,
}
use tintemp_plus_plus.Board.{Ix, at, status_at, idle, x_mark, o_mark}
use tintemp_plus_plus.Ttt.{Ttt, in_progress, is_won}
use tintemp_plus_plus.Winner.Result.{any_line}
use tintemp_plus_plus.Winner.Flags.{is_winning}
use tintemp_plus_plus.Winner.Statuses.{any_line_same, is_winning_same, is_winning_of_no_line}
use tintemp_plus_plus.Game.{take_turn}
use tintemp_plus_plus.Game.Moves.{Moves, IsGame, mark_after, player_after, cell, filled, outcome}
use tintemp_plus_plus.Game.Filled.{filled-update, filled-le, filled_same}
use tintemp_plus_plus.Game.Turn.{
  placed, status-placed, judged, turns-take_turn, result-take_turn, turn-take_turn,
  status-take_turn, won-take_turn, field-take_turn,
}

pub mark_after_marks : (n : ℕ) → (mark_after n ≡ x_mark) ⊎ (mark_after n ≡ o_mark)
mark_after_marks zero = inl refl
mark_after_marks (suc n) = ground (arith, mark_after_marks n)

player_after_cases :
    (p1 p2 n : ℕ)
    → ((player_after p1 p2 n ≡ p1) × (player_after p2 p1 n ≡ p2))
      ⊎ ((player_after p1 p2 n ≡ p2) × (player_after p2 p1 n ≡ p1))
player_after_cases p1 p2 zero = inl (refl, refl)
player_after_cases p1 p2 (suc n) = ground (arith, player_after_cases p2 p1 n)

player_after_next :
    (p1 p2 n : ℕ)
    → p1 ≢ p2
    → (if player_after p1 p2 n == p1 then p2 else p1) ≡ player_after p1 p2 (suc n)
player_after_next p1 p2 n h = ground (arith, player_after_cases p1 p2 n)

-- The turn of a game in progress has a mark.
pub turn_marked : (t : Ttt) (ms : Moves) → IsGame t ms → t.result ≡ in_progress → t.turn.1 ≢ idle
turn_marked t ms g playing = ground (arith, g.turn_mark playing, mark_after_marks (length ms))

module _ (t : Ttt) (ms : Moves) (g : IsGame t ms) (i k : Ix) where
  module _ (playing : t.result ≡ in_progress) (free : status_at t.board i k ≡ idle) where
    no_line : any_line t.board ≡ false
    no_line = ground (arith, g.result_outcome)

    few : length ms ≤ 8
    few = ground (arith, g.result_outcome, g.taken, filled-le t.board)

    taken_next : filled (take_turn t i k).board ≡ suc (length ms)
    taken_next =
        filled_same _ _ (status-take_turn t i k)
        ∙ filled-update t.board i k t.turn.1 (turn_marked t ms g playing) free
        ∙ omega (arith, g.taken)

    lines_next : any_line (take_turn t i k).board ≡ any_line (placed t i k)
    lines_next = any_line_same _ _ (status-take_turn t i k)

    flags_next :
        (p q : Ix) → (at (take_turn t i k).board p q).won ≡ is_winning (take_turn t i k).board p q
    flags_next p q =
        won-take_turn t i k p q
        ∙ rw (g.flags p q, is_winning_of_no_line t.board p q no_line)
            (sym (is_winning_same _ _ (status-take_turn t i k) p q))

    statuses_next : (p q : Ix) → status_at (take_turn t i k).board p q ≡ cell ((i, k) ∷ ms) p q
    statuses_next p q =
        status-take_turn t i k p q
        ∙ status-placed t i k p q
        ∙ rw (g.turn_mark playing, g.statuses p q)

    outcome_next : (take_turn t i k).result ≡ outcome (take_turn t i k).board
    outcome_next = ground (arith, result-take_turn t i k, lines_next, taken_next, few, g.counted)

    goes_on :
        (take_turn t i k).result ≡ in_progress
        → (leb 9 (t.turns + 1) && not (is_won (judged t i k))) ≡ false
    goes_on h = ground (arith, result-take_turn t i k)

    turn_next :
        (take_turn t i k).result ≡ in_progress
        → (take_turn t i k).turn ≡ (
          if t.turn.0 == t.player_1 then t.player_2 else t.player_1,
          if t.turn.1 == x_mark then o_mark else x_mark,
        )
    turn_next h = turn-take_turn t i k ∙ rw (goes_on h)

    mark_next :
        (take_turn t i k).result ≡ in_progress
        → (take_turn t i k).turn.1 ≡ mark_after (suc (length ms))
    mark_next h = ap (λ (m : ℕ × ℕ). m.1) (turn_next h) ∙ rw (g.turn_mark playing)

    player_next :
        t.player_1 ≢ t.player_2
        → (take_turn t i k).result ≡ in_progress
        → (take_turn t i k).turn.0 ≡ player_after t.player_1 t.player_2 (suc (length ms))
    player_next distinct h =
        ap (λ (m : ℕ × ℕ). m.0) (turn_next h)
        ∙ rw (g.turn_player playing) (player_after_next t.player_1 t.player_2 (length ms) distinct)

    take_turn_next : t.player_1 ≢ t.player_2 → IsGame (take_turn t i k) ((i, k) ∷ ms)
    take_turn_next distinct = record {
      statuses = statuses_next;
      counted = turns-take_turn t i k ∙ omega (arith, g.counted);
      taken = taken_next;
      turn_player = λ h. rw (same_1, same_2) (player_next distinct h);
      turn_mark = mark_next;
      result_outcome = outcome_next;
      flags = flags_next;
    }
      where
        same_1 : (take_turn t i k).player_1 ≡ t.player_1
        same_1 = field-take_turn t i k (λ u. u.player_1) (λ u n m r. refl) (λ u b r. refl) refl

        same_2 : (take_turn t i k).player_2 ≡ t.player_2
        same_2 = field-take_turn t i k (λ u. u.player_2) (λ u n m r. refl) (λ u b r. refl) refl

-- A turn on a free square of a game in progress is a move of tic-tac-toe: the marks, the count, whose
-- turn is next, the result and the `won` flags are those of the rules after one more move, if the
-- players are two.
pub take_turn-IsGame :
    (t : Ttt) (ms : Moves) (i k : Ix)
    → IsGame t ms
    → t.result ≡ in_progress
    → status_at t.board i k ≡ idle
    → t.player_1 ≢ t.player_2
    → IsGame (take_turn t i k) ((i, k) ∷ ms)
take_turn-IsGame t ms i k g playing free distinct = take_turn_next t ms g i k playing free distinct
