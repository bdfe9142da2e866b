-- ===== src/Game/Turn.antt =====
-- The fields of a game after `swap_turn`, and after a turn on any square.
use tintemp_plus_plus.Base.{
  ℕ, ◌+◌, ◌≡◌, refl, ap, ◌∙◌, not, ◌&&◌, ◌||◌, leb, ◌==◌, if◌then◌else◌, arith, Bool-cases, inl,
  inr,
}
use tintemp_plus_plus.Board.{
  Ix, Array3, Pair, Board, get, modify, at, update, status_at, set_status, x_mark, o_mark,
}
use tintemp_plus_plus.Board.Access.{at-update_keep}
use tintemp_plus_plus.Ttt.{Ttt, GameResult, draw, won, is_won}
use tintemp_plus_plus.Winner.{fetch_winner}
use tintemp_plus_plus.Winner.Result.{
  any_line, result-fetch_winner, field-fetch_winner, at-fetch_winner,
}
use tintemp_plus_plus.Winner.Flags.{is_square, is_winning, won-fetch_winner, get-modify_if}
use tintemp_plus_plus.Winner.Statuses.{status-fetch_winner}
use tintemp_plus_plus.Game.{swap_turn, take_turn}

-- The result after `swap_turn` of a game that has result `r` after `n` turns.
abbrev pub swapped_result : ℕ → GameResult → GameResult
swapped_result n r = if leb 9 (n + 1) && not (is_won r) then draw else r

result-swap_turn : (t : Ttt) → (swap_turn t).result ≡ swapped_result t.turns t.result
unfolding swap_turn
result-swap_turn t = ground arith

turns-swap_turn : (t : Ttt) → (swap_turn t).turns ≡ t.turns + 1
unfolding swap_turn
turns-swap_turn t = ground arith

turn-swap_turn :
    (t : Ttt)
    → (swap_turn t).turn ≡ (
        if leb 9 (t.turns + 1) && not (is_won t.result) then t.turn else (
          if t.turn.0 == t.player_1 then t.player_2 else t.player_1,
          if t.turn.1 == x_mark then o_mark else x_mark,
        ))
unfolding swap_turn
turn-swap_turn t = ground arith

-- All else stays.
pub field-swap_turn {κ} :
    {B : Type κ} (g : Ttt → B) (t : Ttt)
    → ((u : Ttt) (n : ℕ) (m : ℕ × ℕ) (r : GameResult)
        → g (record u { turn = m; result = r; turns = n }) ≡ g u)
    → g (swap_turn t) ≡ g t
unfolding swap_turn
field-swap_turn g t h = elim (Bool-cases (leb 9 (t.turns + 1) && not (is_won t.result))) [
  | inl over ↦ rw over (h t _ _ _)
  | inr on ↦ rw on (h t _ _ _)
]

-- The board with the mark set.
abbrev pub placed : Ttt → Ix → Ix → Board
placed t i k = update t.board i k (set_status t.turn.1)

pub status-placed :
    (t : Ttt) (i k p q : Ix)
    → status_at (placed t i k) p q
      ≡ (if is_square (i, k) p q then t.turn.1 else status_at t.board p q)
status-placed t i k p q =
    ap (λ (r : Array3 Pair). (get r q).status)
      (get-modify_if t.board i p (λ r. modify r k (set_status t.turn.1)))
    ∙ ground (arith, get-modify_if (get t.board p) k q (set_status t.turn.1))

module _ (t : Ttt) (i k : Ix) where
  abbrev before_swap : Ttt
  before_swap = fetch_winner (record t { board = placed t i k })

  -- What neither the turn, the result nor the board holds stays.
  pub field-take_turn {κ} :
      {B : Type κ} (g : Ttt → B)
      → ((u : Ttt) (n : ℕ) (m : ℕ × ℕ) (r : GameResult)
          → g (record u { turn = m; result = r; turns = n }) ≡ g u)
      → ((u : Ttt) (b : Board) (r : GameResult) → g (record u { board = b; result = r }) ≡ g u)
      → g (record t { board = placed t i k }) ≡ g t
      → g (take_turn t i k) ≡ g t
  unfolding take_turn
  field-take_turn g h1 h2 h3 =
      field-swap_turn g before_swap h1
      ∙ field-fetch_winner g (record t { board = placed t i k }) h2
      ∙ h3

  turns-before_swap : before_swap.turns ≡ t.turns
  turns-before_swap =
      field-fetch_winner (λ u. u.turns) (record t { board = placed t i k }) (λ u b r. refl)

  turn-before_swap : before_swap.turn ≡ t.turn
  turn-before_swap =
      field-fetch_winner (λ u. u.turn) (record t { board = placed t i k }) (λ u b r. refl)

  player_1-before_swap : before_swap.player_1 ≡ t.player_1
  player_1-before_swap =
      field-fetch_winner (λ u. u.player_1) (record t { board = placed t i k }) (λ u b r. refl)

  player_2-before_swap : before_swap.player_2 ≡ t.player_2
  player_2-before_swap =
      field-fetch_winner (λ u. u.player_2) (record t { board = placed t i k }) (λ u b r. refl)

  -- The result that `fetch_winner` leaves.
  abbrev pub judged : GameResult
  judged = if any_line (placed t i k) then won else t.result

  result-before_swap : before_swap.result ≡ judged
  result-before_swap = result-fetch_winner (record t { board = placed t i k })

  pub turns-take_turn : (take_turn t i k).turns ≡ t.turns + 1
  unfolding take_turn
  turns-take_turn = turns-swap_turn before_swap ∙ ap (λ n. n + 1) turns-before_swap

  pub result-take_turn : (take_turn t i k).result ≡ swapped_result t.turns judged
  unfolding take_turn
  result-take_turn = result-swap_turn before_swap ∙ rw (turns-before_swap, result-before_swap)

  pub turn-take_turn : (take_turn t i k).turn ≡ (
      if leb 9 (t.turns + 1) && not (is_won judged) then t.turn else (
        if t.turn.0 == t.player_1 then t.player_2 else t.player_1,
        if t.turn.1 == x_mark then o_mark else x_mark,
      ))
  unfolding take_turn
  turn-take_turn =
      turn-swap_turn before_swap
      ∙ rw (
        turns-before_swap, result-before_swap, turn-before_swap, player_1-before_swap,
        player_2-before_swap,
      )

  board-take_turn : (take_turn t i k).board ≡ before_swap.board
  unfolding take_turn
  board-take_turn = field-swap_turn (λ u. u.board) before_swap (λ u n m r. refl)

  pub status-take_turn :
      (p q : Ix) → status_at (take_turn t i k).board p q ≡ status_at (placed t i k) p q
  status-take_turn p q =
      rw board-take_turn (status-fetch_winner (record t { board = placed t i k }) p q)

  pub id-take_turn : (p q : Ix) → (at (take_turn t i k).board p q).id ≡ (at t.board p q).id
  id-take_turn p q = rw board-take_turn (
      at-fetch_winner (λ x. x.id) (record t { board = placed t i k }) p q (λ x. refl)
      ∙ at-update_keep (λ x. x.id) (set_status t.turn.1) t.board i k p q (λ x. refl))

  pub won-take_turn :
      (p q : Ix)
      → (at (take_turn t i k).board p q).won
        ≡ ((at t.board p q).won || is_winning (placed t i k) p q)
  won-take_turn p q = rw board-take_turn (
      won-fetch_winner (record t { board = placed t i k }) p q
      ∙ ap (λ x. x || is_winning (placed t i k) p q)
          (at-update_keep (λ x. x.won) (set_status t.turn.1) t.board i k p q (λ x. refl)))
