-- ===== src/Game/Plays.antt =====
-- Whole games: from `init_game`, by turns on free squares while the game is in progress.
use tintemp_plus_plus.Base.{
  ℕ, ◌≡◌, refl, sym, ◌∙◌, ◌≢◌, ◌≤◌, ◌<◌, ◌↔◌, true, false, [], ◌∷◌, length, arith,
}
use tintemp_plus_plus.Dpp.{Dpp, Embed}
use tintemp_plus_plus.Board.{Ix, at, status_at, idle, init_board, default_board}
use tintemp_plus_plus.Ttt.{Ttt, in_progress, draw, won}
use tintemp_plus_plus.Winner.Lines.{is_complete}
use tintemp_plus_plus.Winner.Result.{any_line}
use tintemp_plus_plus.Winner.Statuses.{is_winning_of_no_line, any_line_same}
use tintemp_plus_plus.Ttt.Embeds.{embedded}
use tintemp_plus_plus.Game.{take_turn, init_game}
use tintemp_plus_plus.Game.Moves.{Moves, IsGame, filled}
use tintemp_plus_plus.Game.Filled.{filled-le, filled_same}
use tintemp_plus_plus.Game.Refines.{take_turn-IsGame}
use tintemp_plus_plus.Game.Turn.{field-take_turn}

-- A game as its constructor leaves it, between two players.
pub record IsFresh (t : Ttt) : Type 0 where
  pub no_turns : t.turns ≡ 0
  pub no_result : t.result ≡ in_progress
  pub two_players : t.player_1 ≢ t.player_2

-- A new embed in the first message keeps the game fresh.
pub embedded-IsFresh :
    (t : Ttt) (e : Embed) (some_embed : t.origin.embeds ≢ [])
    → IsFresh t
    → IsFresh (embedded t e some_embed)
unfolding embedded
embedded-IsFresh t e some_embed f = record {
  no_turns = f.no_turns;
  no_result = f.no_result;
  two_players = f.two_players;
}

status-default_board : (i k : Ix) → status_at default_board i k ≡ idle
status-default_board i k = ground arith

filled-default_board : filled default_board ≡ 0
unfolding filled
filled-default_board = refl

any_line-default_board : any_line default_board ≡ false
unfolding any_line is_complete
any_line-default_board = refl

module _ ⦃d : Dpp⦄ where
  pub status-init_board : (n : ℕ) (i k : Ix) → status_at (init_board n).0 i k ≡ idle
  unfolding init_board
  status-init_board n i k = ground arith

  won-init_board : (n : ℕ) (i k : Ix) → (at (init_board n).0 i k).won ≡ false
  unfolding init_board
  won-init_board n i k = ground arith

  as_default : (n : ℕ) (i k : Ix) → status_at (init_board n).0 i k ≡ status_at default_board i k
  as_default n i k = status-init_board n i k ∙ sym (status-default_board i k)

  no_line-init_board : (n : ℕ) → any_line (init_board n).0 ≡ false
  no_line-init_board n = any_line_same _ _ (as_default n) ∙ any_line-default_board

  filled-init_board : (n : ℕ) → filled (init_board n).0 ≡ 0
  filled-init_board n = filled_same _ _ (as_default n) ∙ filled-default_board

  -- `init_game` starts a game with no moves.
  pub init_game-IsGame : (t : Ttt) (n : ℕ) → IsFresh t → IsGame (init_game t n).0 []
  unfolding init_game
  init_game-IsGame t n f = record {
    statuses = status-init_board n;
    counted = f.no_turns;
    taken = filled-init_board n;
    turn_player = λ _. refl;
    turn_mark = λ _. refl;
    result_outcome = rw (no_line-init_board n, filled-init_board n) f.no_result;
    flags = λ i k. won-init_board n i k ∙ sym (is_winning_of_no_line _ i k (no_line-init_board n));
  }

  -- `Plays t ms`: the moves `ms`, the last one first, lead to the object `t`.
  pub data Plays : Ttt → Moves → Type 0 where
    start : (t : Ttt) (n : ℕ) → IsFresh t → Plays (init_game t n).0 []
    move :
        {t : Ttt} {ms : Moves} (i k : Ix)
        → Plays t ms
        → t.result ≡ in_progress
        → status_at t.board i k ≡ idle
        → Plays (take_turn t i k) ((i, k) ∷ ms)

  two_players_of_Plays : {t : Ttt} {ms : Moves} → Plays t ms → t.player_1 ≢ t.player_2
  unfolding init_game
  two_players_of_Plays (start t n f) = f.two_players
  two_players_of_Plays (move {t = t} i k p playing free) =
      rw
        (
          field-take_turn t i k (λ u. u.player_1) (λ u n m r. refl) (λ u b r. refl) refl,
          field-take_turn t i k (λ u. u.player_2) (λ u n m r. refl) (λ u b r. refl) refl,
        )
        (two_players_of_Plays p)

  -- Every object that `init_game` and turns on free squares of a game in progress lead to, from a
  -- fresh game between two different players, stands for the game of tic-tac-toe after these moves:
  -- its marks, its count of turns, whose turn it is and with which mark, its result and its winning
  -- squares are those of the rules.
  pub Plays-IsGame : {t : Ttt} {ms : Moves} → Plays t ms → IsGame t ms
  Plays-IsGame (start t n f) = init_game-IsGame t n f
  Plays-IsGame (move {t = t} {ms = ms} i k p playing free) =
      take_turn-IsGame t ms i k (Plays-IsGame p) playing free (two_players_of_Plays p)

  -- A game has at most nine turns and `turns` counts them; it is in progress exactly while there is
  -- no complete line and fewer than nine turns were made, a draw exactly when nine turns were made
  -- without a line, and won exactly when there is a line.
  pub Plays-bounded :
      {t : Ttt} {ms : Moves}
      → Plays t ms
      → (length ms ≤ 9)
        × (t.turns ≡ length ms)
        × ((t.result ≡ in_progress) ↔ ((any_line t.board ≡ false) × (length ms < 9)))
        × ((t.result ≡ draw) ↔ ((any_line t.board ≡ false) × (length ms ≡ 9)))
        × ((t.result ≡ won) ↔ (any_line t.board ≡ true))
  Plays-bounded {t} p =
      let g = Plays-IsGame p in
      let small = filled-le t.board in
      (
        omega (arith, g.taken),
        g.counted,
        (
          λ e. ground (arith, g.result_outcome, g.taken),
          λ e. ground (arith, g.result_outcome, g.taken),
        ),
        (
          λ e. ground (arith, g.result_outcome, g.taken),
          λ e. ground (arith, g.result_outcome, g.taken),
        ),
        (
          λ e. ground (arith, g.result_outcome, g.taken),
          λ e. ground (arith, g.result_outcome, g.taken),
        ),
      )
