-- ===== src/Game.antt =====
-- The course of a game in tictactoe.cpp: `ttt::init_game`, `ttt::swap_turn`, and the turn that the
-- board's click handler makes with them.
pub mod Moves
pub mod Filled
pub mod Turn
pub mod Refines
pub mod Mover
pub mod Plays
pub mod Progress
use tintemp_plus_plus.Base.{ℕ, ◌+◌, Bool, true, not, ◌&&◌, ◌==◌, leb, if◌then◌else◌}
use tintemp_plus_plus.Dpp.{Dpp}
use tintemp_plus_plus.Board.{Ix, update, set_status, x_mark, o_mark, init_board}
use tintemp_plus_plus.Ttt.{Ttt, draw, is_won}
use tintemp_plus_plus.Winner.{fetch_winner}
use tintemp_plus_plus.Render.{fetch_ttt_turn}

-- `swap_turn`.
unfoldable pub swap_turn : Ttt → Ttt
swap_turn t =
    let u = record t { turns = t.turns + 1 } in
    if leb 9 u.turns && not (is_won u.result) then record u { result = draw } else record u {
      turn = (
        if u.turn.0 == u.player_1 then u.player_2 else u.player_1,
        if u.turn.1 == x_mark then o_mark else x_mark,
      );
    }

-- What the click handler does with a free square: `set_status`, `fetch_winner`, `swap_turn`.
unfoldable pub take_turn : Ttt → Ix → Ix → Ttt
take_turn t i k =
    swap_turn (fetch_winner (record t { board = update t.board i k (set_status t.turn.1) }))

module _ ⦃d : Dpp⦄ where
  -- `init_game`.
  unfoldable pub init_game : Ttt → ℕ → Ttt × ℕ
  init_game t next_id =
      let (b, next) = init_board next_id in
      let u = record t { turn = (t.player_1, x_mark); board = b } in
      (record u { game = fetch_ttt_turn u u.game }, next)
