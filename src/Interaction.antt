-- ===== src/Interaction.antt =====
-- `on_ttt_interaction` of tictactoe.cpp: a click on a square of a board.
pub mod Squares
pub mod Keeps
pub mod Raises
pub mod Outcome
pub mod Play
pub mod Ends
pub mod OutOfTurn
use tintemp_plus_plus.Base.{
  ℕ, Bool, true, false, not, ◌&&◌, ◌||◌, ◌==◌, if◌then◌else◌, Option, none, some, List, [], ◌∷◌,
  ◌++◌,
}
use tintemp_plus_plus.Text.{Text, codes, text_eq}
use tintemp_plus_plus.Dpp.{
  Dpp, Message, ButtonClick, ir_channel_message_with_source, ir_update_message, m_ephemeral,
  message_flag,
}
use tintemp_plus_plus.Board.{Ix, i0, i1, i2, idle, Board, get_id, at, update, set_status}
use tintemp_plus_plus.Ttt.{Ttt, get_uid, get_game, get_player, this_turn}
use tintemp_plus_plus.Winner.{fetch_winner}
use tintemp_plus_plus.Render.{fetch_ttt_turn}
use tintemp_plus_plus.Game.{swap_turn}
use tintemp_plus_plus.Registry.{Entry, Bot}
use tintemp_plus_plus.Logger.{ll_trace}
use tintemp_plus_plus.Bot.{
  Call, reply, Visit, goes_on, returns, Loop, resume, run_loop, log, logger_line, log_only,
  square_warned, turn_warned, turn_replied,
}

-- The text of the line at the start of `on_ttt_interaction`.
abbrev pub interaction_text : Text
interaction_text = codes "on_ttt_interaction()"

-- What the loops over the squares write: the board, `is_interrupted`, and the replies.
pub record Press : Type 0 where
  pub board : Board
  pub is_interrupted : Bool
  pub calls : List Call

module _ ⦃d : Dpp⦄ where
  unfoldable pub ephemeral : Text → Message
  ephemeral t =
      d.parts.set_flags (d.parts.set_content d.messages.message t) (message_flag m_ephemeral)

  -- The reply to a click on a square that is taken.
  unfoldable pub already_taken : Call
  unfolding ephemeral
  already_taken =
      reply ir_channel_message_with_source (ephemeral (codes "oi, this square already been taken"))
        (log_only square_warned)

  -- The reply to a player who clicks out of turn.
  unfoldable pub not_your_turn : Call
  unfolding ephemeral
  not_your_turn =
      reply ir_channel_message_with_source (ephemeral (codes "oi, this is not your turn"))
        (log_only turn_warned)

  -- The log line for a square that was set.
  unfoldable pub edited_square : ℕ → Call
  edited_square status = log (
      logger_line ll_trace
        (codes "edited ttt button to [status:" ++ d.format_int status ++ codes "]"))

  -- The body of the inner loop, at `board[i][k]`, for a player with `mark`.
  unfoldable pub press_square : Text → ℕ → Ix → Ix → Press → Press
  press_square custom_id mark i k p =
      if text_eq custom_id (get_id (at p.board i k))
      then (if not ((at p.board i k).status == idle)
          then record p { is_interrupted = true; calls = p.calls ++ already_taken ∷ [] }
          else (let b = update p.board i k (set_status mark) in
              record p { board = b; calls = p.calls ++ edited_square (at b i k).status ∷ [] }))
      else p

  -- The inner loop.
  unfoldable pub press_row : Text → ℕ → Ix → Press → Press
  press_row custom_id mark i p =
      press_square custom_id mark i i2
        (press_square custom_id mark i i1 (press_square custom_id mark i i0 p))

  -- The outer loop.
  unfoldable pub press_board : Text → ℕ → Board → Press
  press_board custom_id mark b = press_row custom_id mark i2 (
      press_row custom_id mark i1
        (press_row custom_id mark i0 (record { board = b; is_interrupted = false; calls = [] })))

  -- The rest of the branch, unless the click was interrupted.
  unfoldable pub end_turn : ButtonClick → Entry → ℕ → List Call → Visit
  end_turn click e n cs =
      let t = swap_turn (fetch_winner e.first) in
      goes_on (record e { first = t }) n
        (cs
          ++ reply ir_update_message (fetch_ttt_turn t d.messages.message)
              (turn_replied (get_uid t) click.command.usr.id click.command.channel_id)
            ∷ [])

  -- The player whose turn it is has clicked.
  unfoldable pub right_player : ButtonClick → Entry → ℕ → Visit
  right_player click e n =
      let p = press_board click.custom_id (this_turn e.first).1 e.first.board in
      let e' = record e { first = record (e.first) { board = p.board } } in
      if p.is_interrupted then returns e' n p.calls else end_turn click e' n p.calls

  -- Anybody else has: the other player is told.
  unfoldable pub wrong_player : ButtonClick → Entry → ℕ → Visit
  wrong_player click e n = goes_on e n (
      if (click.command.usr.id == (get_player e.first).0)
        || (click.command.usr.id == (get_player e.first).1)
      then not_your_turn ∷ []
      else [])

  -- The body of the loop over the games.
  unfoldable pub visit : ButtonClick → Entry → ℕ → Visit
  visit click e n =
      if click.command.message_id == (get_game e.first).id
      then (if click.command.usr.id == (this_turn e.first).0
          then right_player click e n
          else wrong_player click e n)
      else goes_on e n []

  -- The loop over `ttt_list_g`.
  unfoldable pub visit_all : ButtonClick → List Entry → ℕ → Loop
  visit_all click [] n = some ([], n, [])
  visit_all click (e ∷ es) n = resume (visit click e n) es (λ m. visit_all click es m)

  -- `on_ttt_interaction`.
  unfoldable pub on_ttt_interaction : ButtonClick → Bot → Option (Bot × List Call)
  unfolding visit_all resume run_loop
  on_ttt_interaction click = run_loop interaction_text (visit_all click)
