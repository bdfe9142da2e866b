-- ===== src/Commands/Clicks.antt =====
-- Clicks on a board as `initButtons` of main.cpp handles them: first `on_confirm_click`, then
-- `on_ttt_interaction`.
use tintemp_plus_plus.Base.{
  ℕ, ◌≡◌, ◌≢◌, sym, ap, ◌∙◌, if◌then◌else◌, List, [], ◌∷◌, ◌++◌, some, All, any, length, arith,
}
use tintemp_plus_plus.Dpp.{Dpp, ButtonClick}
use tintemp_plus_plus.Board.{Ix, at, idle}
use tintemp_plus_plus.Board.Ids.{square_id}
use tintemp_plus_plus.Ttt.{in_progress}
use tintemp_plus_plus.Game.{take_turn}
use tintemp_plus_plus.Game.Moves.{Moves, cell, player_after}
use tintemp_plus_plus.Game.Plays.{Plays, Plays-IsGame}
use tintemp_plus_plus.ConfirmButton.{yes_id, no_id}
use tintemp_plus_plus.Registry.{Entry, Bot}
use tintemp_plus_plus.Registry.Uids.{Numbered}
use tintemp_plus_plus.Logger.{info}
use tintemp_plus_plus.Bot.{log, bot_line, entry_line, entered}
use tintemp_plus_plus.Bot.Lines.{entered_one}
use tintemp_plus_plus.Confirm.{confirm_text, not_your_button}
use tintemp_plus_plus.Interaction.{interaction_text, edited_square}
use tintemp_plus_plus.Confirm.Elsewhere.{IsElsewhere, is_stranger, on_confirm_click_elsewhere}
use tintemp_plus_plus.Interaction.Outcome.{turn_reply, on_ttt_interaction_turn}
use tintemp_plus_plus.Interaction.Play.{Plays-DistinctIds, Plays-square_id}
use tintemp_plus_plus.Commands.{then_handle, logged, pressed_text, on_button_click}

square_ne_yes : (n m : ℕ) (i k : Ix) → square_id n i k ≢ yes_id m
square_ne_yes n m i k = λ e. ground arith

square_ne_no : (n m : ℕ) (i k : Ix) → square_id n i k ≢ no_id m
square_ne_no n m i k = λ e. ground arith

-- The button of a square is no button of the confirmation of a listed game.
square-IsElsewhere :
    (click : ButtonClick) (n : ℕ) (i k : Ix) (lo : ℕ) (es : List Entry) (hi : ℕ)
    → click.custom_id ≡ square_id n i k
    → Numbered lo es hi
    → All (IsElsewhere click) es
square-IsElsewhere click n i k lo [] hi square h = tt
square-IsElsewhere click n i k lo (e ∷ es) hi square (mid, b, h) = (
  record {
    not_yes = λ same. square_ne_yes n _ i k (sym square ∙ (same ∙ b.yes_button));
    not_no = λ same. square_ne_no n _ i k (sym square ∙ (same ∙ b.no_button));
  },
  square-IsElsewhere click n i k mid es hi square h,
)

module _ ⦃d : Dpp⦄ where
  -- In a list whose games have numbers of their own, one game `e` is in progress after the moves
  -- `ms` and no other has its message. A click on that message by the player who has to move, on
  -- the button of a square that is free by the rules, runs both handlers of button clicks: together
  -- they make the turn in the game `e` and leave the other games and the counter as they are; in
  -- order, the pressed button and the entry of the first handler are logged, "that's not your
  -- button!" is the reply exactly if some game of the list has other players, the entry of the
  -- second handler and the mark of the square are logged, and the reply is the new board.
  pub on_button_click_turn :
      (click : ButtonClick) (s : Bot) (before : List Entry) (e : Entry) (after : List Entry)
      (ms : Moves) (i k : Ix)
      → s.ttt_list_g ≡ before ++ e ∷ after
      → Numbered 0 s.ttt_list_g s.next_id
      → All (λ x. click.command.message_id ≢ x.first.game.id) before
      → All (λ x. click.command.message_id ≢ x.first.game.id) after
      → Plays e.first ms
      → e.first.result ≡ in_progress
      → click.command.message_id ≡ e.first.game.id
      → click.command.usr.id ≡ player_after e.first.player_1 e.first.player_2 (length ms)
      → click.custom_id ≡ (at e.first.board i k).id
      → cell ms i k ≡ idle
      → on_button_click click s
        ≡ some (
          record s { ttt_list_g = before ++ record e { first = take_turn e.first i k } ∷ after },
          log (bot_line info (pressed_text click))
                ∷ entry_line confirm_text
                ∷ (if any (is_stranger click) s.ttt_list_g then not_your_button click ∷ [] else [])
              ++ entry_line interaction_text
                ∷ edited_square e.first.turn.1
                ∷ turn_reply click (take_turn e.first i k)
                ∷ [],
        )
  unfolding on_button_click then_handle logged
  on_button_click_turn click s before e after ms i k list numbered p q plays playing here player
        square free =
      let g = Plays-IsGame plays in
      let (n, ids) = Plays-square_id plays in
      let refused =
        on_confirm_click_elsewhere click s
          (square-IsElsewhere click n i k 0 s.ttt_list_g s.next_id (square ∙ ids i k) numbered) in
      let turned =
        on_ttt_interaction_turn click s before e after i k list p q (Plays-DistinctIds plays) here
          (player ∙ sym (g.turn_player playing)) square (g.statuses i k ∙ free) in
      let first : entered confirm_text s.ttt_list_g ≡ entry_line confirm_text ∷ [] =
        ap (entered confirm_text) list ∙ entered_one confirm_text before e after in
      rw (refused, turned, then_handle, first)
