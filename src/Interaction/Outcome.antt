-- ===== src/Interaction/Outcome.antt =====
-- What a click on a board does to the list of games.
use tintemp_plus_plus.Base.{
  ℕ, ◌≡◌, ◌≢◌, refl, ◌∙◌, ◌||◌, ◌==◌, ==_iff, List, [], ◌∷◌, ◌++◌, All, some, arith, if◌then◌else◌,
  Bool-cases, inl, inr,
}
use tintemp_plus_plus.Text.{codes}
use tintemp_plus_plus.Dpp.{Dpp, ButtonClick, ir_update_message}
use tintemp_plus_plus.Board.{Ix, at, status_at, idle}
use tintemp_plus_plus.Board.Ids.{DistinctIds}
use tintemp_plus_plus.Ttt.{Ttt, won}
use tintemp_plus_plus.Render.{fetch_ttt_turn, mention}
use tintemp_plus_plus.Game.{take_turn}
use tintemp_plus_plus.Game.Turn.{result-take_turn}
use tintemp_plus_plus.Registry.{Entry, Bot}
use tintemp_plus_plus.Bot.{
  Call, reply, turn_replied, goes_on, returns, resume, entry_line, run_loop,
}
use tintemp_plus_plus.Bot.Lines.{entered_one}
use tintemp_plus_plus.Color.{green}
use tintemp_plus_plus.Callbacks.{result_embed}
use tintemp_plus_plus.Interaction.{
  interaction_text, edited_square, already_taken, not_your_turn, end_turn, right_player,
  wrong_player, visit, visit_all, on_ttt_interaction,
}
use tintemp_plus_plus.Interaction.Squares.{press_board_square}

module _ ⦃d : Dpp⦄ where
  -- The reply to a turn, with the new board.
  abbrev pub turn_reply : ButtonClick → Ttt → Call
  turn_reply click t =
      reply ir_update_message (fetch_ttt_turn t d.messages.message)
        (turn_replied t.uid click.command.usr.id click.command.channel_id)

  -- The game `e` after a click of the player whose turn it is on the square `(i, k)`.
  pub visit_square :
      (click : ButtonClick) (e : Entry) (n : ℕ) (i k : Ix)
      → DistinctIds e.first.board
      → click.command.message_id ≡ e.first.game.id
      → click.command.usr.id ≡ e.first.turn.0
      → click.custom_id ≡ (at e.first.board i k).id
      → visit click e n ≡ (
          if status_at e.first.board i k == idle
          then goes_on
              (record e { first = take_turn e.first i k })
              n
              (edited_square e.first.turn.1 ∷ turn_reply click (take_turn e.first i k) ∷ [])
          else returns e n (already_taken ∷ []))
  unfolding visit right_player end_turn take_turn
  visit_square click e n i k distinct here player square =
      rw
        (
          (==_iff click.command.message_id e.first.game.id).1 here,
          (==_iff click.command.usr.id e.first.turn.0).1 player,
          square,
          press_board_square e.first.turn.1 e.first.board i k distinct,
        )
        (elim (Bool-cases (status_at e.first.board i k == idle)) [
          | inl free ↦ rw free
          | inr taken ↦ rw taken
        ])

  -- A game of another message is passed over.
  pub visit_elsewhere :
      (click : ButtonClick) (e : Entry) (n : ℕ)
      → click.command.message_id ≢ e.first.game.id
      → visit click e n ≡ goes_on e n []
  unfolding visit
  visit_elsewhere click e n h = ground arith

  -- A click on a game's message by anybody but the player whose turn it is changes nothing and goes
  -- on to the next game; the other player is told that it is not the turn, and nobody else is.
  pub visit_out_of_turn :
      (click : ButtonClick) (e : Entry) (n : ℕ)
      → click.command.message_id ≡ e.first.game.id
      → click.command.usr.id ≢ e.first.turn.0
      → visit click e n
        ≡ goes_on e n (
            if (click.command.usr.id == e.first.player_1)
              || (click.command.usr.id == e.first.player_2)
            then not_your_turn ∷ []
            else [])
  unfolding visit wrong_player
  visit_out_of_turn click e n here other = ground arith

  visit_all-skip :
      (click : ButtonClick) (es : List Entry) (n : ℕ)
      → All (λ x. click.command.message_id ≢ x.first.game.id) es
      → visit_all click es n ≡ some (es, n, [])
  unfolding visit_all resume
  visit_all-skip click [] n h = refl
  visit_all-skip click (x ∷ es) n (h, hs) =
      rw (visit_elsewhere click x n h, visit_all-skip click es n hs)

  pub visit_all-one :
      (click : ButtonClick) (before : List Entry) (e e' : Entry) (after : List Entry) (n : ℕ)
      (cs : List Call)
      → All (λ x. click.command.message_id ≢ x.first.game.id) before
      → All (λ x. click.command.message_id ≢ x.first.game.id) after
      → visit click e n ≡ goes_on e' n cs
      → visit_all click (before ++ e ∷ after) n ≡ some (before ++ e' ∷ after, n, cs ++ [])
  unfolding visit_all resume
  visit_all-one click [] e e' after n cs p q h = rw (h, visit_all-skip click after n q)
  visit_all-one click (x ∷ before) e e' after n cs (px, p) q h =
      rw (visit_elsewhere click x n px, visit_all-one click before e e' after n cs p q h)

  -- If the game of the clicked message is the only one of the list with that message, its squares
  -- have distinct ids, and the player whose turn it is clicks on a free square, then the whole
  -- handler makes the turn in that game, answers with the new board, and leaves the other games and
  -- the counter as they are.
  pub on_ttt_interaction_turn :
      (click : ButtonClick) (s : Bot) (before : List Entry) (e : Entry) (after : List Entry)
      (i k : Ix)
      → s.ttt_list_g ≡ before ++ e ∷ after
      → All (λ x. click.command.message_id ≢ x.first.game.id) before
      → All (λ x. click.command.message_id ≢ x.first.game.id) after
      → DistinctIds e.first.board
      → click.command.message_id ≡ e.first.game.id
      → click.command.usr.id ≡ e.first.turn.0
      → click.custom_id ≡ (at e.first.board i k).id
      → status_at e.first.board i k ≡ idle
      → on_ttt_interaction click s
        ≡ some (
          record s { ttt_list_g = before ++ record e { first = take_turn e.first i k } ∷ after },
          entry_line interaction_text
              ∷ edited_square e.first.turn.1
              ∷ turn_reply click (take_turn e.first i k)
              ∷ [],
        )
  unfolding on_ttt_interaction run_loop
  on_ttt_interaction_turn click s before e after i k list p q distinct here player square free =
      rw (
        list,
        visit_all-one click before e _ after s.next_id _ p q turned,
        run_loop,
        list,
        entered_one interaction_text before e after,
      )
    where
      turned :
          visit click e s.next_id
          ≡ goes_on
              (record e { first = take_turn e.first i k })
              s.next_id
              (edited_square e.first.turn.1 ∷ turn_reply click (take_turn e.first i k) ∷ [])
      turned =
          visit_square click e s.next_id i k distinct here player square
          ∙ rw ((==_iff (status_at e.first.board i k) idle).1 free)

  -- In a won game whose squares have distinct ids, a click of the player in `turn` on a free square
  -- makes one more turn, with the line of the square and the reply of any turn, the game stays won,
  -- and the embed for its result names the player who clicked last as the winner.
  pub won_game_goes_on :
      (click : ButtonClick) (e : Entry) (n : ℕ) (i k : Ix)
      → DistinctIds e.first.board
      → click.command.message_id ≡ e.first.game.id
      → click.command.usr.id ≡ e.first.turn.0
      → click.custom_id ≡ (at e.first.board i k).id
      → status_at e.first.board i k ≡ idle
      → e.first.result ≡ won
      → (visit click e n
          ≡ goes_on
              (record e { first = take_turn e.first i k })
              n
              (edited_square e.first.turn.1 ∷ turn_reply click (take_turn e.first i k) ∷ []))
        × ((take_turn e.first i k).result ≡ won)
        × (result_embed (take_turn e.first i k).result click.command.usr.id
            ≡ some (
                d.embeds.set_color
                  (d.embeds.set_description d.embeds.embed
                    (mention click.command.usr.id ++ codes " won!"))
                  green))
  unfolding result_embed
  won_game_goes_on click e n i k distinct here player square free over = (turned, still, rw still)
    where
      still : (take_turn e.first i k).result ≡ won
      still = ground (arith, result-take_turn e.first i k)

      turned :
          visit click e n
          ≡ goes_on
              (record e { first = take_turn e.first i k })
              n
              (edited_square e.first.turn.1 ∷ turn_reply click (take_turn e.first i k) ∷ [])
      turned =
          visit_square click e n i k distinct here player square
          ∙ rw ((==_iff (status_at e.first.board i k) idle).1 free)
