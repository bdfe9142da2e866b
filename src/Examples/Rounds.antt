-- ===== src/Examples/Rounds.antt =====
-- A turn in a list of two games, and the announcement of a result, on concrete events.
use tintemp_plus_plus.Commands.Discreet.{AllDiscreet}
use tintemp_plus_plus.Commands.Discreet.Clicks.{on_button_click_discreet}
use tintemp_plus_plus.Base.{
  ℕ, ◌≡◌, ◌≢◌, ◌⊎◌, if◌then◌else◌, refl, some, List, [], ◌∷◌, ◌++◌, any, arith,
}
use tintemp_plus_plus.Dpp.{ButtonClick, Embed}
use tintemp_plus_plus.Dpp.Plain.{plain, blank_message}
use tintemp_plus_plus.Board.{i0, i2, init_board}
use tintemp_plus_plus.Ttt.{expired, won, draw, in_progress}
use tintemp_plus_plus.Render.{fetch_ttt_turn}
use tintemp_plus_plus.Winner.{
  fetch_winner, mark_won, check_row, check_column, check_diagonal, check_antidiagonal,
}
use tintemp_plus_plus.Game.{take_turn, init_game, swap_turn}
use tintemp_plus_plus.Game.Moves.{player_after}
use tintemp_plus_plus.Registry.{Entry, Bot, new_entry, find}
use tintemp_plus_plus.Registry.Uids.{Numbered, Between}
use tintemp_plus_plus.Bot.{
  Call, log, bot_line, entry_line, turn_replied, result_deployed, message_create, message_edit,
  log_only, end_shown,
}
use tintemp_plus_plus.Callbacks.{complete, value, result_embed, result_message}
use tintemp_plus_plus.Callbacks.Announced.{replied_line, turn_replied_announces}
use tintemp_plus_plus.Confirm.{confirm_text, not_your_button}
use tintemp_plus_plus.Confirm.Elsewhere.{is_stranger}
use tintemp_plus_plus.Logger.{info}
use tintemp_plus_plus.Interaction.{interaction_text, edited_square}
use tintemp_plus_plus.Interaction.Outcome.{turn_reply}
use tintemp_plus_plus.Commands.{pressed_text, on_button_click}
use tintemp_plus_plus.Commands.Defined.{on_button_click_defined}
use tintemp_plus_plus.Registry.Uids.{yes_of}
use tintemp_plus_plus.Commands.Clicks.{on_button_click_turn}
use tintemp_plus_plus.Examples.{
  posted_entry, answer, alice, first_entry, second_entry, press, with_embed,
}
use tintemp_plus_plus.Examples.Games.{after_four, after_five, four_moves, four_Plays, playing_four}

abbrev played : Entry
played = record first_entry { first = after_four }

abbrev two_games : Bot
two_games = record { next_id = 15; ttt_list_g = played ∷ second_entry ∷ [] }

played-Between : Between 0 played 3
unfolding init_game new_entry init_board take_turn swap_turn fetch_winner mark_won check_row
    check_column check_diagonal check_antidiagonal fetch_ttt_turn
played-Between = record {
  uid_low = omega arith;
  uid_high = omega arith;
  yes_low = omega arith;
  yes_high = omega arith;
  no_low = omega arith;
  no_high = omega arith;
  yes_button = refl;
  no_button = refl;
}

pub second_Between : Between 3 second_entry 6
unfolding new_entry
second_Between = record {
  uid_low = omega arith;
  uid_high = omega arith;
  yes_low = omega arith;
  yes_high = omega arith;
  no_low = omega arith;
  no_high = omega arith;
  yes_button = refl;
  no_button = refl;
}

two_Numbered : Numbered 0 two_games.ttt_list_g 15
two_Numbered = (3, played-Between, (6, second_Between, omega arith))

second_elsewhere : ◌≢◌ {A = ℕ} 77 second_entry.first.game.id
unfolding new_entry
second_elsewhere = omega arith

to_move :
    (◌≡◌ {A = ℕ} 77 after_four.game.id)
    × (alice ≡ player_after after_four.player_1 after_four.player_2 4)
unfolding init_game new_entry init_board take_turn swap_turn fetch_winner mark_won check_row
    check_column check_diagonal check_antidiagonal fetch_ttt_turn
to_move = (refl, refl)

abbrev last_click : ButtonClick
last_click = press alice after_four i2 i0

-- The calls and lines of the last turn.
abbrev turn_calls : List Call
turn_calls =
    log (bot_line info (pressed_text last_click))
      ∷ entry_line confirm_text
      ∷ (if any (is_stranger last_click) two_games.ttt_list_g
          then not_your_button last_click ∷ []
          else [])
    ++ entry_line interaction_text
      ∷ edited_square after_four.turn.1
      ∷ turn_reply last_click after_five
      ∷ []

on_button_click_turn_example :
    on_button_click last_click two_games
    ≡ some (
      record two_games {
        ttt_list_g = [] ++ record played { first = after_five } ∷ second_entry ∷ [];
      },
      turn_calls,
    )
on_button_click_turn_example =
    on_button_click_turn last_click two_games [] played (second_entry ∷ []) four_moves i2 i0 refl
      two_Numbered tt (second_elsewhere, tt) four_Plays playing_four.0 to_move.0 to_move.1 refl refl

-- The game after its last turn, with an embed in its first message.
abbrev over : Entry
over = record first_entry { first = record after_five { origin = with_embed } }

abbrev over_bot : Bot
over_bot = record { next_id = 12; ttt_list_g = over ∷ [] }

over_found : find over.first.uid over_bot.ttt_list_g ≡ some over
unfolding init_game new_entry init_board take_turn swap_turn fetch_winner mark_won check_row
    check_column check_diagonal check_antidiagonal fetch_ttt_turn find
over_found = refl

over_has_embed : ◌≢◌ {A = List Embed} over.first.origin.embeds []
over_has_embed = λ e. cc e

not_seven : 7 ≢ over.first.uid
unfolding init_game new_entry init_board take_turn swap_turn fetch_winner mark_won check_row
    check_column check_diagonal check_antidiagonal fetch_ttt_turn
not_seven = omega arith

turn_replied_announces_example :
    let ended = complete (turn_replied over.first.uid alice 5) (value blank_message) over_bot in
    (((over.first.result ≡ in_progress) ⊎ (over.first.result ≡ expired))
      × (ended ≡ some (over_bot, replied_line ∷ [])))
    ⊎ (((over.first.result ≡ won) ⊎ (over.first.result ≡ draw))
        × (t : Bot) × (e' : Entry) × (embed : Embed) × (ended
            ≡ some (
              t,
              replied_line
                  ∷ message_create
                      (result_message over.first 5 embed)
                      (result_deployed over.first.uid)
                  ∷ message_edit e'.first.origin (log_only end_shown)
                  ∷ [],
            ))
        × (result_embed over.first.result alice ≡ some embed)
        × (find over.first.uid t.ttt_list_g ≡ some e')
        × (e'.first.result ≡ over.first.result)
        × (find 7 t.ttt_list_g ≡ find 7 over_bot.ttt_list_g))
turn_replied_announces_example =
    turn_replied_announces alice 5 7 blank_message over_bot over over_found over_has_embed not_seven

-- A challenge whose first message has an embed.
abbrev posted_bot : Bot
posted_bot = record { next_id = 3; ttt_list_g = posted_entry ∷ [] }

on_button_click_defined_example :
    (t : Bot) × (cs : List Call) × (on_button_click (answer alice (yes_of posted_entry)) posted_bot
      ≡ some (t, cs))
on_button_click_defined_example =
    on_button_click_defined (answer alice (yes_of posted_entry)) posted_bot ((λ e. cc e), tt)

on_button_click_discreet_example : AllDiscreet turn_calls
on_button_click_discreet_example =
    on_button_click_discreet last_click two_games _ _ on_button_click_turn_example
