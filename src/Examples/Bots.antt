-- ===== src/Examples/Bots.antt =====
-- The bot of tictactoe.cpp and main.cpp at work on concrete events.
use tintemp_plus_plus.Base.{
  ℕ, suc, length, ◌∙◌, sym, ◌≡◌, ◌≢◌, ◌⊎◌, ◌==◌, if◌then◌else◌, refl, some, [], ◌∷◌, ◌++◌, drop,
  arith, inl, inr,
}
use tintemp_plus_plus.Text.{codes, to_string}
use tintemp_plus_plus.Dpp.{
  ButtonClick, Message, ir_channel_message_with_source, message_flag, m_ephemeral,
}
use tintemp_plus_plus.Dpp.Plain.{plain}
use tintemp_plus_plus.Board.{Ix, i0, i2, status_at, idle, x_mark, init_board}
use tintemp_plus_plus.Ttt.{Ttt, won}
use tintemp_plus_plus.Render.{mention, fetch_ttt_turn}
use tintemp_plus_plus.Winner.{
  fetch_winner, mark_won, check_row, check_column, check_diagonal, check_antidiagonal,
}
use tintemp_plus_plus.Game.{take_turn, init_game, swap_turn}
use tintemp_plus_plus.Game.Moves.{cell, player_after}
use tintemp_plus_plus.Game.Plays.{IsFresh, Plays}
use tintemp_plus_plus.ConfirmButton.{confirmed_button}
use tintemp_plus_plus.ConfirmButton.Ids.{yes_id-ne-no_id, confirmed_button_id}
use tintemp_plus_plus.Registry.{Entry, Bot, new_entry}
use tintemp_plus_plus.Registry.Uids.{yes_of, no_of}
use tintemp_plus_plus.Bot.{reply, log_only, turn_warned, entry_line, goes_on, returns}
use tintemp_plus_plus.Confirm.{confirm_text, not_your_button, on_confirm_click, player_of}
use tintemp_plus_plus.Confirm.Blocked.{blocked_by_first}
use tintemp_plus_plus.Confirm.Starts.{two_clicks, second_yes_starts}
use tintemp_plus_plus.Confirm.FirstAnswer.{Unanswered}
use tintemp_plus_plus.Interaction
use tintemp_plus_plus.Interaction.{
  interaction_text, edited_square, already_taken, not_your_turn, on_ttt_interaction,
}
use tintemp_plus_plus.Interaction.Outcome.{turn_reply, won_game_goes_on}
use tintemp_plus_plus.Interaction.OutOfTurn.{out_of_turn}
use tintemp_plus_plus.Interaction.Play.{Plays-DistinctIds, click_moves}
use tintemp_plus_plus.Color.{green}
use tintemp_plus_plus.Callbacks.{result_embed}
use tintemp_plus_plus.Examples.{
  left_to_right, alice, bob, carol, first_entry, second_entry, posted_entry, press, answer,
}
use tintemp_plus_plus.Examples.Games.{
  after_four, after_five, four_moves, four_Plays, five_Plays, five_turns_test, playing_four,
}

-- The game after four moves, and the click that wins it.
abbrev played_entry : Entry
played_entry = record first_entry { first = after_four }

abbrev winning_click : ButtonClick
winning_click = press alice after_four i2 i0

record Ready (g : Ttt) (usr n : ℕ) (i k : Ix) : Type 0 where
  here : ◌≡◌ {A = ℕ} 77 g.game.id
  by_turn : usr ≡ g.turn.0
  by_rules : usr ≡ player_after g.player_1 g.player_2 n
  free : status_at g.board i k ≡ idle

fifth : Ready after_four alice 4 i2 i0
unfolding init_game new_entry init_board take_turn swap_turn fetch_winner mark_won check_row
    check_column check_diagonal check_antidiagonal fetch_ttt_turn
fifth = record { here = refl; by_turn = refl; by_rules = refl; free = refl }

sixth : Ready after_five bob 5 i2 i2
unfolding init_game new_entry init_board take_turn swap_turn fetch_winner mark_won check_row
    check_column check_diagonal check_antidiagonal fetch_ttt_turn
sixth = record { here = refl; by_turn = refl; by_rules = refl; free = refl }

elsewhere : ◌≢◌ {A = ℕ} 77 second_entry.first.game.id
unfolding new_entry
elsewhere = omega arith

other_player : bob ≢ after_four.turn.0
unfolding init_game new_entry init_board take_turn swap_turn fetch_winner mark_won check_row
    check_column check_diagonal check_antidiagonal fetch_ttt_turn
other_player = omega arith

click_moves_example :
    ((cell four_moves i2 i0 ≢ idle)
      × (Interaction.visit winning_click played_entry 12
          ≡ returns played_entry 12 (already_taken ∷ [])))
    ⊎ ((cell four_moves i2 i0 ≡ idle)
        × (t : Ttt) × (Interaction.visit winning_click played_entry 12
            ≡ goes_on
                (record played_entry { first = t })
                12
                (edited_square after_four.turn.1 ∷ turn_reply winning_click t ∷ []))
        × Plays t ((i2, i0) ∷ four_moves))
click_moves_example =
    click_moves winning_click played_entry 12 four_moves i2 i0 four_Plays playing_four.0 fifth.here
      fifth.by_rules refl

-- The game after four moves is one of two.
abbrev two_games : Bot
two_games = record { next_id = 12; ttt_list_g = played_entry ∷ second_entry ∷ [] }

out_of_turn_example :
    (m : Message) × (on_ttt_interaction (press bob after_four i2 i0) two_games
      ≡ some (
        two_games,
        entry_line interaction_text
            ∷ (if bob
                  == player_after played_entry.first.player_1 played_entry.first.player_2
                      (suc (length four_moves))
                then reply ir_channel_message_with_source m (log_only turn_warned) ∷ []
                else []),
      ))
    × (m.content ≡ codes "oi, this is not your turn")
    × (m.flags ≡ message_flag m_ephemeral)
out_of_turn_example =
    out_of_turn (press bob after_four i2 i0) two_games [] played_entry (second_entry ∷ [])
      four_moves refl tt (elsewhere, tt) four_Plays playing_four.0 fifth.here
      (λ same. other_player (same ∙ sym fifth.by_rules ∙ fifth.by_turn))

won_game_goes_on_example :
    (Interaction.visit (press bob after_five i2 i2) (record first_entry { first = after_five }) 12
      ≡ goes_on
          (record first_entry { first = take_turn after_five i2 i2 })
          12
          (edited_square after_five.turn.1
            ∷ turn_reply (press bob after_five i2 i2) (take_turn after_five i2 i2)
            ∷ []))
    × ((take_turn after_five i2 i2).result ≡ won)
    × (result_embed (take_turn after_five i2 i2).result bob
        ≡ some (
            plain.embeds.set_color
              (plain.embeds.set_description plain.embeds.embed (mention bob ++ codes " won!"))
              green))
won_game_goes_on_example =
    won_game_goes_on (press bob after_five i2 i2) (record first_entry { first = after_five }) 12 i2
      i2 (Plays-DistinctIds five_Plays) sixth.here sixth.by_turn refl sixth.free five_turns_test

pub unanswered : Unanswered posted_entry
unfolding new_entry
unanswered = record {
  buttons_differ = yes_id-ne-no_id 2 3;
  new_1 = refl;
  new_2 = refl;
  some_embed = λ e. cc e;
}

pub posted_entry-IsFresh : IsFresh posted_entry.first
unfolding new_entry
posted_entry-IsFresh = record { no_turns = refl; no_result = refl; two_players = omega arith }

pub plays_first :
    (player_of alice posted_entry.second ≡ 1) × (player_of bob posted_entry.second ≡ 2)
unfolding new_entry player_of
plays_first = (refl, refl)

second_yes_starts_example :
    (f : Entry) × (two_clicks
        (answer alice (no_of posted_entry))
        (answer bob (yes_of posted_entry))
        posted_entry
        3
      ≡ some (f, (init_board 3).1))
    × (f.first.board ≡ (init_board 3).0)
    × (f.first.turn ≡ (alice, x_mark))
    × Plays f.first []
unfolding new_entry
second_yes_starts_example =
    second_yes_starts (answer alice (no_of posted_entry)) (answer bob (yes_of posted_entry))
      posted_entry 3 1 unanswered posted_entry-IsFresh (inl refl) plays_first.0 plays_first.1
      (inr refl) refl

stranger : (carol ≢ first_entry.second.player_1) × (carol ≢ first_entry.second.player_2)
unfolding new_entry
stranger = (omega arith, omega arith)

-- Carol plays in the second game only.
abbrev waiting_games : Bot
waiting_games = record { next_id = 6; ttt_list_g = first_entry ∷ second_entry ∷ [] }

blocked_by_first_example :
    on_confirm_click (answer carol (yes_of second_entry)) waiting_games
    ≡ some (
      waiting_games,
      entry_line confirm_text ∷ not_your_button (answer carol (yes_of second_entry)) ∷ [],
    )
blocked_by_first_example =
    blocked_by_first (answer carol (yes_of second_entry)) waiting_games first_entry
      (second_entry ∷ []) refl stranger.0 stranger.1

confirmed_button_id_example :
    ((confirmed_button left_to_right 2).custom_id ≡ drop 2 (codes "no_interaction_"))
    × ((confirmed_button left_to_right 2).custom_id ≢ codes "no_interaction_" ++ to_string 2)
confirmed_button_id_example = confirmed_button_id left_to_right 2 (omega arith)
