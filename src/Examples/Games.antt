-- ===== src/Examples/Games.antt =====
-- Games of tictactoe.cpp, played.
use tintemp_plus_plus.Text.{codes}
use tintemp_plus_plus.Dpp.Plain.{blank_message}
use tintemp_plus_plus.Render.{fetch_ttt_turn, turn_text, fetch_ttt_components}
use tintemp_plus_plus.Render.Turn.{only_users, fetch_ttt_turn-fields}
use tintemp_plus_plus.Ttt.{is_draw, is_won}
use tintemp_plus_plus.Base.{
  if◌then◌else◌, ◌++◌, ℕ, ◌≡◌, ◌≢◌, ◌≤◌, ◌<◌, ◌↔◌, ◌⊎◌, ◌||◌, refl, true, false, [], ◌∷◌, length,
  arith,
}
use tintemp_plus_plus.Dpp.Plain.{plain}
use tintemp_plus_plus.Board.{x_mark, Ix, i0, i1, i2, at, status_at, init_board, idle}
use tintemp_plus_plus.Board.Ids.{init_board-injective}
use tintemp_plus_plus.Ttt.{Ttt, in_progress, draw, won}
use tintemp_plus_plus.Winner.{
  fetch_winner, mark_won, check_row, check_column, check_diagonal, check_antidiagonal,
}
use tintemp_plus_plus.Winner.Result.{any_line}
use tintemp_plus_plus.Winner.Flags.{is_winning, won-fetch_winner}
use tintemp_plus_plus.Winner.ThreeInRow.{ThreeInRow, fetch_winner_won_iff}
use tintemp_plus_plus.Game.{take_turn, swap_turn, init_game}
use tintemp_plus_plus.Game.Moves.{Moves, IsGame}
use tintemp_plus_plus.Game.Mover.{won_iff_mover}
use tintemp_plus_plus.Game.Plays.{Plays, IsFresh, start, move, Plays-IsGame, Plays-bounded}
use tintemp_plus_plus.Registry.{new_entry}
use tintemp_plus_plus.Examples.{started, posted_game}

fresh : IsFresh posted_game
unfolding new_entry
fresh = record { no_turns = refl; no_result = refl; two_players = omega arith }

-- Both players take squares until the first player has a line from corner to corner.
abbrev after_one : Ttt
after_one = take_turn started i1 i1

abbrev after_two : Ttt
after_two = take_turn after_one i0 i0

abbrev after_three : Ttt
after_three = take_turn after_two i0 i2

abbrev pub after_four : Ttt
after_four = take_turn after_three i0 i1

abbrev pub after_five : Ttt
after_five = take_turn after_four i2 i0

abbrev pub four_moves : Moves
four_moves = (i0, i1) ∷ (i0, i2) ∷ (i0, i0) ∷ (i1, i1) ∷ []

playing_zero : (started.result ≡ in_progress) × (status_at started.board i1 i1 ≡ idle)
unfolding init_game new_entry init_board take_turn swap_turn fetch_winner mark_won check_row
    check_column check_diagonal check_antidiagonal
playing_zero = (refl, refl)

playing_one : (after_one.result ≡ in_progress) × (status_at after_one.board i0 i0 ≡ idle)
unfolding init_game new_entry init_board take_turn swap_turn fetch_winner mark_won check_row
    check_column check_diagonal check_antidiagonal
playing_one = (refl, refl)

playing_two : (after_two.result ≡ in_progress) × (status_at after_two.board i0 i2 ≡ idle)
unfolding init_game new_entry init_board take_turn swap_turn fetch_winner mark_won check_row
    check_column check_diagonal check_antidiagonal
playing_two = (refl, refl)

playing_three : (after_three.result ≡ in_progress) × (status_at after_three.board i0 i1 ≡ idle)
unfolding init_game new_entry init_board take_turn swap_turn fetch_winner mark_won check_row
    check_column check_diagonal check_antidiagonal
playing_three = (refl, refl)

pub playing_four : (after_four.result ≡ in_progress) × (status_at after_four.board i2 i0 ≡ idle)
unfolding init_game new_entry init_board take_turn swap_turn fetch_winner mark_won check_row
    check_column check_diagonal check_antidiagonal
playing_four = (refl, refl)

pub four_Plays : Plays after_four four_moves
four_Plays =
    move i0 i1
      (move i0 i2
        (move i0 i0 (move i1 i1 (start posted_game 3 fresh) playing_zero.0 playing_zero.1)
          playing_one.0 playing_one.1)
        playing_two.0 playing_two.1)
      playing_three.0 playing_three.1

pub five_Plays : Plays after_five ((i2, i0) ∷ four_moves)
five_Plays = move i2 i0 four_Plays playing_four.0 playing_four.1

pub five_turns_test : after_five.result ≡ won
unfolding init_game new_entry init_board take_turn swap_turn fetch_winner mark_won check_row
    check_column check_diagonal check_antidiagonal
five_turns_test = refl

Plays-IsGame_example : IsGame after_five ((i2, i0) ∷ four_moves)
Plays-IsGame_example = Plays-IsGame five_Plays

Plays-bounded_example :
    (length {A = Ix × Ix} ((i2, i0) ∷ four_moves) ≤ 9)
    × (after_five.turns ≡ 5)
    × ((after_five.result ≡ in_progress) ↔ (
        (any_line after_five.board ≡ false) × (length {A = Ix × Ix} ((i2, i0) ∷ four_moves) < 9)))
    × ((after_five.result ≡ draw) ↔ (
        (any_line after_five.board ≡ false) × (length {A = Ix × Ix} ((i2, i0) ∷ four_moves) ≡ 9)))
    × ((after_five.result ≡ won) ↔ (any_line after_five.board ≡ true))
Plays-bounded_example = Plays-bounded five_Plays

won_iff_mover_example :
    ((x_mark ≢ idle) × ThreeInRow after_five.board x_mark)
    ↔ ((x_mark ≡ after_four.turn.1) × (after_five.result ≡ won))
won_iff_mover_example =
    won_iff_mover after_four four_moves i2 i0 x_mark (Plays-IsGame four_Plays) playing_four.0
      playing_four.1

fetch_winner_won_iff_example :
    ((fetch_winner after_four).result ≡ won)
    ↔ ((after_four.result ≡ won) ⊎ ((m : ℕ) × (m ≢ idle) × ThreeInRow after_four.board m))
fetch_winner_won_iff_example = fetch_winner_won_iff after_four

won-fetch_winner_example :
    (at (fetch_winner after_five).board i1 i1).won
    ≡ ((at after_five.board i1 i1).won || is_winning after_five.board i1 i1)
won-fetch_winner_example = won-fetch_winner after_five i1 i1

init_board-injective_example : (◌≡◌ {A = ℕ} 3 3) × (i1 ≡ i1) × (i2 ≡ i2)
init_board-injective_example = init_board-injective 3 3 i1 i2 i1 i2 refl

fetch_ttt_turn-fields_example : fetch_ttt_turn after_five blank_message ≡ record blank_message {
  content =
      if is_draw after_five.result || is_won after_five.result
      then codes "** **"
      else turn_text after_five.turn.0;
  allowed_mentions = only_users after_five.player_1 after_five.player_2;
  components =
      blank_message.components
      ++ (fetch_ttt_components after_five after_five.board).0
        ∷ (fetch_ttt_components after_five after_five.board).1
        ∷ (fetch_ttt_components after_five after_five.board).2
        ∷ [];
}
fetch_ttt_turn-fields_example = fetch_ttt_turn-fields after_five blank_message
