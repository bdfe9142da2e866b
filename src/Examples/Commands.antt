-- ===== src/Examples/Commands.antt =====
-- Commands of main.cpp, and what follows from them, on concrete messages.
use tintemp_plus_plus.Registry.{set_origin, erase_one_from_list}
use tintemp_plus_plus.Registry.Origin.{with_origin, set_origin_once}
use tintemp_plus_plus.Registry.Erase.{push_onto_list_undone}
use tintemp_plus_plus.Registry.Uids.{uid_of, yes_of, no_of}
use tintemp_plus_plus.Examples.{with_embed}
use tintemp_plus_plus.Base.{
  ◌*◌, ◌≤◌, List, All, ℕ, ◌≡◌, ◌∙◌, ◌+◌, if◌then◌else◌, refl, false, some, none, [], ◌∷◌, ◌++◌,
  arith, map, length,
}
use tintemp_plus_plus.Text.{codes, to_string}
use mathlib.Core.Option
use tintemp_plus_plus.Dpp.{Embed, MessageCreate, cos_success, cos_danger, cot_button}
use tintemp_plus_plus.Dpp.Plain.{plain, blank_message, blank_member}
use tintemp_plus_plus.Board.{Ix, i0, i1, i2, at, init_board, pair_id}
use tintemp_plus_plus.Ttt.{is_expired}
use tintemp_plus_plus.Render.Shown.{IsSound, Alike, components_show_board}
use tintemp_plus_plus.Game.{init_game}
use tintemp_plus_plus.Registry.{Entry, Bot, initial, new_entry, find, push_onto_list}
use tintemp_plus_plus.Registry.Uids.{Between, Numbered, push_onto_list-Numbered}
use tintemp_plus_plus.Registry.Apart.{AllApart}
use tintemp_plus_plus.Bot.{Call, log, result_deployed, origin_deployed}
use tintemp_plus_plus.Callbacks.{complete, value}
use tintemp_plus_plus.Callbacks.Removed.{deployed_line, result_deployed_once}
use tintemp_plus_plus.Regex.{is_word}
use tintemp_plus_plus.Regex.Prefix.{starts_with}
use tintemp_plus_plus.Commands.{
  confirm_embed, confirm_row, author_of, game_lines, logged, self_refusal, ping, tictactoe,
  challenge, on_message_create,
}
use tintemp_plus_plus.Commands.Dispatch.{occured, on_message_create_dispatch, ping_name, ttt_name}
use tintemp_plus_plus.Commands.Challenge.{IsNew, challenged}
use tintemp_plus_plus.Commands.Refusals.{Told, unchallenged}
use tintemp_plus_plus.Commands.Contents.{Says, face, Posts, messages_say}
use tintemp_plus_plus.Render.{mention}
use tintemp_plus_plus.Color.{yellow, green, red, black}
use tintemp_plus_plus.Confirm.{start_embed, cancelled_embed, pressing_player}
use tintemp_plus_plus.Callbacks.{ended_embed, result_message}
use tintemp_plus_plus.World.{message_arrives, Reachable, starts, steps, callbacks}
use tintemp_plus_plus.Life.Sane.{IsSane}
use tintemp_plus_plus.Life.Reached.{Reachable-IsSane}
use tintemp_plus_plus.World.Counter.{events, Reachable-next_id}
use tintemp_plus_plus.World.Invariant.{Reachable-AllApart}
use tintemp_plus_plus.Examples.{left_to_right, alice, bob, person, sent, first_entry, started}

-- Alice challenges Bob with "!ttt".
abbrev pub bid : MessageCreate
bid = sent (codes "!ttt @bob") (person bob ∷ [])

challenged_example :
    (e : Entry) × (n : ℕ) × (tictactoe left_to_right bid initial
      ≡ some (
        record { next_id = n; ttt_list_g = [] ++ e ∷ [] },
        map log (game_lines e) ++ challenge bid e ∷ [],
      ))
    × (n ≡ 0 + 3)
    × IsNew e alice bob
challenged_example =
    challenged left_to_right bid (person bob, blank_member) [] initial refl refl (omega arith)

-- Alice mentions herself.
abbrev alone : MessageCreate
alone = sent (codes "!ttt") (person alice ∷ [])

unchallenged_example :
    (◌≡◌ {A = Bot} initial initial) × Told alone alone.msg.mentions (self_refusal alone ∷ [])
unfolding tictactoe
unchallenged_example =
    unchallenged left_to_right alone initial initial (self_refusal alone ∷ []) refl refl

short : (length (yes_of first_entry) ≤ 100) × (length (no_of first_entry) ≤ 100)
unfolding new_entry to_string
short = (omega arith, omega arith)

bare : first_entry.second.component ≡ plain.components.component
unfolding new_entry
bare = refl

abbrev result_of : Embed
result_of = plain.embeds.embed

messages_say_example :
    Posts
      (challenge bid first_entry)
      bid.msg.channel_id
      (confirm_embed bid first_entry)
      (confirm_row first_entry)
      (origin_deployed first_entry.first.uid)
    × Says
        (confirm_embed bid first_entry)
        (codes "Hey :right_facing_fist:")
        (mention first_entry.first.player_2
          ++ codes ", "
          ++ mention first_entry.first.player_1
          ++ codes " want to play tic-tac-toe with you")
        yellow
    × ((confirm_embed bid first_entry).author ≡ some (author_of bid))
    × (map face (confirm_row first_entry).components
        ≡ (yes_of first_entry, codes "YES", cos_success, cot_button)
          ∷ (no_of first_entry, codes "Nah", cos_danger, cot_button)
          ∷ [])
    × Says
        (start_embed first_entry)
        (codes "Game Started!")
        (mention first_entry.second.player_1
          ++ codes " ***vs*** "
          ++ mention first_entry.second.player_2)
        green
    × Says
        (cancelled_embed 1 first_entry)
        (codes "*Cancelled*")
        (mention (pressing_player 1 first_entry) ++ codes " Declined")
        red
    × Says
        (ended_embed first_entry.first)
        (codes "Game Ended")
        (mention first_entry.first.player_1
          ++ codes " ***VS*** "
          ++ mention first_entry.first.player_2)
        black
    × ((result_message first_entry.first 5 result_of).channel_id ≡ 5)
    × ((result_message first_entry.first 5 result_of).embeds ≡ result_of ∷ [])
    × ((result_message first_entry.first 5 result_of).message_reference ≡ record {
      message_id = first_entry.first.game.id;
      channel_id = first_entry.first.game.channel_id;
      guild_id = first_entry.first.game.guild_id;
      fail_if_not_exists = false;
    })
messages_say_example = messages_say bid first_entry 1 5 result_of bare short.0 short.1

punctuation : is_word b'!' ≡ false
unfolding is_word
punctuation = refl

on_message_create_dispatch_example : on_message_create left_to_right (b'!' ∷ []) bid initial ≡ (
    if starts_with (b'!' ∷ ping_name) bid.msg.content
    then logged (occured ping_name) (ping bid) initial
    else if starts_with (b'!' ∷ ttt_name) bid.msg.content
    then logged (occured ttt_name) (tictactoe left_to_right bid) initial
    else some (initial, []))
on_message_create_dispatch_example =
    on_message_create_dispatch left_to_right b'!' bid initial punctuation

abbrev pub one_game : Bot
one_game = (push_onto_list left_to_right alice bob initial).1

-- What the command asks for.
abbrev pub bid_calls : List Call
bid_calls = map log (occured ttt_name ∷ game_lines first_entry) ++ challenge bid first_entry ∷ []

pub bid_accepted :
    on_message_create left_to_right (b'!' ∷ []) bid initial ≡ some (one_game, bid_calls)
unfolding push_onto_list tictactoe starts_with logged
bid_accepted = on_message_create_dispatch left_to_right b'!' bid initial punctuation ∙ refl

abbrev reached : Reachable left_to_right (b'!' ∷ []) one_game (callbacks bid_calls)
reached = steps starts (message_arrives bid bid_accepted)

Reachable-IsSane_example : All (λ e. IsSane e.first) one_game.ttt_list_g
Reachable-IsSane_example = Reachable-IsSane left_to_right (b'!' ∷ []) reached

Reachable-AllApart_example : AllApart one_game.ttt_list_g
Reachable-AllApart_example = Reachable-AllApart left_to_right (b'!' ∷ []) reached

Reachable-next_id_example :
    (one_game.next_id ≤ 9 * events left_to_right (b'!' ∷ []) reached)
    × All (λ e. Between 0 e one_game.next_id) one_game.ttt_list_g
Reachable-next_id_example = Reachable-next_id left_to_right (b'!' ∷ []) reached

numbered : Numbered 0 one_game.ttt_list_g one_game.next_id
numbered = push_onto_list-Numbered left_to_right alice bob 0 initial (omega arith)

listed : find 1 one_game.ttt_list_g ≡ some first_entry
unfolding push_onto_list find new_entry
listed = refl

result_deployed_once_example :
    (t : Bot) × (complete (result_deployed 1) (value blank_message) one_game
      ≡ some (t, deployed_line ∷ []))
    × (find 1 t.ttt_list_g ≡ none)
    × (find 7 t.ttt_list_g ≡ find 7 one_game.ttt_list_g)
    × (complete (result_deployed 1) (value blank_message) t ≡ none)
result_deployed_once_example =
    result_deployed_once 1 7 0 blank_message blank_message one_game first_entry numbered listed
      (omega arith)

sound : (i k : Ix) → IsSound (at (init_board 3).0 i k)
unfolding init_board pair_id to_string
sound i0 i0 = record { known = omega arith; fits = omega arith }
sound i0 i1 = record { known = omega arith; fits = omega arith }
sound i0 i2 = record { known = omega arith; fits = omega arith }
sound i1 i0 = record { known = omega arith; fits = omega arith }
sound i1 i1 = record { known = omega arith; fits = omega arith }
sound i1 i2 = record { known = omega arith; fits = omega arith }
sound i2 i0 = record { known = omega arith; fits = omega arith }
sound i2 i1 = record { known = omega arith; fits = omega arith }
sound i2 i2 = record { known = omega arith; fits = omega arith }

live : is_expired started.result ≡ false
unfolding init_game new_entry
live = refl

components_show_board_example : Alike (at (init_board 3).0 i1 i2) (at (init_board 3).0 i1 i2)
components_show_board_example =
    components_show_board started (init_board 3).0 (init_board 3).0 live sound sound refl i1 i2

set_origin_once_example :
    (find 1 (set_origin blank_message 1 one_game).ttt_list_g
      ≡ Option.map (with_origin blank_message) (find 1 one_game.ttt_list_g))
    × (find 7 (set_origin blank_message 1 one_game).ttt_list_g ≡ find 7 one_game.ttt_list_g)
    × (set_origin with_embed 1 (set_origin blank_message 1 one_game)
        ≡ set_origin blank_message 1 one_game)
set_origin_once_example = set_origin_once blank_message with_embed 1 7 one_game (omega arith)

push_onto_list_undone_example :
    (find
        (uid_of (push_onto_list left_to_right bob alice one_game).0)
        (push_onto_list left_to_right bob alice one_game).1.ttt_list_g
      ≡ some (push_onto_list left_to_right bob alice one_game).0)
    × (erase_one_from_list
          (uid_of (push_onto_list left_to_right bob alice one_game).0)
          (push_onto_list left_to_right bob alice one_game).1
        ≡ some (record (push_onto_list left_to_right bob alice one_game).1 {
          ttt_list_g = one_game.ttt_list_g;
        }))
push_onto_list_undone_example = push_onto_list_undone left_to_right bob alice 0 one_game numbered
