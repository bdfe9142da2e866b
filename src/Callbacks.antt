-- ===== src/Callbacks.antt =====
-- The lambdas that tictactoe.cpp and main.cpp pass to the calls of D++, run when a call completes. An
-- iterator that points to no game is undefined behaviour.
pub mod Keeps
pub mod Removed
pub mod Announced
pub mod Dangling
pub mod Reported
mod Logs
pub use tintemp_plus_plus.Dpp.{Completion, is_error, value}
unfoldable pub use Logs.*
use tintemp_plus_plus.Base.{
  ℕ, Bool, true, false, if◌then◌else◌, Option, none, some, List, [], ◌∷◌, ◌++◌,
}
use tintemp_plus_plus.Text.{Text, codes}
use tintemp_plus_plus.Color.{white, black, green}
use tintemp_plus_plus.Dpp.{Dpp, Message, Completion, is_error, value, MessageRef, Embed}
use tintemp_plus_plus.Ttt.{
  get_uid, get_game, get_origin, get_player, Ttt, GameResult, in_progress, expired, draw, won,
  set_origin_embed, set_game_origin,
}
use tintemp_plus_plus.Render.{mention}
use tintemp_plus_plus.ConfirmButton.{ConfirmButton, set_replied_msg}
use tintemp_plus_plus.Registry.{Entry, Bot, erase_one_from_list, set_origin, modify_at, find}
use tintemp_plus_plus.Bot.{
  with_lines, Call, Callback, message_create, message_edit, get_original_response, log_only,
  end_shown, no_callback, origin_deployed, confirm_replied, original_response, turn_replied,
  result_deployed,
}

-- `set_game_origin`, `set_replied_msg` and `st.replied = true`.
unfoldable pub store_response : Message → Entry → Entry
store_response m e =
    let c = set_replied_msg e.second m in
    record e {
      first = set_game_origin e.first m;
      second = record c { st = record (c.st) { replied = true } };
    }

unfoldable pub with_list : Bot → Option (List Entry) → Option Bot
with_list s none = none
with_list s (some es) = some (record s { ttt_list_g = es })

unfoldable pub no_calls : Option Bot → Option (Bot × List Call)
no_calls none = none
no_calls (some s) = some (s, [])

module _ ⦃d : Dpp⦄ where
  -- The `switch` on the result: the embed that announces it.
  unfoldable pub result_embed : GameResult → ℕ → Option Embed
  result_embed won usr = some (
      d.embeds.set_color (d.embeds.set_description d.embeds.embed (mention usr ++ codes " won!"))
        green)
  result_embed draw usr =
      some (d.embeds.set_color (d.embeds.set_description d.embeds.embed (codes "draw!")) white)
  result_embed in_progress usr = none
  result_embed expired usr = none

  unfoldable pub ended_embed : Ttt → Embed
  ended_embed t =
      d.embeds.set_description
        (d.embeds.set_color (d.embeds.set_title d.embeds.embed (codes "Game Ended")) black)
        (mention (get_player t).0 ++ codes " ***VS*** " ++ mention (get_player t).1)

  -- The message with the result, a reply to the game.
  unfoldable pub result_message : Ttt → ℕ → Embed → Message
  result_message t channel e =
      d.messages.set_reference (d.messages.message_embed channel e) (get_game t).id
        (get_game t).guild_id (get_game t).channel_id false

  -- The end of a game that has a result.
  unfoldable pub announce : Bot → Entry → ℕ → Embed → Option (Bot × List Call)
  unfolding with_list
  announce s e channel embed = elim (set_origin_embed e.first (ended_embed e.first)) [
    | none ↦ none
    | some t ↦
        elim (with_list s
          (modify_at e.first.uid (λ x. some (record x { first = t })) s.ttt_list_g)) [
            | none ↦ none
            | some s' ↦ some (
              s',
              message_create (result_message e.first channel embed)
                    (result_deployed (get_uid e.first))
                  ∷ message_edit (get_origin t) (log_only end_shown)
                  ∷ [],
            )
          ]
  ]

  -- The lambda of the reply to a turn, on success.
  unfoldable pub turn_done : ℕ → ℕ → ℕ → Bot → Option (Bot × List Call)
  unfolding announce
  turn_done uid usr channel s = elim (find uid s.ttt_list_g) [
    | none ↦ none
    | some e ↦ elim (result_embed e.first.result usr) [
      | none ↦ some (s, [])
      | some embed ↦ announce s e channel embed
    ]
  ]

  -- What a callback does to the bot, and the calls that it makes, by how its call ended.
  unfoldable pub act : Callback → Completion → Bot → Option (Bot × List Call)
  unfolding with_list no_calls turn_done
  act (log_only w) c s = some (s, [])
  act no_callback c s = some (s, [])
  act (origin_deployed id) (is_error err) s = some (s, [])
  act (origin_deployed id) (value m) s = some (set_origin m id s, [])
  act (confirm_replied uid) c s = some (s, get_original_response (original_response uid) ∷ [])
  act (original_response uid) (is_error err) s = some (s, [])
  act (original_response uid) (value m) s =
      no_calls (with_list s (modify_at uid (λ e. some (store_response m e)) s.ttt_list_g))
  act (turn_replied uid usr channel) (is_error err) s = some (s, [])
  act (turn_replied uid usr channel) (value m) s = turn_done uid usr channel s
  act (result_deployed uid) (is_error err) s = some (s, [])
  act (result_deployed uid) (value m) s = no_calls (erase_one_from_list uid s)

  -- A callback, with the lines that it writes to the log.
  unfoldable pub complete : Callback → Completion → Bot → Option (Bot × List Call)
  unfolding act
  complete cb c s = with_lines (logs cb c s) (act cb c s)
