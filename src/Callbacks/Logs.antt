-- ===== src/Callbacks/Logs.antt =====
-- What the lambdas of tictactoe.cpp and main.cpp write to the log when their calls end: by `bot.log`, or
-- by the functions of `logger`.
use tintemp_plus_plus.Base.{ℕ, not, ◌&&◌, ◌==◌, if◌then◌else◌, List, [], ◌∷◌, ◌++◌, map}
use tintemp_plus_plus.Text.{codes}
use tintemp_plus_plus.Dpp.{Dpp, ErrorDetail, ErrorInfo, Message, Completion, is_error, value}
use tintemp_plus_plus.Ttt.{get_uid}
use tintemp_plus_plus.Registry.{Entry, Bot}
use tintemp_plus_plus.Bot.{
  LogLine, bot_line, logger_line, Callback, LogOnly, stranger_warned, start_shown, game_shown,
  decline_shown, square_warned, turn_warned, end_shown, refused, log_only, no_callback,
  origin_deployed, confirm_replied, original_response, turn_replied, result_deployed,
}
use tintemp_plus_plus.Logger.{info, trace, error, ll_comment, ll_trace, ll_error}

-- `for (auto i : callback.get_error().errors) { logger::trace(i.reason); }`
unfoldable pub reasons : ErrorInfo → List LogLine
reasons err = map (λ (x : ErrorDetail). logger_line ll_trace x.reason) err.errors

-- On success, a lambda that only logs, of `on_confirm_click`, `on_ttt_interaction` or `tictactoe`.
unfoldable pub success_line : LogOnly → LogLine
success_line stranger_warned =
    logger_line ll_comment (codes "successfull warning message on event.reply()!")
success_line start_shown = bot_line info (codes "successfully edit message with event.reply()")
success_line game_shown = bot_line info (codes "ttt game initialize: succeed")
success_line decline_shown = bot_line trace (codes "succesfully bot.message_edit()!")
success_line square_warned = logger_line ll_comment (codes "successfull sent ttt warning message")
success_line turn_warned = logger_line ll_comment (codes "successfull sent ttt warning message")
success_line end_shown = bot_line trace (codes "succesfully bot.message_edit()!")
success_line refused = bot_line trace (codes "command exit: succeed")

-- On an error.
unfoldable pub failure_lines : LogOnly → ErrorInfo → List LogLine
unfolding reasons
failure_lines stranger_warned err =
    logger_line ll_error (codes "error on event.reply(): ") ∷ reasons err
failure_lines start_shown err =
    bot_line error (codes "error on event.reply(): " ++ err.message) ∷ reasons err
failure_lines game_shown err =
    bot_line error (codes "error on get_original_response(): " ++ err.message) ∷ reasons err
failure_lines decline_shown err =
    bot_line error (codes "error on bot.message_edit(): " ++ err.message) ∷ reasons err
failure_lines square_warned err =
    logger_line ll_error (codes "error on event.reply(): ") ∷ reasons err
failure_lines turn_warned err =
    logger_line ll_error (codes "2 error on event.reply(): ") ∷ reasons err
failure_lines end_shown err =
    bot_line error (codes "error on bot.message_edit(): " ++ err.message) ∷ reasons err
failure_lines refused err = bot_line error (codes "command exit: " ++ err.message) ∷ []

module _ ⦃d : Dpp⦄ where
  -- The lines of `set_origin`: one for each game that takes the message.
  unfoldable pub origin_lines : Message → ℕ → List Entry → List LogLine
  origin_lines m id [] = []
  origin_lines m id (e ∷ es) =
      let rest = origin_lines m id es in
      if id == get_uid e.first && not e.first.have_origin
      then logger_line ll_comment (
          codes "registered ttt message origin: "
          ++ d.format_int m.id
          ++ codes " to ttt id: "
          ++ d.format_int (get_uid e.first))
        ∷ rest
      else rest

  -- The lines of a callback, with how its call ended, in a state of the bot.
  unfoldable pub logs : Callback → Completion → Bot → List LogLine
  unfolding success_line failure_lines reasons origin_lines
  logs (log_only w) (value m) s = success_line w ∷ []
  logs (log_only w) (is_error err) s = failure_lines w err
  logs no_callback c s = []
  logs (origin_deployed id) (value m) s =
      bot_line trace (codes "command exit: succeed") ∷ origin_lines m id s.ttt_list_g
  logs (origin_deployed id) (is_error err) s =
      bot_line error (codes "command exit: " ++ err.message) ∷ []
  logs (confirm_replied uid) c s = []
  logs (original_response uid) (value m) s =
      logger_line ll_comment (codes "successfull get_original_response()!") ∷ []
  logs (original_response uid) (is_error err) s =
      logger_line ll_error (codes "error on get_original_response(): ") ∷ reasons err
  logs (turn_replied uid usr channel) (value m) s =
      logger_line ll_comment (codes "successfull event.reply()!") ∷ []
  logs (turn_replied uid usr channel) (is_error err) s =
      bot_line error (codes "1 error on event.reply(): " ++ err.message) ∷ reasons err
  logs (result_deployed uid) (value m) s =
      bot_line info (codes "successfully deploy ttt result message") ∷ []
  logs (result_deployed uid) (is_error err) s =
      bot_line error (codes "error on bot.message_create(): " ++ err.message) ∷ reasons err
