-- ===== src/Bot.antt =====
-- What the event handlers of tictactoe.cpp and main.cpp ask of Discord, and how they end. A lambda that
-- is passed as a callback is a constructor with what it captures; the iterator is the game's `uid`.
pub mod Keeps
pub mod Raises
pub mod Defined
pub mod Lines
use tintemp_plus_plus.Base.{ℕ, Option, none, some, List, [], ◌∷◌, ◌++◌, map}
use tintemp_plus_plus.Text.{Text}
use tintemp_plus_plus.Dpp.{Message, ResponseType}
use tintemp_plus_plus.Registry.{Entry, Bot}
use tintemp_plus_plus.Logger.{Level, Loglevel, ll_comment}

-- The lambdas that only write to the log how the call went.
pub data LogOnly : Type 0 where
  stranger_warned : LogOnly  -- "that's not your button!"
  start_shown : LogOnly  -- the first message, when the game starts
  game_shown : LogOnly  -- the message of the game, when it starts
  decline_shown : LogOnly
  square_warned : LogOnly
  turn_warned : LogOnly
  end_shown : LogOnly  -- the first message, when the game has ended
  refused : LogOnly  -- main.cpp, after a refusal of the command

pub data Callback : Type 0 where
  log_only : LogOnly → Callback
  no_callback : Callback
  origin_deployed : ℕ → Callback  -- main.cpp, after the first message of the command
  confirm_replied : ℕ → Callback  -- after "confirmed! *(1/2)*"
  original_response : ℕ → Callback
  turn_replied : ℕ → ℕ → ℕ → Callback  -- the game, the player and the channel of a turn
  result_deployed : ℕ → Callback

-- A line of the log: `bot.log(severity, message)`, or a function of `logger` with its level.
pub data LogLine : Type 0 where
  bot_line : Loglevel → Text → LogLine
  logger_line : Level → Text → LogLine

pub data Call : Type 0 where
  reply : ResponseType → Message → Callback → Call
  reply_text : ResponseType → Text → Callback → Call
  get_original_response : Callback → Call
  message_create : Message → Callback → Call
  message_edit : Message → Callback → Call
  message_delete : ℕ → ℕ → Call
  log : LogLine → Call

-- How the body of a loop over the list ends: it goes on to the next element, it returns from the
-- handler, or it runs into undefined behaviour; with the element, the counter and the calls made.
pub data Visit : Type 0 where
  goes_on : Entry → ℕ → List Call → Visit
  returns : Entry → ℕ → List Call → Visit
  undefined : Visit

-- A round that has made calls before.
unfoldable pub add_calls : List Call → Visit → Visit
add_calls cs (goes_on e n ds) = goes_on e n (cs ++ ds)
add_calls cs (returns e n ds) = returns e n (cs ++ ds)
add_calls cs undefined = undefined

-- The list, the counter and the calls after a loop; `none` is undefined behaviour.
abbrev pub Loop : Type 0
Loop = Option (List Entry × ℕ × List Call)

-- The line at the start of a handler that goes over the list, if the list is not empty.
abbrev pub entry_line : Text → Call
entry_line text = log (logger_line ll_comment text)

abbrev pub entered : Text → List Entry → List Call
entered text [] = []
entered text (e ∷ es) = entry_line text ∷ []

-- What a handler does, after some lines that it writes first.
abbrev pub with_lines : List LogLine → Option (Bot × List Call) → Option (Bot × List Call)
with_lines ls none = none
with_lines ls (some (s, cs)) = some (s, map log ls ++ cs)

-- A loop as a handler of the bot.
unfoldable pub run_loop : Text → (List Entry → ℕ → Loop) → Bot → Option (Bot × List Call)
run_loop text loop s = elim (loop s.ttt_list_g s.next_id) [
  | none ↦ none
  | some (es, n, cs) ↦
      some (record { next_id = n; ttt_list_g = es }, entered text s.ttt_list_g ++ cs)
]

abbrev prepend : Entry → List Call → Loop → Loop
prepend e cs none = none
prepend e cs (some (es, n, ds)) = some (e ∷ es, n, cs ++ ds)

-- A round of a loop, with the elements after it and what the loop does with them.
unfoldable pub resume : Visit → List Entry → (ℕ → Loop) → Loop
resume (goes_on e n cs) es rest = prepend e cs (rest n)
resume (returns e n cs) es rest = some (e ∷ es, n, cs)
resume undefined es rest = none
