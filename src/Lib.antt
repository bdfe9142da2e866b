-- ===== src/Lib.antt =====
-- TintempPlusPlus, a Discord bot that lets two users of a channel play tic-tac-toe.
--
-- The program. A message with the command `ttt` and a mention challenges a user: main.cpp puts a new
-- game, a `ttt` object with its `confirm_button`, at the end of the list `ttt_list_g` and posts a
-- message with two buttons. Clicks on any button run `on_confirm_click` and then `on_ttt_interaction`
-- over the whole list. When both players have answered, the game starts: nine buttons show the
-- board, and each turn edits them. The calls to Discord end later, and their callbacks store messages,
-- announce the result and remove the game.
--
-- The model, file by file (paths of the repository):
--   Dpp            the types of D++ that the bot reads and writes, with their fields, from the headers
--                  in src/TintempPlusPlus/dependencies/include/dpp-9.0/dpp (message.h, user.h,
--                  guild.h, slashcommand.h, dispatcher.h, cluster.h); Dpp.Router has the routers of
--                  events, as a parameter.
--   Color          `util::color` of src/TintempPlusPlus/utility.h.
--   UniqueId       src/TintempPlusPlus/uniqueid.hpp: `UniqueID`, with the static counter passed on.
--   Board          `ttt::pair` and `ttt::board` of src/TintempPlusPlus/tictactoe.hpp.
--   Ttt            class `ttt`: its state, constructor, accessors and modifiers.
--   Winner         `ttt::fetch_winner` of src/TintempPlusPlus/tictactoe.cpp, and three in a row.
--   Render         `fetch_btn_icon`, `ttt::fetch_ttt_components`, `ttt::fetch_ttt_turn`.
--   Game           `ttt::init_game`, `ttt::swap_turn` and the turn of `on_ttt_interaction`; Game.Moves
--                  has the rules of tic-tac-toe, Game.Plays the sequences of turns.
--   ConfirmButton  struct `ttt::confirm_button`.
--   Registry       `ttt_list_g`, `push_onto_list`, `erase_one_from_list`, `set_origin`; Registry.Uids and
--                  Registry.Apart have the numbers of the games.
--   Bot            the calls that the handlers make, their callbacks, and the loops over the list.
--   Confirm        `on_confirm_click`.
--   Interaction    `on_ttt_interaction`.
--   Callbacks      the lambdas that are passed to the calls; Callbacks.Logs has what they write to
--                  the log.
--   Regex          `std::regex_search` for the patterns of `newCommand`.
--   Commands       src/TintempPlusPlus/main.cpp: `newCommand`, `ping`, `tictactoe`, the event handlers.
--   Logger         src/TintempPlusPlus/utility.h and utility.cpp, and `on_log` of main.cpp.
--   Main           src/TintempPlusPlus/main.cpp: `main`, `initCommands`, `initButtons`: what is attached
--                  to the events of the cluster, how an event is delivered, and how the calls of its
--                  handler are made and its lines printed. Main.Runs is the
--                  program while events reach it.
--   World          the events that reach the bot, as a step relation, and its reachable states.
--   Life           the changes that one game of the list goes through, and what they all keep.
--   Base, Text     shared helpers: tests on numbers, lists, texts and decimal numbers.
--   Examples       concrete games, clicks, messages and log lines.
--
-- Parameters. The functions of D++ have no bodies in the repository: they are the record Dpp, class by
-- class, with the behaviour that the headers document as laws; Dpp.Plain shows that these can be met.
-- A component is a record over the type of the components below it, since Discord has two levels.
-- The routers through which `main` receives its events are the record Routers, with Dpp.Router.Listed.
-- `fmt` is the record Fmt, with Logger.Plain. The record Compiler holds the order in which a compiler
-- evaluates the arguments of a call and what lies behind a string literal. PREFIX and TOKEN stand in a
-- file that is not in the repository: the prefix is an argument.
--
-- State and undefined behaviour. The state is the counter and the list; handlers take it and return it
-- with the calls that they made, of which a line of the log is one, in order. An iterator of the list
-- is the uid of its game. `none` stands for undefined behaviour: `front` of an empty vector, or an
-- iterator that points to no game. A pattern outside the model of regular expressions is `none` too,
-- also where `std::regex` throws `regex_error`. A callback holds what its lambda captures by value; one
-- lambda of `on_ttt_interaction` captures the iterator by reference, from an enclosing lambda that may
-- have ended, and that use is not told apart.
--
-- Bounds. Numbers are natural numbers: ids and turns are `int` in the code, and the counter overflows
-- only after 2^31 ids. `to_string` runs with fuel n + 1 for the number n, more than it has digits. The
-- other recursions are structural.
--
-- Left out. The connection of login, the network and the threads; exceptions of the logger and of
-- `set_origin`, and the line that `fetch_btn_icon` logs for an unknown status; of the types
-- of D++ the pointers and what only commands and channels have; the rest of the libraries under
-- src/TintempPlusPlus/dependencies; timer.hpp and pch.h, which hold no code. `std::regex` is taken
-- without the multiline option, so `^` matches at the start only.
pub mod Base
pub mod Text
pub mod Dpp
pub mod Color
pub mod UniqueId
pub mod Board
pub mod Ttt
pub mod Winner
pub mod Render
pub mod Game
pub mod ConfirmButton
pub mod Registry
pub mod Bot
pub mod Confirm
pub mod Interaction
pub mod Callbacks
pub mod Regex
pub mod Commands
pub mod Logger
pub mod Main
pub mod World
pub mod Examples
pub mod Life
