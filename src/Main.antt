-- ===== src/Main.antt =====
-- main.cpp: `main`, which attaches lambdas to the events of the cluster, `initCommands` and
-- `initButtons`, and the delivery of an event to what is attached, where the calls of its handler are
-- made and the lines that it logs are printed. `TOKEN`, the connection of `start` and the handler of
-- an exception are left out.
pub mod Delivers
pub mod Runs
use tintemp_plus_plus.Base.{
  ℕ, Bool, true, false, if◌then◌else◌, Option, none, some, List, [], ◌∷◌, ◌++◌, length,
}
use tintemp_plus_plus.Text.{Text, codes}
use tintemp_plus_plus.Dpp.{Dpp, User, MessageCreate, ButtonClick, Ready}
use tintemp_plus_plus.Dpp.Router.{Routers}
use tintemp_plus_plus.ConfirmButton.{Compiler}
use tintemp_plus_plus.Registry.{Bot}
use tintemp_plus_plus.Bot.{Call, Callback, log, bot_line, logger_line}
use tintemp_plus_plus.Callbacks.{Completion, complete}
use tintemp_plus_plus.Commands.{Handler}
use tintemp_plus_plus.Commands
use tintemp_plus_plus.Logger.{Config, Loglevel, Fmt, info, on_log, log_level}

-- `log_t`.
pub record LogEvent : Type 0 where
  pub severity : Loglevel
  pub message : Text

-- The program while it runs: the globals of tictactoe.cpp, the calls made and the lines printed.
pub record Run : Type 0 where
  pub bot : Bot
  pub calls : List Call
  pub printed : List Text

-- What a listener does; `none` is undefined behaviour.
abbrev pub Action : Type 0
Action = Run → Option Run

-- One action after another.
unfoldable pub and_then : Option Run → Action → Option Run
and_then none f = none
and_then (some r) f = f r

-- The lines that a log event adds, at a time that depends on how many there are.
unfoldable pub write : ⦃f : Fmt⦄ → Config → (ℕ → Text) → LogEvent → List Text → List Text
write conf clock event lines =
    elim (on_log conf (clock (length lines)) event.severity event.message) [
      | none ↦ lines
      | some line ↦ lines ++ line ∷ []
    ]

-- The lambda of `on_log`.
unfoldable pub log_listener : ⦃f : Fmt⦄ → Config → (ℕ → Text) → LogEvent → Action
unfolding write
log_listener conf clock event r = some (record r { printed = write conf clock event r.printed })

-- An event that the library delivers.
pub data Event : Type 0 where
  ready : Ready → Event
  logged : LogEvent → Event
  message_created : MessageCreate → Event
  button_clicked : ButtonClick → Event
  call_ended : Callback → Completion → Event

module _ ⦃k : Routers⦄ where
  -- What a lambda with the capture `[&bot]` uses of the cluster, apart from the calls.
  pub record Context : Type 0 where
    pub me : User
    pub on_log : k.EventRouter (LogEvent → Action)

  -- `dpp::cluster`, with the routers that the program attaches to.
  pub record Cluster : Type 0 where
    pub context : Context
    pub on_ready : k.EventRouter (Context → Ready → Action)
    pub on_message_create : k.EventRouter (Context → MessageCreate → Action)
    pub on_button_click : k.EventRouter (Context → ButtonClick → Action)

  -- `call` of a router.
  unfoldable pub call_all : {E L : Type 0} → (L → E → Action) → k.EventRouter L → E → Action
  unfolding and_then
  call_all run router event r = k.call (λ f e s. and_then s (run f e)) router event (some r)

  -- `bot.log(severity, message)`: the library calls the listeners of `on_log`.
  unfoldable pub bot_log : Context → Loglevel → Text → Action
  unfolding call_all
  bot_log bot severity message =
      call_all (λ f. f) bot.on_log (record { severity = severity; message = message })

  -- The lambda of `on_ready`.
  unfoldable pub ready_listener : Context → Ready → Action
  unfolding bot_log
  ready_listener bot event = bot_log bot info (codes "Logged in as " ++ bot.me.username)

  -- `dpp::cluster bot(TOKEN)`, for the user that the token belongs to.
  abbrev pub new_cluster : User → Cluster
  new_cluster me = record {
    context = record { me = me; on_log = k.router };
    on_ready = k.router;
    on_message_create = k.router;
    on_button_click = k.router;
  }

  module _ ⦃f : Fmt⦄ (conf : Config) (clock : ℕ → Text) where
    -- A call that a handler makes: `bot.log` calls the listeners, and `logger` prints whatever the level.
    unfoldable pub perform : Context → Call → Action
    unfolding bot_log
    perform bot (log (bot_line l t)) r = bot_log bot l t r
    perform bot (log (logger_line l t)) r =
        some
          (record r { printed = r.printed ++ log_level conf (clock (length r.printed)) l t ∷ [] })
    perform bot c r = some (record r { calls = r.calls ++ c ∷ [] })

    unfoldable pub perform_all : Context → List Call → Action
    unfolding perform and_then
    perform_all bot [] r = some r
    perform_all bot (c ∷ cs) r = and_then (perform bot c r) (perform_all bot cs)

    -- A handler with its calls, in the program.
    unfoldable pub run_handler : Context → Handler → Action
    unfolding perform_all
    run_handler bot h r = elim (h r.bot) [
      | none ↦ none
      | some (s, cs) ↦ perform_all bot cs (record r { bot = s })
    ]

    -- The `try` block of `main`: the listeners of `on_ready` and `on_log`.
    unfoldable pub attach_logging : Cluster → Cluster
    attach_logging bot = record bot {
      on_ready = k.attach bot.on_ready ready_listener;
      context = record (bot.context) {
        on_log = k.attach bot.context.on_log (log_listener conf clock);
      };
    }

    module _ ⦃d : Dpp⦄ where
      -- The lambda of `initCommands`.
      unfoldable pub command_listener : Compiler → Text → Context → MessageCreate → Action
      unfolding run_handler
      command_listener c prefix bot msg = run_handler bot (Commands.on_message_create c prefix msg)

      -- The lambda of `initButtons`.
      unfoldable pub button_listener : Context → ButtonClick → Action
      unfolding run_handler
      button_listener bot click = run_handler bot (Commands.on_button_click click)

      -- `initCommands`.
      unfoldable pub init_commands : Compiler → Text → Cluster → Cluster
      init_commands c prefix bot = record bot {
        on_message_create = k.attach bot.on_message_create (command_listener c prefix);
      }

      -- `initButtons`.
      unfoldable pub init_buttons : Cluster → Cluster
      init_buttons bot = record bot {
        on_button_click = k.attach bot.on_button_click button_listener;
      }

      -- `main`, up to `bot.start`: the cluster that then waits for events.
      unfoldable pub main : Compiler → Text → User → Cluster
      unfolding attach_logging init_commands init_buttons
      main c prefix me = init_buttons (init_commands c prefix (attach_logging (new_cluster me)))

      -- The call of the event's router, or of the callback that was given with the call.
      unfoldable pub deliver : Cluster → Event → Action
      unfolding call_all run_handler
      deliver bot (ready e) = call_all (λ f. f bot.context) bot.on_ready e
      deliver bot (logged e) = call_all (λ f. f) bot.context.on_log e
      deliver bot (message_created e) = call_all (λ f. f bot.context) bot.on_message_create e
      deliver bot (button_clicked e) = call_all (λ f. f bot.context) bot.on_button_click e
      deliver bot (call_ended cb how) = run_handler bot.context (complete cb how)
