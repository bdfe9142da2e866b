-- ===== src/Main/Delivers.antt =====
-- What the program does with an event, from `main` on: the listeners that it attached are the handlers
-- of Commands, and the lines that they log go through the filter of the log level.
use tintemp_plus_plus.Base.{
  ℕ, ◌≡◌, ap, sym, ◌∙◌, Option-cases, inl, inr, Option, none, some, List, [], ◌∷◌, ◌++◌, length,
}
use mathlib.Core.List.{append-nil, append_assoc}
use tintemp_plus_plus.Text.{Text, codes}
use tintemp_plus_plus.Dpp.{Dpp, User}
use tintemp_plus_plus.Dpp.Router.{Routers}
use tintemp_plus_plus.ConfirmButton.{Compiler}
use tintemp_plus_plus.Registry.{Bot}
use tintemp_plus_plus.Bot.{
  Call, LogLine, log, bot_line, logger_line, reply, reply_text, get_original_response,
  message_create, message_edit, message_delete,
}
use tintemp_plus_plus.Callbacks.{complete}
use tintemp_plus_plus.Commands.{Handler, on_message_create, on_button_click}
use tintemp_plus_plus.Logger.{Config, Loglevel, Fmt, info, log_level}
use tintemp_plus_plus.Main.{
  Action, Run, Context, Event, ready, logged, message_created, button_clicked, call_ended, main,
  deliver, attach_logging, init_commands, init_buttons, call_all, bot_log, and_then, perform,
  perform_all, run_handler, write, log_listener, ready_listener, command_listener, button_listener,
}

-- What an event does to the bot, and what it asks for.
abbrev pub handles : ⦃d : Dpp⦄ → Compiler → Text → User → Event → Handler
handles c prefix me (ready e) s =
    some (s, log (bot_line info (codes "Logged in as " ++ me.username)) ∷ [])
handles c prefix me (logged e) s = some (s, log (bot_line e.severity e.message) ∷ [])
handles c prefix me (message_created msg) s = on_message_create c prefix msg s
handles c prefix me (button_clicked click) s = on_button_click click s
handles c prefix me (call_ended cb how) s = complete cb how s

-- The calls that go to Discord.
abbrev pub requests : List Call → List Call
requests [] = []
requests (log l ∷ cs) = requests cs
requests (reply r m cb ∷ cs) = reply r m cb ∷ requests cs
requests (reply_text r t cb ∷ cs) = reply_text r t cb ∷ requests cs
requests (get_original_response cb ∷ cs) = get_original_response cb ∷ requests cs
requests (message_create m cb ∷ cs) = message_create m cb ∷ requests cs
requests (message_edit m cb ∷ cs) = message_edit m cb ∷ requests cs
requests (message_delete i channel ∷ cs) = message_delete i channel ∷ requests cs

-- The lines that are logged.
abbrev pub log_lines : List Call → List LogLine
log_lines [] = []
log_lines (log l ∷ cs) = l ∷ log_lines cs
log_lines (reply r m cb ∷ cs) = log_lines cs
log_lines (reply_text r t cb ∷ cs) = log_lines cs
log_lines (get_original_response cb ∷ cs) = log_lines cs
log_lines (message_create m cb ∷ cs) = log_lines cs
log_lines (message_edit m cb ∷ cs) = log_lines cs
log_lines (message_delete i channel ∷ cs) = log_lines cs

-- What is printed after some lines are logged.
abbrev pub write_all : ⦃f : Fmt⦄ → Config → (ℕ → Text) → List LogLine → List Text → List Text
write_all conf clock [] printed = printed
write_all conf clock (bot_line l t ∷ ls) printed =
    write_all conf clock ls (write conf clock (record { severity = l; message = t }) printed)
write_all conf clock (logger_line l t ∷ ls) printed =
    write_all conf clock ls (printed ++ log_level conf (clock (length printed)) l t ∷ [])

module _ ⦃f : Fmt⦄ (conf : Config) (clock : ℕ → Text) where
  -- The program after some calls.
  abbrev pub performed : List Call → Run → Run
  performed cs r = record r {
    calls = r.calls ++ requests cs;
    printed = write_all conf clock (log_lines cs) r.printed;
  }

  -- The program after a handler.
  abbrev pub outcome : Option (Bot × List Call) → Run → Option Run
  outcome none r = none
  outcome (some (s, cs)) r = some (performed cs (record r { bot = s }))

  performed_nil : (r : Run) → some r ≡ some (performed [] r)
  performed_nil r =
      ap (λ (cs : List Call). some (record r { calls = cs })) (sym (append-nil r.calls))

  -- A request is made before the calls that follow it.
  requested :
      (c : Call) (cs : List Call) (r : Run)
      → performed cs (record r { calls = r.calls ++ c ∷ [] }) ≡ record r {
        calls = r.calls ++ c ∷ requests cs;
        printed = write_all conf clock (log_lines cs) r.printed;
      }
  requested c cs r = rw (append_assoc r.calls (c ∷ []) (requests cs))

  module _ ⦃k : Routers⦄ where
    -- A router with one listener.
    call_one :
        {E L : Type 0} (run : L → E → Action) (func : L) (e : E) (r : Run)
        → call_all run (k.attach k.router func) e r ≡ run func e r
    unfolding call_all and_then
    call_one {L = L} run func e r = rw (
      k.call-attach (λ f e s. and_then s (run f e)) k.router func e (some r),
      k.call-router {L = L} (λ f e s. and_then s (run f e)) e (some r),
    )

    module _ ⦃d : Dpp⦄ (c : Compiler) (prefix : Text) (me : User) where
      abbrev cluster_context : Context
      cluster_context = (main conf clock c prefix me).context

      bot_log_main :
          (level : Loglevel) (message : Text) (r : Run)
          → bot_log cluster_context level message r
            ≡ some (record r {
              printed = write conf clock (record { severity = level; message = message }) r.printed;
            })
      unfolding main attach_logging init_commands init_buttons bot_log log_listener
      bot_log_main level message r = call_one (λ f. f) (log_listener conf clock) _ r

      perform_all_lem :
          (cs : List Call) (r : Run)
          → perform_all conf clock cluster_context cs r ≡ some (performed cs r)
      unfolding perform perform_all and_then
      perform_all_lem [] r = performed_nil r
      perform_all_lem (log (bot_line l t) ∷ cs) r = rw (bot_log_main l t r) (perform_all_lem cs _)
      perform_all_lem (log (logger_line l t) ∷ cs) r = perform_all_lem cs _
      perform_all_lem (reply how m cb ∷ cs) r =
          perform_all_lem cs _ ∙ ap some (requested (reply how m cb) cs r)
      perform_all_lem (reply_text how t cb ∷ cs) r =
          perform_all_lem cs _ ∙ ap some (requested (reply_text how t cb) cs r)
      perform_all_lem (get_original_response cb ∷ cs) r =
          perform_all_lem cs _ ∙ ap some (requested (get_original_response cb) cs r)
      perform_all_lem (message_create m cb ∷ cs) r =
          perform_all_lem cs _ ∙ ap some (requested (message_create m cb) cs r)
      perform_all_lem (message_edit m cb ∷ cs) r =
          perform_all_lem cs _ ∙ ap some (requested (message_edit m cb) cs r)
      perform_all_lem (message_delete i channel ∷ cs) r =
          perform_all_lem cs _ ∙ ap some (requested (message_delete i channel) cs r)

      run_handler_lem :
          (h : Handler) (r : Run) → run_handler conf clock cluster_context h r ≡ outcome (h r.bot) r
      unfolding run_handler
      run_handler_lem h r = elim (Option-cases (h r.bot)) [
        | inl nothing ↦ rw (nothing, run_handler)
        | inr ((s, cs), done) ↦ rw (done, run_handler) (perform_all_lem cs (record r { bot = s }))
      ]

      -- From the cluster that `main` sets up, for all routers that call their listeners in the
      -- order in which they were attached, every event is handled as follows: a message by
      -- `on_message_create`, a click by `on_button_click`, the end of a call by its callback, the
      -- login by a line that says so, and a log event by its line. The state is the one after the
      -- handler, its requests are added to those made, in order, and of its lines, in order, those
      -- of `logger` are all printed and those of `bot.log` as the filter of the log level has it.
      -- Where the handler is undefined, so is the program.
      pub main_delivers :
          (event : Event) (r : Run)
          → deliver conf clock (main conf clock c prefix me) event r
            ≡ outcome (handles c prefix me event r.bot) r
      unfolding deliver main attach_logging init_commands init_buttons ready_listener log_listener
          command_listener button_listener
      main_delivers (ready e) r =
          call_one (λ f. f cluster_context) ready_listener e r
          ∙ bot_log_main info (codes "Logged in as " ++ me.username) r
          ∙ performed_nil _
      main_delivers (logged e) r = call_one (λ f. f) (log_listener conf clock) e r ∙ performed_nil _
      main_delivers (message_created msg) r =
          call_one (λ f. f cluster_context) (command_listener conf clock c prefix) msg r
          ∙ run_handler_lem (on_message_create c prefix msg) r
      main_delivers (button_clicked click) r =
          call_one (λ f. f cluster_context) (button_listener conf clock) click r
          ∙ run_handler_lem (on_button_click click) r
      main_delivers (call_ended cb how) r = run_handler_lem (complete cb how) r
