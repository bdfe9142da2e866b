-- ===== src/World.antt =====
-- The events of the bot's life: messages, button clicks, and the ends of the calls that it made. Any
-- order of events is possible, and a call may end at any time after it was made.
pub mod Invariant
pub mod Counter
use tintemp_plus_plus.Base.{ℕ, ◌≡◌, Option, none, some, List, [], ◌∷◌, ◌++◌}
use tintemp_plus_plus.Text.{Text}
use tintemp_plus_plus.Dpp.{Dpp, MessageCreate, ButtonClick}
use tintemp_plus_plus.ConfirmButton.{Compiler}
use tintemp_plus_plus.Registry.{Bot, initial}
use tintemp_plus_plus.Bot.{
  Call, Callback, no_callback, reply, reply_text, get_original_response, message_create,
  message_edit, message_delete, log,
}
use tintemp_plus_plus.Callbacks.{Completion, complete}
use tintemp_plus_plus.Commands.{on_message_create, on_button_click}

-- The callbacks that wait for some calls; a line of the log is written at once.
abbrev pub callbacks : List Call → List Callback
callbacks [] = []
callbacks (log l ∷ cs) = callbacks cs
callbacks (reply r m cb ∷ cs) = cb ∷ callbacks cs
callbacks (reply_text r t cb ∷ cs) = cb ∷ callbacks cs
callbacks (get_original_response cb ∷ cs) = cb ∷ callbacks cs
callbacks (message_create m cb ∷ cs) = cb ∷ callbacks cs
callbacks (message_edit m cb ∷ cs) = cb ∷ callbacks cs
callbacks (message_delete i c ∷ cs) = no_callback ∷ callbacks cs

module _ ⦃d : Dpp⦄ (c : Compiler) (prefix : Text) where
  -- A step of the bot, with the callbacks that wait before and after it.
  pub data Step : Bot → List Callback → Bot → List Callback → Type 0 where
    message_arrives :
        {s s' : Bot} {cs : List Call} {waiting : List Callback} (msg : MessageCreate)
        → on_message_create c prefix msg s ≡ some (s', cs)
        → Step s waiting s' (waiting ++ callbacks cs)
    button_clicked :
        {s s' : Bot} {cs : List Call} {waiting : List Callback} (click : ButtonClick)
        → on_button_click click s ≡ some (s', cs)
        → Step s waiting s' (waiting ++ callbacks cs)
    call_ends :
        {s s' : Bot} {cs : List Call} (before after : List Callback) (cb : Callback)
        (how : Completion)
        → complete cb how s ≡ some (s', cs)
        → Step s (before ++ cb ∷ after) s' ((before ++ after) ++ callbacks cs)

  -- The states that the bot can reach from its start.
  pub data Reachable : Bot → List Callback → Type 0 where
    starts : Reachable initial []
    steps : {s t : Bot} {ws vs : List Callback} → Reachable s ws → Step s ws t vs → Reachable t vs
