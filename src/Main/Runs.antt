-- ===== src/Main/Runs.antt =====
-- The program of main.cpp while events reach it, and its states among those of World.
use tintemp_plus_plus.Base.{
  ℕ, ◌≡◌, refl, sym, ap, subst, ◌∙◌, Bool, true, false, Option, none, some, List, [], ◌∷◌, ◌++◌,
  arith,
}
use mathlib.Core.List.{append-nil, append_cancel_left}
use tintemp_plus_plus.Text.{Text}
use tintemp_plus_plus.Dpp.{Dpp, User}
use tintemp_plus_plus.Dpp.Router.{Routers}
use tintemp_plus_plus.ConfirmButton.{Compiler}
use tintemp_plus_plus.Registry.{Bot, initial}
use tintemp_plus_plus.Bot.{
  Call, Callback, log, reply, reply_text, get_original_response, message_create, message_edit,
  message_delete, no_callback, LogLine,
}
use tintemp_plus_plus.Callbacks.{Completion}
use tintemp_plus_plus.Logger.{Config, Fmt}
use tintemp_plus_plus.World.{Reachable, starts, steps, message_arrives, call_ends, callbacks}
use tintemp_plus_plus.World
use tintemp_plus_plus.Main.{
  Run, Event, ready, logged, message_created, button_clicked, call_ended, main, deliver, Cluster,
}
use tintemp_plus_plus.Main.Delivers.{handles, requests, outcome, main_delivers}

-- An event that is no end of a call of the program.
abbrev pub from_outside : Event → Bool
from_outside (ready e) = true
from_outside (logged e) = true
from_outside (message_created msg) = true
from_outside (button_clicked click) = true
from_outside (call_ended cb how) = false

-- The program before its first event.
abbrev pub booted : Run
booted = record { bot = initial; calls = []; printed = [] }

callbacks-requests : (cs : List Call) → callbacks (requests cs) ≡ callbacks cs
callbacks-requests [] = refl
callbacks-requests (log l ∷ cs) = callbacks-requests cs
callbacks-requests (reply r m cb ∷ cs) = ap (λ l. cb ∷ l) (callbacks-requests cs)
callbacks-requests (reply_text r t cb ∷ cs) = ap (λ l. cb ∷ l) (callbacks-requests cs)
callbacks-requests (get_original_response cb ∷ cs) = ap (λ l. cb ∷ l) (callbacks-requests cs)
callbacks-requests (message_create m cb ∷ cs) = ap (λ l. cb ∷ l) (callbacks-requests cs)
callbacks-requests (message_edit m cb ∷ cs) = ap (λ l. cb ∷ l) (callbacks-requests cs)
callbacks-requests (message_delete i c ∷ cs) = ap (λ l. no_callback ∷ l) (callbacks-requests cs)

module _ ⦃k : Routers⦄ ⦃d : Dpp⦄ ⦃f : Fmt⦄ (conf : Config) (clock : ℕ → Text) (c : Compiler)
    (prefix : Text) (me : User) where
  abbrev pub program : Cluster
  program = main conf clock c prefix me

  -- The program after some events, with the callbacks that wait for the ends of its calls.
  pub data Running : Run → List Callback → Type 0 where
    boots : Running booted []
    receives :
        {r r' : Run} {ws : List Callback} (event : Event) (new : List Call)
        → from_outside event ≡ true
        → Running r ws
        → deliver conf clock program event r ≡ some r'
        → r'.calls ≡ r.calls ++ new
        → Running r' (ws ++ callbacks new)
    hears :
        {r r' : Run} (before after : List Callback) (cb : Callback) (how : Completion)
        (new : List Call)
        → Running r (before ++ cb ∷ after)
        → deliver conf clock program (call_ended cb how) r ≡ some r'
        → r'.calls ≡ r.calls ++ new
        → Running r' ((before ++ after) ++ callbacks new)

  -- What a delivered event has done.
  record Handled (event : Event) (new : List Call) (r r' : Run) : Type 0 where
    cs : List Call
    done : handles c prefix me event r.bot ≡ some (r'.bot, cs)
    waits : callbacks cs ≡ callbacks new

  outcome-Handled :
      (o : Option (Bot × List Call)) (new : List Call) (r r' : Run)
      → outcome conf clock o r ≡ some r'
      → r'.calls ≡ r.calls ++ new
      → (cs : List Call) × (o ≡ some (r'.bot, cs)) × (callbacks cs ≡ callbacks new)
  outcome-Handled none new r r' e same = cc
  outcome-Handled (some (s, cs)) new r r' e same =
      let bot : r'.bot ≡ s = ground arith in
      let calls : r.calls ++ requests cs ≡ r.calls ++ new = ground arith in
      (
        cs,
        rw bot,
        sym (callbacks-requests cs) ∙ ap callbacks (append_cancel_left r.calls _ new calls),
      )

  deliver-Handled :
      (event : Event) (new : List Call) (r r' : Run)
      → deliver conf clock program event r ≡ some r'
      → r'.calls ≡ r.calls ++ new
      → Handled event new r r'
  deliver-Handled event new r r' e same =
      let (cs, done, waits) =
        outcome-Handled (handles c prefix me event r.bot) new r r'
          (sym (main_delivers conf clock c prefix me event r) ∙ e) same in
      record { cs = cs; done = done; waits = waits }

  -- An event that is only logged.
  only_logged :
      (l : LogLine) (event : Event) (new : List Call) (r r' : Run) (ws : List Callback)
      → handles c prefix me event r.bot ≡ some (r.bot, log l ∷ [])
      → Handled event new r r'
      → Reachable c prefix r.bot ws
      → Reachable c prefix r'.bot (ws ++ callbacks new)
  only_logged l event new r r' ws logs h reached =
      let bot : r'.bot ≡ r.bot = ground (arith, logs, h.done) in
      let calls : h.cs ≡ log l ∷ [] = ground (arith, logs, h.done) in
      let none' : callbacks new ≡ [] = sym h.waits ∙ ap callbacks calls in
      rw (bot, none', append-nil ws) reached

  received :
      (event : Event) (new : List Call) (r r' : Run) (ws : List Callback)
      → from_outside event ≡ true
      → Handled event new r r'
      → Reachable c prefix r.bot ws
      → Reachable c prefix r'.bot (ws ++ callbacks new)
  received (ready e) new r r' ws outside h reached =
      only_logged _ (ready e) new r r' ws refl h reached
  received (logged e) new r r' ws outside h reached =
      only_logged _ (logged e) new r r' ws refl h reached
  received (message_created msg) new r r' ws outside h reached =
      subst (λ (vs : List Callback). Reachable c prefix r'.bot (ws ++ vs)) h.waits
        (steps reached (message_arrives msg h.done))
  received (button_clicked click) new r r' ws outside h reached =
      subst (λ (vs : List Callback). Reachable c prefix r'.bot (ws ++ vs)) h.waits
        (steps reached (World.button_clicked click h.done))
  received (call_ended cb how) new r r' ws outside h reached = absurd (ground arith)

  -- Let the program that `main` sets up receive log-ins, log events, messages, clicks and the ends
  -- of calls that it made and that have not ended, each delivered with success, in whatever order:
  -- the state of the bot and the callbacks that wait are those of a state that World can reach.
  pub Running-Reachable :
      {r : Run} {ws : List Callback} → Running r ws → Reachable c prefix r.bot ws
  Running-Reachable boots = starts
  Running-Reachable {r = r'} (receives {r = r} {ws = ws} event new outside running e same) =
      received event new r r' ws outside (deliver-Handled event new r r' e same)
        (Running-Reachable running)
  Running-Reachable {r = r'} (hears {r = r} before after cb how new running e same) =
      let h = deliver-Handled (call_ended cb how) new r r' e same in
      subst (λ (vs : List Callback). Reachable c prefix r'.bot ((before ++ after) ++ vs)) h.waits
        (steps (Running-Reachable running) (call_ends before after cb how h.done))
