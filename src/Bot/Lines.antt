-- ===== src/Bot/Lines.antt =====
-- Handlers and callbacks with the lines that they write to the log.
use tintemp_plus_plus.Base.{◌≡◌, ◌↔◌, refl, Option, none, some, List, [], ◌∷◌, ◌++◌, arith}
use tintemp_plus_plus.Text.{Text}
use tintemp_plus_plus.Registry.{Entry, Bot}
use tintemp_plus_plus.Bot.{Call, LogLine, entry_line, entered, with_lines}

-- Lines of the log change nothing in the state.
pub state-with_lines :
    (ls : List LogLine) (o : Option (Bot × List Call)) (s : Bot) (cs : List Call)
    → with_lines ls o ≡ some (s, cs)
    → (ds : List Call) × (o ≡ some (s, ds))
state-with_lines ls none s cs e = cc
state-with_lines ls (some (t, ds)) s cs e = (ds, ground arith)

-- Nor do they change whether a handler is defined.
pub with_lines-none :
    (ls : List LogLine) (o : Option (Bot × List Call)) → (with_lines ls o ≡ none) ↔ (o ≡ none)
with_lines-none ls none = (λ e. refl, λ e. refl)
with_lines-none ls (some (t, ds)) = (λ e. cc, λ e. cc)

-- A list with a game is entered.
pub entered_one :
    (text : Text) (before : List Entry) (e : Entry) (after : List Entry)
    → entered text (before ++ e ∷ after) ≡ entry_line text ∷ []
entered_one text [] e after = refl
entered_one text (x ∷ before) e after = refl
