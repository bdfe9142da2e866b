-- ===== src/Examples/Programs.antt =====
-- The program of main.cpp with concrete events.
use tintemp_plus_plus.Base.{ℕ, ◌≡◌, refl, ap, ◌∙◌, Option, some, List, [], ◌∷◌, ◌++◌}
use tintemp_plus_plus.Text.{Text, codes}
use tintemp_plus_plus.Dpp.Plain.{plain}
use tintemp_plus_plus.Dpp.Router.Listed.{listed}
use tintemp_plus_plus.Registry.{Bot, initial}
use tintemp_plus_plus.Logger.{config}
use tintemp_plus_plus.Logger.Plain.{colourless}
use tintemp_plus_plus.Main.{Run, Event, message_created, main, deliver}
use tintemp_plus_plus.Main.Delivers.{handles, performed, outcome, main_delivers}
use tintemp_plus_plus.Main.Runs.{boots, receives, Running-Reachable}
use tintemp_plus_plus.World.{Reachable, callbacks}
use tintemp_plus_plus.Bot.{Call}
use tintemp_plus_plus.Commands.{challenge, game_lines}
use tintemp_plus_plus.Examples.Commands.{bid, bid_calls, bid_accepted, one_game}
use tintemp_plus_plus.Examples.{first_entry, left_to_right, bob, person, sent}

abbrev clock : ℕ → Text
clock n = codes "12:00" ++ 10 ∷ []

abbrev started_run : Run
started_run = record { bot = initial; calls = []; printed = [] }

-- Alice challenges Bob with "!ttt".
abbrev challenge_event : Event
challenge_event = message_created (sent (codes "!ttt @bob") (person bob ∷ []))

main_delivers_example :
    deliver config clock
      (main config clock left_to_right (codes "!") (person 99))
      challenge_event
      started_run
    ≡ outcome config clock
        (handles left_to_right (codes "!") (person 99) challenge_event initial)
        started_run
main_delivers_example =
    main_delivers config clock left_to_right (codes "!") (person 99) challenge_event started_run

-- What the program asks Discord for.
abbrev first_request : List Call
first_request = challenge bid first_entry ∷ []

abbrev challenged_run : Run
challenged_run = performed config clock bid_calls (record started_run { bot = one_game })

challenge_delivered :
    deliver config clock
      (main config clock left_to_right (b'!' ∷ []) (person 99))
      (message_created bid)
      started_run
    ≡ some challenged_run
challenge_delivered =
    main_delivers config clock left_to_right (b'!' ∷ []) (person 99) (message_created bid)
      started_run
    ∙ ap (λ (o : Option (Bot × List Call)). outcome config clock o started_run) bid_accepted

first_requested : challenged_run.calls ≡ first_request
unfolding challenge game_lines
first_requested = refl

Running-Reachable_example :
    Reachable left_to_right (b'!' ∷ []) one_game ([] ++ callbacks first_request)
Running-Reachable_example =
    Running-Reachable config clock left_to_right (b'!' ∷ []) (person 99)
      (receives (message_created bid) first_request refl boots challenge_delivered first_requested)
