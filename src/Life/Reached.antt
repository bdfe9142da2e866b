-- ===== src/Life/Reached.antt =====
-- Every game of a reachable state is sane.
use tintemp_plus_plus.Base.{List, [], ◌∷◌, All}
use tintemp_plus_plus.Text.{Text}
use tintemp_plus_plus.Dpp.{Dpp}
use tintemp_plus_plus.ConfirmButton.{Compiler}
use tintemp_plus_plus.Registry.{Entry, Bot}
use tintemp_plus_plus.Bot.{Callback}
use tintemp_plus_plus.World.{Reachable}
use tintemp_plus_plus.Life.{Life}
use tintemp_plus_plus.Life.Events.{Reachable-Lives}
use tintemp_plus_plus.Life.Sane.{IsSane, Life-IsSane}

module _ ⦃d : Dpp⦄ where
  each_game-IsSane : (es : List Entry) → All Life es → All (λ e. IsSane e.first) es
  each_game-IsSane [] ls = tt
  each_game-IsSane (e ∷ es) (l, ls) = (Life-IsSane l, each_game-IsSane es ls)

  -- Whatever messages, clicks and ends of calls arrive, in whatever order, every game in the list
  -- is between two different players, shows only the statuses idle, X and O on its squares and in
  -- `turn`, has one of its players or nobody (0) to move, is never expired, is in progress only up
  -- to eight turns, and is a draw only after at least nine.
  pub Reachable-IsSane :
      (c : Compiler) (prefix : Text) {s : Bot} {ws : List Callback}
      → Reachable c prefix s ws
      → All (λ e. IsSane e.first) s.ttt_list_g
  Reachable-IsSane c prefix {s} r = each_game-IsSane s.ttt_list_g (Reachable-Lives c prefix r)
