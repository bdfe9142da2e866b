-- ===== src/World/Counter.antt =====
-- How far the counter of `UniqueID` can go: every event raises it by the ids of one board at most.
use tintemp_plus_plus.Base.{ℕ, ◌≤◌, ◌+◌, ◌*◌, List, [], ◌∷◌, All, arith}
use tintemp_plus_plus.Text.{Text}
use tintemp_plus_plus.Dpp.{Dpp}
use tintemp_plus_plus.ConfirmButton.{Compiler}
use tintemp_plus_plus.Registry.{Entry, Bot}
use tintemp_plus_plus.Registry.Uids.{Between, Between-wider, Numbered, Numbered-le}
use tintemp_plus_plus.Bot.{Callback}
use tintemp_plus_plus.World.{Reachable, starts, steps}
use tintemp_plus_plus.World.Invariant.{Step-Goes, Reachable-Inv}

module _ ⦃d : Dpp⦄ (c : Compiler) (prefix : Text) where
  -- The number of events that led to a state.
  abbrev pub events : {s : Bot} {ws : List Callback} → Reachable c prefix s ws → ℕ
  events starts = 0
  events (steps r st) = events r + 1

  Reachable-Raises :
      {s : Bot} {ws : List Callback} (r : Reachable c prefix s ws) → s.next_id ≤ 9 * events r
  Reachable-Raises starts = omega arith
  Reachable-Raises (steps r st) =
      omega (arith, Reachable-Raises r, (Step-Goes c prefix st (Reachable-Inv c prefix r)).1)

Between-All-wider :
    (lo lo' : ℕ) (es : List Entry) (hi : ℕ)
    → lo' ≤ lo
    → All (λ e. Between lo e hi) es
    → All (λ e. Between lo' e hi) es
Between-All-wider lo lo' [] hi low h = tt
Between-All-wider lo lo' (e ∷ es) hi low (b, h) =
    (Between-wider lo lo' e hi hi low (omega arith) b, Between-All-wider lo lo' es hi low h)

-- The numbers of a list lie between its two ends.
Numbered-Between :
    (lo : ℕ) (es : List Entry) (hi : ℕ) → Numbered lo es hi → All (λ e. Between lo e hi) es
Numbered-Between lo [] hi h = tt
Numbered-Between lo (e ∷ es) hi (mid, b, h) = (
  Between-wider lo lo e mid hi (omega arith) (Numbered-le mid es hi h) b,
  Between-All-wider mid lo es hi (omega (arith, b.uid_low, b.uid_high))
      (Numbered-Between mid es hi h),
)

-- Whatever messages, clicks and ends of calls arrive, in whatever order, the counter of `UniqueID`
-- is at most nine times the number of these events, and every game in the list has its numbers
-- above 0 and up to the counter and shows them in the ids of its confirmation buttons.
pub Reachable-next_id :
    ⦃d : Dpp⦄ (c : Compiler) (prefix : Text) {s : Bot} {ws : List Callback}
    (r : Reachable c prefix s ws)
    → (s.next_id ≤ 9 * events c prefix r) × All (λ e. Between 0 e s.next_id) s.ttt_list_g
Reachable-next_id c prefix {s} r = (
  Reachable-Raises c prefix r,
  Numbered-Between 0 s.ttt_list_g s.next_id (Reachable-Inv c prefix r),
)
