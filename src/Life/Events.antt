-- ===== src/Life/Events.antt =====
-- Every event changes each game of the list only as its life allows.
use tintemp_plus_plus.Base.{ℕ, ◌≡◌, ◌≢◌, none, some, List, All, arith}
use tintemp_plus_plus.Text.{Text}
use tintemp_plus_plus.Dpp.{Dpp, ButtonClick}
use tintemp_plus_plus.ConfirmButton.{Compiler}
use tintemp_plus_plus.Registry.{Entry, Bot, push_onto_list}
use tintemp_plus_plus.Bot.{Call, Callback, Loop}
use tintemp_plus_plus.Confirm
use tintemp_plus_plus.Interaction
use tintemp_plus_plus.Commands.Relates.{on_message_create-Relates, on_button_click-Relates}
use tintemp_plus_plus.World.{
  Step, message_arrives, button_clicked, call_ends, Reachable, starts, steps,
}
use tintemp_plus_plus.Life.{Life, born}
use tintemp_plus_plus.Life.Rounds.{LoopHas, append-All}
use tintemp_plus_plus.Life.Clicks.{confirm_loop-Life, board_loop-Life}
use tintemp_plus_plus.Life.Callbacks.{Lives, complete-KeepsLives}

list-LoopHas :
    ⦃d : Dpp⦄ (es : List Entry) (n : ℕ) (cs : List Call) (l : Loop)
    → LoopHas Life l
    → l ≡ some (es, n, cs)
    → All Life es
list-LoopHas es n cs none h e = cc
list-LoopHas es n cs (some (fs, m, ds)) h e = let same : es ≡ fs = ground arith in rw same h

module _ ⦃d : Dpp⦄ where
  -- What a handler does to the lives of the games; the number of `Relates` is of no use here.
  abbrev Keeps : ℕ → Bot → Bot → Type 0
  Keeps k s t = Lives s → Lives t

  confirms-Keeps :
      (click : ButtonClick) (s : Bot) (es : List Entry) (n : ℕ) (cs : List Call)
      → Confirm.visit_all click s.ttt_list_g s.next_id ≡ some (es, n, cs)
      → Keeps 0 s (record { next_id = n; ttt_list_g = es })
  confirms-Keeps click s es n cs done i =
      list-LoopHas es n cs _ (confirm_loop-Life click s.ttt_list_g s.next_id i) done

  plays-Keeps :
      (click : ButtonClick) (s : Bot) (es : List Entry) (n : ℕ) (cs : List Call)
      → Interaction.visit_all click s.ttt_list_g s.next_id ≡ some (es, n, cs)
      → Keeps 0 s (record { next_id = n; ttt_list_g = es })
  plays-Keeps click s es n cs done i =
      list-LoopHas es n cs _ (board_loop-Life click s.ttt_list_g s.next_id i) done

  module _ (c : Compiler) (prefix : Text) where
    pushes-Keeps : (p1 p2 : ℕ) (s : Bot) → p1 ≢ p2 → Keeps 3 s (push_onto_list c p1 p2 s).1
    unfolding push_onto_list
    pushes-Keeps p1 p2 s differ i = append-All Life s.ttt_list_g _ i (born c p1 p2 s.next_id differ)

    Step-Lives : {s t : Bot} {ws vs : List Callback} → Step c prefix s ws t vs → Lives s → Lives t
    Step-Lives {s} {t} (message_arrives msg e) =
        on_message_create-Relates Keeps (λ k u i. i) (λ j k u v w f g i. g (f i)) c pushes-Keeps
          prefix msg s t _ e
    Step-Lives {s} {t} (button_clicked click e) =
        on_button_click-Relates Keeps (λ k u i. i) (λ j k u v w f g i. g (f i)) 0 0 click
          (confirms-Keeps click) (plays-Keeps click) s t _ e
    Step-Lives {s} {t} (call_ends before after cb how e) = complete-KeepsLives cb how s t _ e

    -- Every game in the list of a reachable state has a life.
    pub Reachable-Lives : {s : Bot} {ws : List Callback} → Reachable c prefix s ws → Lives s
    Reachable-Lives starts = tt
    Reachable-Lives (steps r st) = Step-Lives st (Reachable-Lives r)
