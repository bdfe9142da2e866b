-- ===== src/Commands/Discreet/Clicks.antt =====
-- Which answers to a click the other users of the channel see: `on_ttt_interaction`, and the two
-- handlers together.
use tintemp_plus_plus.Base.{
  ℕ, ◌≡◌, subst, ◌==◌, ◌||◌, List, [], ◌∷◌, Option, some, none, Bool-cases, Option-cases, inl, inr,
}
use tintemp_plus_plus.Text.{Text, text_eq}
use tintemp_plus_plus.Dpp.{Dpp, ButtonClick}
use tintemp_plus_plus.Board.{Ix, i0, i1, i2, Board, at, idle, status_at}
use tintemp_plus_plus.Logger.{info}
use tintemp_plus_plus.Registry.{Entry, Bot}
use tintemp_plus_plus.Bot.{Call, LogLine, bot_line, Loop, entered, run_loop}
use tintemp_plus_plus.Confirm.{confirm_text, on_confirm_click}
use tintemp_plus_plus.Confirm
use tintemp_plus_plus.Interaction.{
  Press, press_square, press_row, press_board, end_turn, right_player, wrong_player, edited_square,
  interaction_text, on_ttt_interaction,
}
use tintemp_plus_plus.Interaction
use tintemp_plus_plus.Commands.{Handler, logged, pressed_text, then_handle, on_button_click}
use tintemp_plus_plus.Commands.Discreet.{
  AllDiscreet, append-AllDiscreet, already_taken-IsDiscreet, not_your_turn-IsDiscreet, IsQuiet,
  IsQuietLoop, resume-IsQuietLoop, confirm_loop-IsQuietLoop,
}

module _ ⦃d : Dpp⦄ where
  press_square-AllDiscreet :
      (custom_id : Text) (mark : ℕ) (i k : Ix) (p : Press)
      → AllDiscreet p.calls
      → AllDiscreet (press_square custom_id mark i k p).calls
  unfolding press_square edited_square
  press_square-AllDiscreet custom_id mark i k p h =
      elim (Bool-cases (text_eq custom_id (at p.board i k).id)) [
        | inl here ↦ elim (Bool-cases (status_at p.board i k == idle)) [
          | inl free ↦ rw (here, free) (append-AllDiscreet p.calls _ h (tt, tt))
          | inr taken ↦
              rw (here, taken) (append-AllDiscreet p.calls _ h (already_taken-IsDiscreet, tt))
        ]
        | inr other ↦ rw other h
      ]

  press_row-AllDiscreet :
      (custom_id : Text) (mark : ℕ) (i : Ix) (p : Press)
      → AllDiscreet p.calls
      → AllDiscreet (press_row custom_id mark i p).calls
  unfolding press_row
  press_row-AllDiscreet custom_id mark i p h = press_square-AllDiscreet custom_id mark i i2 _ (
      press_square-AllDiscreet custom_id mark i i1 _
        (press_square-AllDiscreet custom_id mark i i0 p h))

  press_board-AllDiscreet :
      (custom_id : Text) (mark : ℕ) (b : Board) → AllDiscreet (press_board custom_id mark b).calls
  unfolding press_board
  press_board-AllDiscreet custom_id mark b =
      press_row-AllDiscreet custom_id mark i2 _
        (press_row-AllDiscreet custom_id mark i1 _ (press_row-AllDiscreet custom_id mark i0 _ tt))

  right_player-IsQuiet :
      (click : ButtonClick) (e : Entry) (n : ℕ) → IsQuiet (right_player click e n)
  unfolding right_player end_turn
  right_player-IsQuiet click e n =
      let pressed = press_board-AllDiscreet click.custom_id e.first.turn.1 e.first.board in
      elim (Bool-cases (press_board click.custom_id e.first.turn.1 e.first.board).is_interrupted) [
        | inl stopped ↦ rw stopped pressed
        | inr going ↦ rw going (append-AllDiscreet _ _ pressed (tt, tt))
      ]

  wrong_player-IsQuiet :
      (click : ButtonClick) (e : Entry) (n : ℕ) → IsQuiet (wrong_player click e n)
  unfolding wrong_player
  wrong_player-IsQuiet click e n =
      elim (Bool-cases (
        (click.command.usr.id == e.first.player_1) || (click.command.usr.id == e.first.player_2))) [
          | inl plays ↦ rw plays (not_your_turn-IsDiscreet, tt)
          | inr other ↦ rw other tt
        ]

  board_visit-IsQuiet :
      (click : ButtonClick) (e : Entry) (n : ℕ) → IsQuiet (Interaction.visit click e n)
  unfolding Interaction.visit
  board_visit-IsQuiet click e n = elim (Bool-cases (click.command.message_id == e.first.game.id)) [
    | inl here ↦ elim (Bool-cases (click.command.usr.id == e.first.turn.0)) [
      | inl moves ↦ rw (here, moves) (right_player-IsQuiet click e n)
      | inr waits ↦ rw (here, waits) (wrong_player-IsQuiet click e n)
    ]
    | inr elsewhere ↦ rw elsewhere tt
  ]

  board_loop-IsQuietLoop :
      (click : ButtonClick) (es : List Entry) (n : ℕ)
      → IsQuietLoop (Interaction.visit_all click es n)
  unfolding Interaction.visit_all
  board_loop-IsQuietLoop click [] n = tt
  board_loop-IsQuietLoop click (e ∷ es) n =
      resume-IsQuietLoop (Interaction.visit click e n) es (λ m. Interaction.visit_all click es m)
        (board_visit-IsQuiet click e n) (board_loop-IsQuietLoop click es)

  Handled : Option (Bot × List Call) → Type 0
  Handled none = Unit
  Handled (some (s, cs)) = AllDiscreet cs

  entered-AllDiscreet : (text : Text) (es : List Entry) → AllDiscreet (entered text es)
  entered-AllDiscreet text [] = tt
  entered-AllDiscreet text (e ∷ es) = (tt, tt)

  run_loop-Handled :
      (text : Text) (loop : List Entry → ℕ → Loop) (s : Bot)
      → IsQuietLoop (loop s.ttt_list_g s.next_id)
      → Handled (run_loop text loop s)
  unfolding run_loop Handled
  run_loop-Handled text loop s quiet = elim (Option-cases (loop s.ttt_list_g s.next_id)) [
    | inl fault ↦ rw (fault, run_loop) tt
    | inr ((es, n, cs), done) ↦
        rw (done, run_loop)
          (append-AllDiscreet (entered text s.ttt_list_g) cs (entered-AllDiscreet text s.ttt_list_g)
            (subst IsQuietLoop done quiet))
  ]

  logged-Handled : (l : LogLine) (f : Handler) (s : Bot) → Handled (f s) → Handled (logged l f s)
  unfolding logged Handled
  logged-Handled l f s h = elim (Option-cases (f s)) [
    | inl fault ↦ rw (fault, logged) tt
    | inr ((t, cs), done) ↦ rw (done, logged) (tt, subst Handled done h)
  ]

  confirm_click-Handled : (click : ButtonClick) (s : Bot) → Handled (on_confirm_click click s)
  unfolding on_confirm_click
  confirm_click-Handled click s =
      run_loop-Handled confirm_text (Confirm.visit_all click) s
        (confirm_loop-IsQuietLoop click s.ttt_list_g s.next_id)

  ttt_interaction-Handled : (click : ButtonClick) (s : Bot) → Handled (on_ttt_interaction click s)
  unfolding on_ttt_interaction
  ttt_interaction-Handled click s =
      run_loop-Handled interaction_text (Interaction.visit_all click) s
        (board_loop-IsQuietLoop click s.ttt_list_g s.next_id)

  then_handle-Handled :
      (f g : Handler) (s : Bot)
      → Handled (f s)
      → ((t : Bot) → Handled (g t))
      → Handled (then_handle f g s)
  unfolding then_handle Handled
  then_handle-Handled f g s h k = elim (Option-cases (f s)) [
    | inl fault ↦ rw (fault, then_handle) tt
    | inr ((t, cs), first) ↦ elim (Option-cases (g t)) [
      | inl fault ↦ rw (first, then_handle, fault) tt
      | inr ((u, ds), second) ↦
          rw (first, then_handle, second)
            (append-AllDiscreet cs ds (subst Handled first h) (subst Handled second (k t)))
    ]
  ]

  -- Whatever click is handled, of the calls that both handlers make of it each reply that sends a
  -- message of its own, and does not update the one that was clicked, is ephemeral, so that only
  -- the user who clicked sees it, or is the text that a user confirmed, "confirmed! *(1/2)*".
  pub on_button_click_discreet :
      (click : ButtonClick) (s t : Bot) (cs : List Call)
      → on_button_click click s ≡ some (t, cs)
      → AllDiscreet cs
  unfolding on_button_click Handled
  on_button_click_discreet click s t cs e = subst Handled e (
      logged-Handled (bot_line info (pressed_text click))
        (then_handle (on_confirm_click click) (on_ttt_interaction click)) s
        (then_handle-Handled (on_confirm_click click) (on_ttt_interaction click) s
          (confirm_click-Handled click s) (ttt_interaction-Handled click)))
