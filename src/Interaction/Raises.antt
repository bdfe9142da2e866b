-- ===== src/Interaction/Raises.antt =====
-- `on_ttt_interaction` leaves the counter of `UniqueID` as it is.
use tintemp_plus_plus.Base.{ℕ, List, [], ◌∷◌, ◌==◌, arith, Bool-cases, inl, inr}
use tintemp_plus_plus.Dpp.{Dpp, ButtonClick}
use tintemp_plus_plus.Registry.{Entry}
use tintemp_plus_plus.Bot.Raises.{VisitRaises, LoopRaises, resume-Raises}
use tintemp_plus_plus.Interaction.{
  press_board, end_turn, right_player, wrong_player, visit, visit_all,
}

module _ ⦃d : Dpp⦄ where
  right_player-Raises :
      (click : ButtonClick) (e : Entry) (n : ℕ) → VisitRaises 0 n (right_player click e n)
  unfolding right_player end_turn
  right_player-Raises click e n =
      elim (Bool-cases (press_board click.custom_id e.first.turn.1 e.first.board).is_interrupted) [
        | inl taken ↦ rw taken (omega arith)
        | inr free ↦ rw free (omega arith)
      ]

  visit-Raises : (click : ButtonClick) (e : Entry) (n : ℕ) → VisitRaises 0 n (visit click e n)
  unfolding visit wrong_player
  visit-Raises click e n = elim (Bool-cases (click.command.message_id == e.first.game.id)) [
    | inl here ↦ elim (Bool-cases (click.command.usr.id == e.first.turn.0)) [
      | inl right ↦ rw (here, right) (right_player-Raises click e n)
      | inr wrong ↦ rw (here, wrong) (omega arith)
    ]
    | inr elsewhere ↦ rw elsewhere (omega arith)
  ]

  pub visit_all-Raises :
      (click : ButtonClick) (es : List Entry) (n : ℕ) → LoopRaises 0 n (visit_all click es n)
  unfolding visit_all
  visit_all-Raises click [] n = omega arith
  visit_all-Raises click (e ∷ es) n =
      resume-Raises 0 0 n (visit click e n) es (λ m. visit_all click es m) (visit-Raises click e n)
        (λ m. visit_all-Raises click es m)
