-- ===== src/Interaction/Keeps.antt =====
-- `on_ttt_interaction` keeps the numbers of the games.
use native.Mathlib.Nat.{le_refl}
use tintemp_plus_plus.Base.{ℕ, ◌≡◌, ◌∙◌, refl, List, [], ◌∷◌, ◌==◌, Bool-cases, inl, inr}
use tintemp_plus_plus.Dpp.{Dpp, ButtonClick}
use tintemp_plus_plus.Ttt.{Ttt}
use tintemp_plus_plus.Winner.{fetch_winner}
use tintemp_plus_plus.Winner.Result.{field-fetch_winner}
use tintemp_plus_plus.Game.{swap_turn}
use tintemp_plus_plus.Game.Turn.{field-swap_turn}
use tintemp_plus_plus.Registry.{Entry}
use tintemp_plus_plus.Registry.Uids.{SameNumbers-refl}
use tintemp_plus_plus.Bot.Keeps.{VisitKeeps, LoopKeeps, resume-Keeps}
use tintemp_plus_plus.Interaction.{
  press_board, end_turn, right_player, wrong_player, visit, visit_all,
}

uid-end : (t : Ttt) → (swap_turn (fetch_winner t)).uid ≡ t.uid
uid-end t =
    field-swap_turn (λ u. u.uid) (fetch_winner t) (λ u n m r. refl)
    ∙ field-fetch_winner (λ u. u.uid) t (λ u b r. refl)

module _ ⦃d : Dpp⦄ where
  right_player-Keeps :
      (click : ButtonClick) (e : Entry) (n : ℕ) → VisitKeeps e n (right_player click e n)
  unfolding right_player end_turn
  right_player-Keeps click e n =
      elim (Bool-cases (press_board click.custom_id e.first.turn.1 e.first.board).is_interrupted) [
        | inl taken ↦
            rw taken (record { same_uid = refl; same_id = refl; same_btn_id = refl }, le_refl n)
        | inr free ↦
            rw free (record { same_uid = uid-end _; same_id = refl; same_btn_id = refl }, le_refl n)
      ]

  visit-Keeps : (click : ButtonClick) (e : Entry) (n : ℕ) → VisitKeeps e n (visit click e n)
  unfolding visit wrong_player
  visit-Keeps click e n = elim (Bool-cases (click.command.message_id == e.first.game.id)) [
    | inl here ↦ elim (Bool-cases (click.command.usr.id == e.first.turn.0)) [
      | inl right ↦ rw (here, right) (right_player-Keeps click e n)
      | inr wrong ↦ rw (here, wrong) (SameNumbers-refl e, le_refl n)
    ]
    | inr elsewhere ↦ rw elsewhere (SameNumbers-refl e, le_refl n)
  ]

  pub visit_all-Keeps :
      (click : ButtonClick) (es : List Entry) (n : ℕ) → LoopKeeps es n (visit_all click es n)
  unfolding visit_all
  visit_all-Keeps click [] n = (tt, le_refl n)
  visit_all-Keeps click (e ∷ es) n =
      resume-Keeps e n (visit click e n) es (λ m. visit_all click es m) (visit-Keeps click e n)
        (λ m. visit_all-Keeps click es m)
