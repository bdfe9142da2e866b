-- ===== src/Life/Clicks.antt =====
-- The clicks change each game of the list only as its life allows.
use tintemp_plus_plus.Base.{
  ℕ, ◌≡◌, true, ◌==◌, if◌then◌else◌, List, [], ◌∷◌, All, arith, Bool-cases, Option-cases, inl, inr,
}
use tintemp_plus_plus.Text.{text_eq}
use tintemp_plus_plus.Dpp.{Dpp, ButtonClick}
use tintemp_plus_plus.Ttt.{set_origin_embed}
use tintemp_plus_plus.Registry.{Entry}
use tintemp_plus_plus.Bot.{Visit, goes_on, returns, undefined}
use tintemp_plus_plus.Confirm.{
  confirm, own_confm, other_confm, start_embed, cancelled_embed, first_confirmed, both_confirmed,
  answered_yes, declined, answered_no, then_no, player_of,
}
use tintemp_plus_plus.Confirm
use tintemp_plus_plus.Interaction.{press_board, end_turn, right_player, wrong_player}
use tintemp_plus_plus.Interaction
use tintemp_plus_plus.Life.{Life, answered, edited, began, marked, swapped}
use tintemp_plus_plus.Life.Rounds.{VisitHas, LoopHas, add_calls-VisitHas, resume-LoopHas}

both_flags :
    (player : ℕ) (e : Entry)
    → other_confm player (confirm player e).second.st ≡ true
    → ((confirm player e).second.st.is_player_1_confm ≡ true)
      × ((confirm player e).second.st.is_player_2_confm ≡ true)
unfolding confirm
both_flags player e h = ground arith

module _ ⦃d : Dpp⦄ where
  both_confirmed-Life :
      (e : Entry) (n : ℕ)
      → (e.second.st.is_player_1_confm ≡ true) × (e.second.st.is_player_2_confm ≡ true)
      → Life e
      → VisitHas Life (both_confirmed e n)
  unfolding both_confirmed
  both_confirmed-Life e n flags l = elim (Option-cases (set_origin_embed e.first (start_embed e))) [
    | inl fault ↦ rw (fault, both_confirmed) tt
    | inr (t, done) ↦
        rw (done, both_confirmed) (began n (edited (start_embed e) t l done) flags.0 flags.1)
  ]

  declined-Life : (player : ℕ) (e : Entry) (n : ℕ) → Life e → VisitHas Life (declined player e n)
  unfolding declined
  declined-Life player e n l =
      elim (Option-cases (set_origin_embed e.first (cancelled_embed player e))) [
        | inl fault ↦ rw (fault, declined) tt
        | inr (t, done) ↦ rw (done, declined) (edited (cancelled_embed player e) t l done)
      ]

  answered_yes-Life :
      (player : ℕ) (e : Entry) (n : ℕ) → Life e → VisitHas Life (answered_yes player e n)
  unfolding answered_yes first_confirmed
  answered_yes-Life player e n l = elim (Bool-cases (own_confm player e.second.st)) [
    | inl old ↦ rw old l
    | inr new ↦ elim (Bool-cases (other_confm player (confirm player e).second.st)) [
      | inl both ↦
          rw (new, both)
            (both_confirmed-Life (confirm player e) n (both_flags player e both)
              (answered player l))
      | inr first ↦ rw (new, first) (answered player l)
    ]
  ]

  answered_no-Life :
      (player : ℕ) (e : Entry) (n : ℕ) → Life e → VisitHas Life (answered_no player e n)
  unfolding answered_no
  answered_no-Life player e n l = elim (Bool-cases (own_confm player e.second.st)) [
    | inl old ↦ rw old l
    | inr new ↦ rw new (declined-Life player (confirm player e) n (answered player l))
  ]

  then_no-Life :
      (click : ButtonClick) (player : ℕ) (v : Visit)
      → VisitHas Life v
      → VisitHas Life (then_no click player v)
  unfolding then_no
  then_no-Life click player (goes_on e n cs) l =
      elim (Bool-cases (text_eq click.custom_id e.second.btn_id.1)) [
        | inl no' ↦ rw no' (add_calls-VisitHas Life cs _ (answered_no-Life player e n l))
        | inr other ↦ rw other l
      ]
  then_no-Life click player (returns e n cs) l = l
  then_no-Life click player undefined l = l

  yes-Life :
      (click : ButtonClick) (player : ℕ) (e : Entry) (n : ℕ)
      → Life e
      → VisitHas Life (
          if text_eq click.custom_id e.second.btn_id.0
          then answered_yes player e n
          else goes_on e n [])
  yes-Life click player e n l = elim (Bool-cases (text_eq click.custom_id e.second.btn_id.0)) [
    | inl yes' ↦ rw yes' (answered_yes-Life player e n l)
    | inr other ↦ rw other l
  ]

  confirm_visit-Life :
      (click : ButtonClick) (e : Entry) (n : ℕ) → Life e → VisitHas Life (Confirm.visit click e n)
  unfolding Confirm.visit
  confirm_visit-Life click e n l =
      elim (Bool-cases (player_of click.command.usr.id e.second == 0)) [
        | inl stranger ↦ rw stranger l
        | inr player ↦ rw player (then_no-Life click _ _ (yes-Life click _ e n l))
      ]

  pub confirm_loop-Life :
      (click : ButtonClick) (es : List Entry) (n : ℕ)
      → All Life es
      → LoopHas Life (Confirm.visit_all click es n)
  unfolding Confirm.visit_all
  confirm_loop-Life click [] n ls = tt
  confirm_loop-Life click (e ∷ es) n (l, ls) =
      resume-LoopHas Life (Confirm.visit click e n) es (λ m. Confirm.visit_all click es m)
        (confirm_visit-Life click e n l) ls (λ m. confirm_loop-Life click es m ls)

  right_player-Life :
      (click : ButtonClick) (e : Entry) (n : ℕ) → Life e → VisitHas Life (right_player click e n)
  unfolding right_player end_turn
  right_player-Life click e n l =
      elim (Bool-cases (press_board click.custom_id e.first.turn.1 e.first.board).is_interrupted) [
        | inl taken ↦ rw taken (marked click.custom_id l)
        | inr free ↦ rw free (swapped (marked click.custom_id l))
      ]

  board_visit-Life :
      (click : ButtonClick) (e : Entry) (n : ℕ)
      → Life e
      → VisitHas Life (Interaction.visit click e n)
  unfolding Interaction.visit wrong_player
  board_visit-Life click e n l = elim (Bool-cases (click.command.message_id == e.first.game.id)) [
    | inl here ↦ elim (Bool-cases (click.command.usr.id == e.first.turn.0)) [
      | inl right ↦ rw (here, right) (right_player-Life click e n l)
      | inr wrong ↦ rw (here, wrong) l
    ]
    | inr elsewhere ↦ rw elsewhere l
  ]

  pub board_loop-Life :
      (click : ButtonClick) (es : List Entry) (n : ℕ)
      → All Life es
      → LoopHas Life (Interaction.visit_all click es n)
  unfolding Interaction.visit_all
  board_loop-Life click [] n ls = tt
  board_loop-Life click (e ∷ es) n (l, ls) =
      resume-LoopHas Life (Interaction.visit click e n) es (λ m. Interaction.visit_all click es m)
        (board_visit-Life click e n l) ls (λ m. board_loop-Life click es m ls)
