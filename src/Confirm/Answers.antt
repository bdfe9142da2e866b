-- ===== src/Confirm/Answers.antt =====
-- The answers of the two players to a challenge.
use tintemp_plus_plus.Base.{
  ℕ, ◌≡◌, ◌≢◌, ◌⊎◌, sym, ◌∙◌, true, false, [], arith, ◌==◌, Bool-cases, inl, inr,
}
use tintemp_plus_plus.Text.{Text, text_eq}
use tintemp_plus_plus.Text.Append.{text_eq_iff, text_eq→eq}
use tintemp_plus_plus.Dpp.{Dpp, ButtonClick}
use tintemp_plus_plus.Registry.{Entry}
use tintemp_plus_plus.Registry.Uids.{yes_of, no_of}
use tintemp_plus_plus.Bot.{returns, add_calls}
use tintemp_plus_plus.Confirm.{player_of, own_confm, answered_yes, answered_no, then_no, visit}

-- The player who clicked, as the number that the code computes.
abbrev pub Presses : ButtonClick → Entry → ℕ → Type 0
Presses click e player = player_of click.command.usr.id e.second ≡ player

pub player_of_1 :
    (click : ButtonClick) (e : Entry)
    → e.second.player_1 ≢ e.second.player_2
    → click.command.usr.id ≡ e.second.player_1
    → Presses click e 1
unfolding player_of
player_of_1 click e distinct h = ground arith

pub player_of_2 :
    (click : ButtonClick) (e : Entry) → click.command.usr.id ≡ e.second.player_2 → Presses click e 2
unfolding player_of
player_of_2 click e h = ground arith

a_player : (player : ℕ) → player ≢ 0 → (player == 0) ≡ false
a_player player h = ground arith

pub text_eq_ne : (s t : Text) → s ≢ t → text_eq s t ≡ false
text_eq_ne s t differ = elim (Bool-cases (text_eq s t)) [
  | inl same ↦ absurd (differ (text_eq→eq s t same))
  | inr other ↦ other
]

module _ ⦃d : Dpp⦄ where
  -- A click of a player on the YES button.
  pub visit_yes :
      (click : ButtonClick) (e : Entry) (n player : ℕ)
      → Presses click e player
      → player ≢ 0
      → click.custom_id ≡ yes_of e
      → visit click e n ≡ then_no click player (answered_yes player e n)
  unfolding visit
  visit_yes click e n player plays some_player yes' =
      rw (plays, a_player player some_player, (text_eq_iff click.custom_id (yes_of e)).1 yes')

  -- A click of a player on the NO button.
  pub visit_no :
      (click : ButtonClick) (e : Entry) (n player : ℕ)
      → Presses click e player
      → player ≢ 0
      → yes_of e ≢ no_of e
      → click.custom_id ≡ no_of e
      → visit click e n ≡ add_calls [] (answered_no player e n)
  unfolding visit then_no
  visit_no click e n player plays some_player differ no' = rw (
    plays,
    a_player player some_player,
    text_eq_ne click.custom_id (yes_of e) (λ same. differ (sym same ∙ no')),
    (text_eq_iff click.custom_id (no_of e)).1 no',
  )

  -- After a player of a challenge with two different buttons has answered, further clicks of that
  -- player on either button of the challenge change nothing, are not answered, and end the handler.
  pub answers_once :
      (click : ButtonClick) (e : Entry) (n player : ℕ)
      → Presses click e player
      → player ≢ 0
      → yes_of e ≢ no_of e
      → (click.custom_id ≡ yes_of e) ⊎ (click.custom_id ≡ no_of e)
      → own_confm player e.second.st ≡ true
      → visit click e n ≡ returns e n []
  unfolding then_no answered_yes answered_no add_calls
  answers_once click e n player plays some_player differ (inl yes') done =
      visit_yes click e n player plays some_player yes' ∙ rw done
  answers_once click e n player plays some_player differ (inr no') done =
      visit_no click e n player plays some_player differ no' ∙ rw done
