-- ===== src/Confirm/Starts/Clicks.antt =====
-- What each of the two answers to a challenge does to its game.
use tintemp_plus_plus.Base.{ℕ, ◌≡◌, ◌≢◌, ◌⊎◌, refl, sym, ap, ◌∙◌, true, false, [], some}
use tintemp_plus_plus.Dpp.{Dpp, ButtonClick}
use tintemp_plus_plus.Board.{init_board, x_mark}
use tintemp_plus_plus.Ttt.{Ttt}
use tintemp_plus_plus.Game.{init_game}
use tintemp_plus_plus.Registry.{Entry}
use tintemp_plus_plus.Registry.Uids.{yes_of, no_of}
use tintemp_plus_plus.Bot.{add_calls}
use tintemp_plus_plus.Confirm.{
  confirm, own_confm, other_confm, answered_yes, answered_no, both_confirmed, declined,
  first_confirmed, then_no, visit, start_embed, cancelled_embed,
}
use tintemp_plus_plus.Confirm.Answers.{Presses, visit_yes, visit_no, text_eq_ne}
use tintemp_plus_plus.Confirm.FirstAnswer.{a_number, after, confirm_btn_id, other_confirm}
use tintemp_plus_plus.Ttt.Embeds.{embedded, set_origin_embed_lem}

module _ ⦃d : Dpp⦄ where
  pub first_yes :
      (click : ButtonClick) (e : Entry) (n player : ℕ)
      → Presses click e player
      → (player ≡ 1) ⊎ (player ≡ 2)
      → yes_of e ≢ no_of e
      → click.custom_id ≡ yes_of e
      → own_confm player e.second.st ≡ false
      → other_confm player e.second.st ≡ false
      → after (visit click e n) ≡ some (confirm player e, n)
  unfolding answered_yes first_confirmed then_no
  first_yes click e n player plays which differ yes' own others =
      ap after (visit_yes click e n player plays (a_number player which) yes')
      ∙ rw (
        own,
        other_confirm player e which others,
        confirm_btn_id player e,
        text_eq_ne click.custom_id (no_of e) (λ same. differ (sym yes' ∙ same)),
      )

  pub first_no :
      (click : ButtonClick) (e : Entry) (n player : ℕ)
      → Presses click e player
      → (player ≡ 1) ⊎ (player ≡ 2)
      → yes_of e ≢ no_of e
      → click.custom_id ≡ no_of e
      → own_confm player e.second.st ≡ false
      → (some_embed : (confirm player e).first.origin.embeds ≢ [])
      → after (visit click e n)
        ≡ some (
          record (confirm player e) {
            first =
                embedded
                  (confirm player e).first
                  (cancelled_embed player (confirm player e))
                  some_embed;
          },
          n,
        )
  unfolding answered_no declined add_calls
  first_no click e n player plays which differ no' own some_embed =
      ap after (visit_no click e n player plays (a_number player which) differ no')
      ∙ rw (
        own,
        set_origin_embed_lem (confirm player e).first (cancelled_embed player (confirm player e))
            some_embed,
        declined,
      )

  pub second_yes :
      (click : ButtonClick) (e : Entry) (n player : ℕ)
      → Presses click e player
      → (player ≡ 1) ⊎ (player ≡ 2)
      → yes_of e ≢ no_of e
      → click.custom_id ≡ yes_of e
      → own_confm player e.second.st ≡ false
      → other_confm player (confirm player e).second.st ≡ true
      → (some_embed : (confirm player e).first.origin.embeds ≢ [])
      → after (visit click e n)
        ≡ some (
          record (confirm player e) {
            first =
                (init_game
                  (embedded (confirm player e).first (start_embed (confirm player e)) some_embed)
                  n).0;
          },
          (init_board n).1,
        )
  unfolding answered_yes both_confirmed then_no init_game
  second_yes click e n player plays which differ yes' own others some_embed =
      ap after (visit_yes click e n player plays (a_number player which) yes')
      ∙ rw (
        own,
        others,
        set_origin_embed_lem (confirm player e).first (start_embed (confirm player e)) some_embed,
        both_confirmed,
        confirm_btn_id player e,
        text_eq_ne click.custom_id (no_of e) (λ same. differ (sym yes' ∙ same)),
      )

  pub init_game_start :
      (t : Ttt) (n : ℕ)
      → ((init_game t n).0.board ≡ (init_board n).0)
        × ((init_game t n).0.turn ≡ (t.player_1, x_mark))
  unfolding init_game
  init_game_start t n = (refl, refl)
