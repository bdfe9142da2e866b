-- ===== src/Confirm/Yes.antt =====
-- `on_confirm_click` for a click of a player on the YES button of one of the listed games.
use tintemp_plus_plus.Base.{
  ℕ, ◌≡◌, ◌≢◌, ◌⊎◌, refl, sym, ap, ◌∙◌, true, false, not, if◌then◌else◌, ◌==◌, List, [], ◌∷◌, ◌++◌,
  some, inl, inr, Bool-cases, All,
}
use tintemp_plus_plus.Text.{codes, Text}
use tintemp_plus_plus.Dpp.{
  Dpp, ButtonClick, Embed, ir_channel_message_with_source, ir_update_message,
}
use tintemp_plus_plus.Board.{init_board, x_mark}
use tintemp_plus_plus.Ttt.{Ttt, set_origin_embed}
use tintemp_plus_plus.Ttt.Embeds.{embedded, embedded_lem, field-embedded, set_origin_embed_lem}
use tintemp_plus_plus.Game.{init_game}
use tintemp_plus_plus.Render.{mention}
use tintemp_plus_plus.Registry.{Entry, Bot}
use tintemp_plus_plus.Registry.Uids.{yes_of, no_of, uid_of, Numbered}
use tintemp_plus_plus.Registry.Apart.{Numbered-AllApart, Numbered-differ}
use tintemp_plus_plus.Bot.{
  reply, reply_text, message_edit, log_only, start_shown, game_shown, confirm_replied, goes_on,
  entry_line,
}
use tintemp_plus_plus.Confirm.{
  confirm, own_confm, other_confm, pressing_player, answered_yes, both_confirmed, first_confirmed,
  start_embed, then_no, visit, confirm_text, on_confirm_click,
}
use tintemp_plus_plus.Confirm.Answers.{Presses, visit_yes, answers_once, text_eq_ne}
use tintemp_plus_plus.Confirm.Elsewhere.{is_stranger}
use tintemp_plus_plus.Confirm.One.{
  before-IsElsewhere, after-IsElsewhere, refusals, visit_all-goes_on, visit_all-returns, handled,
  unchanged,
}
use tintemp_plus_plus.Confirm.FirstAnswer.{a_number, confirm_btn_id, confirm_first, confirm-other}

module _ ⦃d : Dpp⦄ where
  first_confirmed-confirm :
      (player : ℕ) (e : Entry) (n : ℕ)
      → first_confirmed player (confirm player e) n
        ≡ goes_on (confirm player e) n (
            reply_text ir_channel_message_with_source
              (mention (pressing_player player e) ++ codes " confirmed! *(1/2)*")
              (confirm_replied (uid_of e))
            ∷ [])
  unfolding first_confirmed confirm
  first_confirmed-confirm player e n = elim (Bool-cases (player == 1)) [
    | inl one ↦ rw one
    | inr two ↦ rw two
  ]

  pub visit-first_yes :
      (click : ButtonClick) (e : Entry) (n player : ℕ)
      → Presses click e player
      → (player ≡ 1) ⊎ (player ≡ 2)
      → yes_of e ≢ no_of e
      → click.custom_id ≡ yes_of e
      → own_confm player e.second.st ≡ false
      → other_confm player e.second.st ≡ false
      → visit click e n
        ≡ goes_on (confirm player e) n (
            reply_text ir_channel_message_with_source
              (mention (pressing_player player e) ++ codes " confirmed! *(1/2)*")
              (confirm_replied (uid_of e))
            ∷ [])
  unfolding answered_yes then_no
  visit-first_yes click e n player plays which differ yes' own others =
      visit_yes click e n player plays (a_number player which) yes'
      ∙ rw (
        own,
        confirm-other player e which ∙ others,
        first_confirmed-confirm player e n,
        confirm_btn_id player e,
        text_eq_ne click.custom_id (no_of e) (λ same. differ (sym yes' ∙ same)),
      )

  -- The game that the second YES starts.
  abbrev pub started_by :
      ℕ → (e : Entry) → ℕ → ◌≢◌ {A = List Embed} e.first.origin.embeds [] → Entry
  started_by player e n some_embed = record (confirm player e) {
    first = (init_game (embedded e.first (start_embed (confirm player e)) some_embed) n).0;
  }

  both_confirmed-started :
      (click : ButtonClick) (player : ℕ) (e : Entry) (t : Ttt) (n : ℕ)
      → set_origin_embed e.first (start_embed e) ≡ some t
      → click.custom_id ≢ no_of e
      → let t' = (init_game t n).0 in
        then_no click player (both_confirmed e n)
        ≡ goes_on
            (record e { first = t' })
            (init_board n).1
            (reply ir_update_message t'.origin (log_only start_shown)
              ∷ message_edit t'.game (log_only game_shown)
              ∷ [])
  unfolding both_confirmed then_no init_game
  both_confirmed-started click player e t n marked other =
      rw (marked, both_confirmed, text_eq_ne click.custom_id (no_of e) other)

  pub visit-second_yes :
      (click : ButtonClick) (e : Entry) (n player : ℕ)
      → Presses click e player
      → (player ≡ 1) ⊎ (player ≡ 2)
      → yes_of e ≢ no_of e
      → click.custom_id ≡ yes_of e
      → own_confm player e.second.st ≡ false
      → other_confm player e.second.st ≡ true
      → (some_embed : ◌≢◌ {A = List Embed} e.first.origin.embeds [])
      → let f = started_by player e n some_embed in
        visit click e n
        ≡ goes_on f (init_board n).1 (
            reply ir_update_message f.first.origin (log_only start_shown)
            ∷ message_edit f.first.game (log_only game_shown)
            ∷ [])
  unfolding answered_yes
  visit-second_yes click e n player plays which differ yes' own others some_embed =
      let marked =
        ap (λ (t : Ttt). set_origin_embed t (start_embed (confirm player e)))
          (confirm_first player e)
        ∙ set_origin_embed_lem e.first (start_embed (confirm player e)) some_embed in
      visit_yes click e n player plays (a_number player which) yes'
      ∙ rw (own, confirm-other player e which ∙ others)
          (both_confirmed-started click player (confirm player e) _ n marked (λ same.
            differ (sym yes' ∙ (same ∙ ap (λ (b : Text × Text). b.1) (confirm_btn_id player e)))))

  -- In a list whose games have numbers of their own, a player of the game `e`, whose first message
  -- has an embed, clicks on its button YES, and plays in every game before it in the list too. The
  -- entry of the handler is logged. If the player has answered before, nothing changes and there is
  -- no call. If neither player has answered, the flag of the player is set and "confirmed! *(1/2)*"
  -- is the reply; if only the other player has, the game starts, with a new board, its first player
  -- to move with X and the same uid, an update of the first message and an edit of the game's
  -- message. In both cases the other games keep as they are, and "that's not your button!" follows
  -- exactly if the user does not play in some game after `e`.
  pub on_confirm_click_yes :
      (click : ButtonClick) (s : Bot) (before : List Entry) (e : Entry) (after : List Entry)
      (player : ℕ)
      → s.ttt_list_g ≡ before ++ e ∷ after
      → Numbered 0 s.ttt_list_g s.next_id
      → All (λ x. is_stranger click x ≡ false) before
      → Presses click e player
      → (player ≡ 1) ⊎ (player ≡ 2)
      → click.custom_id ≡ yes_of e
      → e.first.origin.embeds ≢ []
      → (f : Entry) × (on_confirm_click click s
          ≡ some (
              if own_confm player e.second.st
              then (s, entry_line confirm_text ∷ [])
              else if not (other_confm player e.second.st)
              then (
                record s { ttt_list_g = before ++ confirm player e ∷ after },
                entry_line confirm_text
                    ∷ reply_text ir_channel_message_with_source
                        (mention (pressing_player player e) ++ codes " confirmed! *(1/2)*")
                        (confirm_replied (uid_of e))
                    ∷ refusals click after,
              )
              else (
                record { next_id = (init_board s.next_id).1; ttt_list_g = before ++ f ∷ after },
                entry_line confirm_text
                    ∷ reply ir_update_message f.first.origin (log_only start_shown)
                    ∷ message_edit f.first.game (log_only game_shown)
                    ∷ refusals click after,
              )))
        × (f.first.board ≡ (init_board s.next_id).0)
        × (f.first.turn ≡ (e.first.player_1, x_mark))
        × (uid_of f ≡ uid_of e)
  unfolding init_game
  on_confirm_click_yes click s before e after player list numbered ours plays which yes'
        some_embed =
      let numbered' : Numbered 0 (before ++ e ∷ after) s.next_id = rw list at numbered in
      let apart = Numbered-AllApart 0 _ s.next_id numbered' in
      let differ = Numbered-differ 0 before e after s.next_id numbered' in
      let p = before-IsElsewhere click before e after (inl yes') apart in
      let q = after-IsElsewhere click before e after (inl yes') apart in
      (
        started_by player e s.next_id some_embed,
        elim (Bool-cases (own_confm player e.second.st)) [
          | inl done ↦ rw done (
              unchanged click s before e after list (
                visit_all-returns click before e e after s.next_id s.next_id [] p ours (
                  answers_once click e s.next_id player plays (a_number player which) differ
                    (inl yes') done)))
          | inr own ↦ elim (Bool-cases (other_confm player e.second.st)) [
            | inl others ↦
                rw (own, others)
                  (handled click s before e after list (
                    visit_all-goes_on click before e _ after s.next_id _ _ p q ours (
                      visit-second_yes click e s.next_id player plays which differ yes' own others
                        some_embed)))
            | inr others ↦
                rw (own, others)
                  (handled click s before e after list (
                    visit_all-goes_on click before e _ after s.next_id _ _ p q ours (
                      visit-first_yes click e s.next_id player plays which differ yes' own others)))
          ]
        ],
        refl,
        ap (λ (one : ℕ). (one, x_mark)) (embedded_lem e.first _ some_embed).1,
        field-embedded (λ t. t.uid) e.first _ some_embed (λ t o. refl),
      )
