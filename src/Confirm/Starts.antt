-- ===== src/Confirm/Starts.antt =====
-- How the two answers to a challenge start its game.
mod Clicks
use tintemp_plus_plus.Base.{
  ℕ, ◌≡◌, ◌≢◌, ◌⊎◌, refl, sym, ap, subst, ◌∙◌, true, false, [], Option, none, some, inl, inr,
}
use tintemp_plus_plus.Text.{Text}
use tintemp_plus_plus.Dpp.{Dpp, ButtonClick}
use tintemp_plus_plus.Board.{init_board, x_mark}
use tintemp_plus_plus.Ttt.{Ttt}
use tintemp_plus_plus.Game.{init_game}
use tintemp_plus_plus.Game.Plays.{IsFresh, embedded-IsFresh, Plays, start}
use tintemp_plus_plus.Registry.{Entry}
use tintemp_plus_plus.Registry.Uids.{yes_of, no_of}
use tintemp_plus_plus.Bot.{add_calls}
use tintemp_plus_plus.Confirm.{
  confirm, own_confm, other_confm, answered_yes, answered_no, both_confirmed, declined,
  first_confirmed, then_no, visit, start_embed, cancelled_embed,
}
use tintemp_plus_plus.Confirm.Answers.{Presses, visit_yes, visit_no, text_eq_ne}
use tintemp_plus_plus.Confirm.FirstAnswer.{
  FirstAnswered, Unanswered, a_number, after, confirm-other, confirm_btn_id, confirm_first,
  confirmed, other, other_confirm, other_new, other_number, own_new, same_player,
}
use tintemp_plus_plus.Ttt.Embeds.{embedded, embedded_lem, set_origin_embed_lem}
use tintemp_plus_plus.Confirm.Starts.Clicks.{first_yes, first_no, second_yes, init_game_start}

module _ ⦃d : Dpp⦄ where
  -- Two clicks, one after the other.
  unfoldable pub two_clicks : ButtonClick → ButtonClick → Entry → ℕ → Option (Entry × ℕ)
  two_clicks a b e n = elim (after (visit a e n)) [
    | none ↦ none
    | some (e', n') ↦ after (visit b e' n')
  ]

  second_of :
      (b : ButtonClick) (e e' : Entry) (n player : ℕ)
      → (player ≡ 1) ⊎ (player ≡ 2)
      → FirstAnswered player e e'
      → Presses b e (other player)
      → yes_of e ≢ no_of e
      → b.custom_id ≡ yes_of e
      → (f : Entry) × (after (visit b e' n) ≡ some (f, (init_board n).1))
        × (f.first.board ≡ (init_board n).0)
        × (f.first.turn ≡ (e.first.player_1, x_mark))
        × (IsFresh e.first → Plays f.first [])
  second_of b e e' n player which first plays differ yes' =
      let who = other player in
      let who_number : (who ≡ 1) ⊎ (who ≡ 2) = other_number player which in
      let some_embed : (confirm who e').first.origin.embeds ≢ [] =
        subst (λ (t : Ttt). t.origin.embeds ≢ []) (sym (confirm_first who e')) first.embeds in
      (
        _,
        second_yes b e' n who (same_player b e e' who first.same_1 first.same_2 plays) who_number
            (subst (λ (ids : Text × Text). ids.0 ≢ ids.1) (sym first.same_buttons) differ)
            (yes' ∙ sym (ap (λ (ids : Text × Text). ids.0) first.same_buttons)) first.not_own
            (confirm-other who e' who_number ∙ first.by_other) some_embed,
        (init_game_start _ n).0,
        (init_game_start _ n).1
            ∙ ap (λ (p : ℕ). (p, x_mark))
                ((embedded_lem (confirm who e').first (start_embed (confirm who e')) some_embed).1
                  ∙ ap (λ (t : Ttt). t.player_1) (confirm_first who e')
                  ∙ first.same_first),
        λ fresh. start _ n (
            embedded-IsFresh _ (start_embed (confirm who e')) some_embed
              (subst IsFresh (sym (confirm_first who e')) (first.keeps_fresh fresh))),
      )

  -- Without a word on how the game began.
  second_answer :
      (a b : ButtonClick) (e : Entry) (n player : ℕ)
      → Unanswered e
      → (player ≡ 1) ⊎ (player ≡ 2)
      → Presses a e player
      → Presses b e (other player)
      → (a.custom_id ≡ yes_of e) ⊎ (a.custom_id ≡ no_of e)
      → b.custom_id ≡ yes_of e
      → (f : Entry) × (two_clicks a b e n ≡ some (f, (init_board n).1))
        × (f.first.board ≡ (init_board n).0)
        × (f.first.turn ≡ (e.first.player_1, x_mark))
        × (IsFresh e.first → Plays f.first [])
  unfolding two_clicks
  second_answer a b e n player h which plays_a plays_b (inl yes_a) yes_b =
      let same = confirm_first player e in
      let some_embed : (confirm player e).first.origin.embeds ≢ [] =
        subst (λ (t : Ttt). t.origin.embeds ≢ []) (sym same) h.some_embed in
      rw
        (
          first_yes a e n player plays_a which h.buttons_differ yes_a (own_new player e h)
              (other_new player e h),
          two_clicks,
        )
        (second_of b e (confirm player e) n player which
          (confirmed player e (confirm player e).first which (own_new player e h)
            (other_new player e h) (ap (λ (t : Ttt). t.player_1) same) some_embed
            (subst IsFresh (sym same)))
          plays_b h.buttons_differ yes_b)
  second_answer a b e n player h which plays_a plays_b (inr no_a) yes_b =
      let same = confirm_first player e in
      let some_embed : (confirm player e).first.origin.embeds ≢ [] =
        subst (λ (t : Ttt). t.origin.embeds ≢ []) (sym same) h.some_embed in
      let after_no =
        embedded_lem (confirm player e).first (cancelled_embed player (confirm player e))
          some_embed in
      rw
        (
          first_no a e n player plays_a which h.buttons_differ no_a (own_new player e h) some_embed,
          two_clicks,
        )
        (second_of b e _ n player which
          (confirmed player e _ which (own_new player e h) (other_new player e h)
            (after_no.1 ∙ ap (λ (t : Ttt). t.player_1) same) after_no.0
            (λ fresh.
              embedded-IsFresh _ (cancelled_embed player (confirm player e)) some_embed
                (subst IsFresh (sym same) fresh)))
          plays_b h.buttons_differ yes_b)

  -- Of a fresh challenge between two different players, that was posted and that nobody has
  -- answered, one player answers first with either button and the other one then with YES: the game
  -- starts, on a new board and with the first player to move with X, played by no moves so far,
  -- also when the first answer was NO.
  pub second_yes_starts :
      (a b : ButtonClick) (e : Entry) (n player : ℕ)
      → Unanswered e
      → IsFresh e.first
      → (player ≡ 1) ⊎ (player ≡ 2)
      → Presses a e player
      → Presses b e (other player)
      → (a.custom_id ≡ yes_of e) ⊎ (a.custom_id ≡ no_of e)
      → b.custom_id ≡ yes_of e
      → (f : Entry) × (two_clicks a b e n ≡ some (f, (init_board n).1))
        × (f.first.board ≡ (init_board n).0)
        × (f.first.turn ≡ (e.first.player_1, x_mark))
        × Plays f.first []
  second_yes_starts a b e n player new fresh which plays_a plays_b answer yes_b =
      let (f, done, board, turn, plays) =
        second_answer a b e n player new which plays_a plays_b answer yes_b in
      (f, done, board, turn, plays fresh)
