-- ===== src/Confirm/Unposted.antt =====
-- `on_confirm_click` for an answer to a challenge whose first message is not stored yet.
use tintemp_plus_plus.Base.{
  ℕ, ◌≡◌, ◌≢◌, ◌⊎◌, ap, ◌∙◌, true, false, List, [], ◌∷◌, ◌++◌, none, All, inl, inr,
}
use tintemp_plus_plus.Dpp.{Dpp, ButtonClick, Embed}
use tintemp_plus_plus.Ttt.{Ttt, set_front, set_origin_embed}
use tintemp_plus_plus.Registry.{Entry, Bot}
use tintemp_plus_plus.Registry.Uids.{yes_of, no_of, Numbered}
use tintemp_plus_plus.Registry.Apart.{AllApart, Numbered-AllApart, Numbered-differ}
use tintemp_plus_plus.Bot.{undefined, resume, run_loop, add_calls}
use tintemp_plus_plus.Confirm.{
  confirm, own_confm, other_confm, answered_yes, answered_no, both_confirmed, declined, start_embed,
  cancelled_embed, then_no, visit, visit_all, on_confirm_click,
}
use tintemp_plus_plus.Confirm.Answers.{Presses, visit_yes, visit_no}
use tintemp_plus_plus.Confirm.Elsewhere.{IsElsewhere, is_stranger, visit-IsElsewhere}
use tintemp_plus_plus.Confirm.One.{OneOf, before-IsElsewhere}
use tintemp_plus_plus.Confirm.FirstAnswer.{a_number, confirm_first, confirm-other}

set_origin_embed-none : (t : Ttt) (e : Embed) → t.origin.embeds ≡ [] → set_origin_embed t e ≡ none
unfolding set_origin_embed set_front
set_origin_embed-none t e empty = rw (empty, set_origin_embed)

module _ ⦃d : Dpp⦄ where
  confirm-none :
      (player : ℕ) (e : Entry) (x : Embed)
      → e.first.origin.embeds ≡ []
      → set_origin_embed (confirm player e).first x ≡ none
  confirm-none player e x empty =
      ap (λ (t : Ttt). set_origin_embed t x) (confirm_first player e)
      ∙ set_origin_embed-none e.first x empty

  visit_all-undefined :
      (click : ButtonClick) (before : List Entry) (e : Entry) (after : List Entry) (n : ℕ)
      → All (IsElsewhere click) before
      → All (λ x. is_stranger click x ≡ false) before
      → visit click e n ≡ undefined
      → visit_all click (before ++ e ∷ after) n ≡ none
  unfolding visit_all resume
  visit_all-undefined click [] e after n p ours h = rw h
  visit_all-undefined click (x ∷ before) e after n (px, p) (our, ours) h =
      rw (visit-IsElsewhere click x n px, our, visit_all-undefined click before e after n p ours h)

  visit-unposted_yes :
      (click : ButtonClick) (e : Entry) (n player : ℕ)
      → Presses click e player
      → (player ≡ 1) ⊎ (player ≡ 2)
      → click.custom_id ≡ yes_of e
      → own_confm player e.second.st ≡ false
      → other_confm player e.second.st ≡ true
      → e.first.origin.embeds ≡ []
      → visit click e n ≡ undefined
  unfolding answered_yes both_confirmed then_no
  visit-unposted_yes click e n player plays which yes' own others empty =
      visit_yes click e n player plays (a_number player which) yes'
      ∙ rw (
        own,
        confirm-other player e which ∙ others,
        confirm-none player e (start_embed (confirm player e)) empty,
        both_confirmed,
      )

  visit-unposted_no :
      (click : ButtonClick) (e : Entry) (n player : ℕ)
      → Presses click e player
      → (player ≡ 1) ⊎ (player ≡ 2)
      → yes_of e ≢ no_of e
      → click.custom_id ≡ no_of e
      → own_confm player e.second.st ≡ false
      → e.first.origin.embeds ≡ []
      → visit click e n ≡ undefined
  unfolding answered_no declined add_calls
  visit-unposted_no click e n player plays which differ no' own empty =
      visit_no click e n player plays (a_number player which) differ no'
      ∙ rw (own, confirm-none player e (cancelled_embed player (confirm player e)) empty, declined)

  -- In a list whose games have numbers of their own, a player of the game `e` who has not answered
  -- yet, and plays in every game before it in the list too, clicks on its button NO, or on YES
  -- after the other player has answered, while the first message of the game has no embed: the
  -- handler is undefined behaviour.
  pub answered_too_soon :
      (click : ButtonClick) (s : Bot) (before : List Entry) (e : Entry) (after : List Entry)
      (player : ℕ)
      → s.ttt_list_g ≡ before ++ e ∷ after
      → Numbered 0 s.ttt_list_g s.next_id
      → All (λ x. is_stranger click x ≡ false) before
      → Presses click e player
      → (player ≡ 1) ⊎ (player ≡ 2)
      → own_confm player e.second.st ≡ false
      → e.first.origin.embeds ≡ []
      → ((click.custom_id ≡ yes_of e) × (other_confm player e.second.st ≡ true))
        ⊎ (click.custom_id ≡ no_of e)
      → on_confirm_click click s ≡ none
  unfolding on_confirm_click run_loop
  answered_too_soon click s before e after player list numbered ours plays which own empty answer =
      rw (
        list,
        visit_all-undefined click before e after s.next_id
            (before-IsElsewhere click before e after (one answer) apart) ours (here answer),
        run_loop,
      )
    where
      numbered' : Numbered 0 (before ++ e ∷ after) s.next_id
      numbered' = rw list at numbered

      apart : AllApart (before ++ e ∷ after)
      apart = Numbered-AllApart 0 (before ++ e ∷ after) s.next_id numbered'

      one :
          ((click.custom_id ≡ yes_of e) × (other_confm player e.second.st ≡ true))
            ⊎ (click.custom_id ≡ no_of e)
          → OneOf click e
      one (inl (yes', _)) = inl yes'
      one (inr no') = inr no'

      here :
          ((click.custom_id ≡ yes_of e) × (other_confm player e.second.st ≡ true))
            ⊎ (click.custom_id ≡ no_of e)
          → visit click e s.next_id ≡ undefined
      here (inl (yes', others)) =
          visit-unposted_yes click e s.next_id player plays which yes' own others empty
      here (inr no') =
          visit-unposted_no click e s.next_id player plays which
            (Numbered-differ 0 before e after s.next_id numbered') no' own empty
