-- ===== src/Confirm/No.antt =====
-- `on_confirm_click` for a click of a player on the NO button of one of the listed games.
use tintemp_plus_plus.Base.{
  ℕ, ◌≡◌, ◌≢◌, ◌⊎◌, refl, ap, ◌∙◌, false, if◌then◌else◌, List, [], ◌∷◌, ◌++◌, some, All, ◌==◌,
  Bool-cases, inl, inr,
}
use tintemp_plus_plus.Dpp.{Dpp, ButtonClick, Embed}
use tintemp_plus_plus.Ttt.{Ttt, set_origin_embed}
use tintemp_plus_plus.Ttt.Embeds.{front, embedded, field-embedded, set_origin_embed_lem}
use tintemp_plus_plus.ConfirmButton.{get_replied_msg}
use tintemp_plus_plus.Registry.{Entry, Bot}
use tintemp_plus_plus.Registry.Uids.{yes_of, no_of, Numbered}
use tintemp_plus_plus.Registry.Apart.{Numbered-AllApart, Numbered-differ}
use tintemp_plus_plus.Bot.{
  Call, message_edit, message_delete, log_only, decline_shown, goes_on, entry_line, add_calls,
}
use tintemp_plus_plus.Confirm.{
  confirm, own_confm, answered_no, declined, cancelled_embed, visit, confirm_text, on_confirm_click,
}
use tintemp_plus_plus.Confirm.Answers.{Presses, visit_no, answers_once}
use tintemp_plus_plus.Confirm.Elsewhere.{is_stranger}
use tintemp_plus_plus.Confirm.One.{
  before-IsElsewhere, after-IsElsewhere, refusals, visit_all-goes_on, visit_all-returns, handled,
  unchanged,
}
use tintemp_plus_plus.Confirm.FirstAnswer.{a_number, confirm_first}

-- The calls that take back a challenge: its first message is edited, and the reply "confirmed!" is
-- deleted if it was posted.
abbrev pub taking_back : Entry → Ttt → List Call
taking_back e t =
    message_edit t.origin (log_only decline_shown)
    ∷ (if e.second.st.replied
        then message_delete (get_replied_msg e.second).id (get_replied_msg e.second).channel_id ∷ []
        else [])

module _ ⦃d : Dpp⦄ where
  -- The game after the NO of a player.
  abbrev pub declined_by : ℕ → (e : Entry) → ◌≢◌ {A = List Embed} e.first.origin.embeds [] → Entry
  declined_by player e some_embed = record (confirm player e) {
    first = embedded e.first (cancelled_embed player (confirm player e)) some_embed;
  }

  declined-goes_on :
      (player : ℕ) (e : Entry) (t : Ttt) (n : ℕ)
      → set_origin_embed e.first (cancelled_embed player e) ≡ some t
      → add_calls [] (declined player e n) ≡ goes_on (record e { first = t }) n (taking_back e t)
  unfolding declined add_calls
  declined-goes_on player e t n marked = rw (marked, declined)

  taking_back-confirm :
      (player : ℕ) (e : Entry) (t : Ttt) → taking_back (confirm player e) t ≡ taking_back e t
  unfolding confirm
  taking_back-confirm player e t = elim (Bool-cases (player == 1)) [
    | inl one ↦ rw one
    | inr two ↦ rw two
  ]

  cancelled_embed-confirm :
      (player : ℕ) (e : Entry)
      → cancelled_embed player (confirm player e) ≡ cancelled_embed player e
  unfolding confirm cancelled_embed
  cancelled_embed-confirm player e = elim (Bool-cases (player == 1)) [
    | inl one ↦ rw one
    | inr two ↦ rw two
  ]

  -- The first embed says who declined.
  says_declined :
      (player : ℕ) (e : Entry) (some_embed : ◌≢◌ {A = List Embed} e.first.origin.embeds [])
      → (rest : List Embed) × ((declined_by player e some_embed).first.origin.embeds
          ≡ cancelled_embed player e ∷ rest)
  unfolding embedded
  says_declined player e some_embed =
      let rest =
        (front e.first.origin.embeds (cancelled_embed player (confirm player e)) some_embed).0 in
      (rest, ap (λ (x : Embed). x ∷ rest) (cancelled_embed-confirm player e))

  pub visit-no :
      (click : ButtonClick) (e : Entry) (n player : ℕ)
      → Presses click e player
      → (player ≡ 1) ⊎ (player ≡ 2)
      → yes_of e ≢ no_of e
      → click.custom_id ≡ no_of e
      → own_confm player e.second.st ≡ false
      → (some_embed : ◌≢◌ {A = List Embed} e.first.origin.embeds [])
      → let f = declined_by player e some_embed in
        visit click e n ≡ goes_on f n (taking_back e f.first)
  unfolding answered_no
  visit-no click e n player plays which differ no' own some_embed =
      let marked =
        ap (λ (t : Ttt). set_origin_embed t (cancelled_embed player (confirm player e)))
          (confirm_first player e)
        ∙ set_origin_embed_lem e.first (cancelled_embed player (confirm player e)) some_embed in
      visit_no click e n player plays (a_number player which) differ no'
      ∙ rw own (
          declined-goes_on player (confirm player e) _ n marked
          ∙ ap (goes_on (declined_by player e some_embed) n)
              (taking_back-confirm player e (declined_by player e some_embed).first))

  -- In a list whose games have numbers of their own, a player of the game `e`, whose first message
  -- has an embed, clicks on its button NO, and plays in every game before it in the list too. The
  -- entry of the handler is logged. If the player has answered before, nothing changes and there is
  -- no call. Otherwise the flag of the player is set, as a YES sets it, the embed says who
  -- declined, the first message is edited, and the reply to the first confirmation is deleted if it
  -- was posted; the game stays in the list with its turns, board and result, the other games keep
  -- as they are, and "that's not your button!" follows exactly if the user does not play in some
  -- game after `e`.
  pub on_confirm_click_no :
      (click : ButtonClick) (s : Bot) (before : List Entry) (e : Entry) (after : List Entry)
      (player : ℕ)
      → s.ttt_list_g ≡ before ++ e ∷ after
      → Numbered 0 s.ttt_list_g s.next_id
      → All (λ x. is_stranger click x ≡ false) before
      → Presses click e player
      → (player ≡ 1) ⊎ (player ≡ 2)
      → click.custom_id ≡ no_of e
      → e.first.origin.embeds ≢ []
      → (f : Entry) × (on_confirm_click click s
          ≡ some (
              if own_confm player e.second.st then (s, entry_line confirm_text ∷ []) else (
                record s { ttt_list_g = before ++ f ∷ after },
                entry_line confirm_text ∷ taking_back e f.first ++ refusals click after,
              )))
        × (f.second ≡ (confirm player e).second)
        × ((rest : List Embed) × (f.first.origin.embeds ≡ cancelled_embed player e ∷ rest))
        × (f.first.turns ≡ e.first.turns)
        × (f.first.board ≡ e.first.board)
        × (f.first.result ≡ e.first.result)
  on_confirm_click_no click s before e after player list numbered ours plays which no' some_embed =
      let numbered' : Numbered 0 (before ++ e ∷ after) s.next_id = rw list at numbered in
      let apart = Numbered-AllApart 0 _ s.next_id numbered' in
      let differ = Numbered-differ 0 before e after s.next_id numbered' in
      let p = before-IsElsewhere click before e after (inr no') apart in
      let q = after-IsElsewhere click before e after (inr no') apart in
      (
        declined_by player e some_embed,
        elim (Bool-cases (own_confm player e.second.st)) [
          | inl done ↦ rw done (
              unchanged click s before e after list (
                visit_all-returns click before e e after s.next_id s.next_id [] p ours (
                  answers_once click e s.next_id player plays (a_number player which) differ
                    (inr no') done)))
          | inr own ↦ rw own (
              handled click s before e after list (
                visit_all-goes_on click before e _ after s.next_id _ _ p q ours
                  (visit-no click e s.next_id player plays which differ no' own some_embed)))
        ],
        refl,
        says_declined player e some_embed,
        field-embedded (λ t. t.turns) e.first _ some_embed (λ t o. refl),
        field-embedded (λ t. t.board) e.first _ some_embed (λ t o. refl),
        field-embedded (λ t. t.result) e.first _ some_embed (λ t o. refl),
      )
