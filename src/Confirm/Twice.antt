-- ===== src/Confirm/Twice.antt =====
-- `on_confirm_click` for two clicks of one player on the buttons of one of the listed games.
use tintemp_plus_plus.Base.{
  ℕ, ◌≡◌, ◌≢◌, ◌⊎◌, refl, sym, subst, true, false, ◌==◌, List, [], ◌∷◌, ◌++◌, some, inl, inr, All,
  arith, Bool-cases,
}
use tintemp_plus_plus.Text.{Text}
use tintemp_plus_plus.Dpp.{Dpp, ButtonClick, Embed}
use tintemp_plus_plus.Ttt.{Ttt}
use tintemp_plus_plus.Registry.{Entry, Bot}
use tintemp_plus_plus.Registry.Uids.{yes_of, no_of, Numbered}
use tintemp_plus_plus.Registry.Apart.{Numbered-AllApart, Numbered-differ}
use tintemp_plus_plus.Bot.{Call, Visit, goes_on, returns, entry_line}
use tintemp_plus_plus.Confirm.{
  confirm, own_confm, other_confm, player_of, visit, visit_all, confirm_text, on_confirm_click,
}
use tintemp_plus_plus.Confirm.Answers.{Presses, answers_once}
use tintemp_plus_plus.Confirm.Elsewhere.{is_stranger}
use tintemp_plus_plus.Confirm.One.{
  OneOf, before-IsElsewhere, after-IsElsewhere, visit_all-goes_on, visit_all-returns, handled,
  unchanged,
}
use tintemp_plus_plus.Confirm.FirstAnswer.{a_number, same_player}
use tintemp_plus_plus.Confirm.Yes.{visit-first_yes, visit-second_yes}
use tintemp_plus_plus.Confirm.No.{visit-no}

-- The game with its players and buttons, after the player has answered.
record HasAnswered (player : ℕ) (e f : Entry) : Type 0 where
  same_1 : f.second.player_1 ≡ e.second.player_1
  same_2 : f.second.player_2 ≡ e.second.player_2
  same_buttons : f.second.btn_id ≡ e.second.btn_id
  answered : own_confm player f.second.st ≡ true

confirm-HasAnswered :
    (player : ℕ) (e : Entry) (t : Ttt)
    → (player ≡ 1) ⊎ (player ≡ 2)
    → HasAnswered player e (record (confirm player e) { first = t })
unfolding confirm
confirm-HasAnswered player e t which = record {
  same_1 = ground arith;
  same_2 = ground arith;
  same_buttons = ground arith;
  answered = ground arith;
}

module _ ⦃d : Dpp⦄ where
  -- A round that ends with the game `f`.
  abbrev Ends : Visit → Entry → ℕ → List Call → Type 0
  Ends v f m cs = (v ≡ goes_on f m cs) ⊎ (v ≡ returns f m cs)

  answering :
      (click : ButtonClick) (e : Entry) (n player : ℕ)
      → Presses click e player
      → (player ≡ 1) ⊎ (player ≡ 2)
      → yes_of e ≢ no_of e
      → OneOf click e
      → ◌≢◌ {A = List Embed} e.first.origin.embeds []
      → (f : Entry) × (m : ℕ) × (cs : List Call) × Ends (visit click e n) f m cs
        × HasAnswered player e f
  answering click e n player plays which differ one some_embed =
      elim (Bool-cases (own_confm player e.second.st)) [
        | inl done ↦ (
          e,
          n,
          [],
          inr (answers_once click e n player plays (a_number player which) differ one done),
          record { same_1 = refl; same_2 = refl; same_buttons = refl; answered = done },
        )
        | inr own ↦ elim one [
          | inr no' ↦ (
            _,
            n,
            _,
            inl (visit-no click e n player plays which differ no' own some_embed),
            confirm-HasAnswered player e _ which,
          )
          | inl yes' ↦ elim (Bool-cases (other_confm player e.second.st)) [
            | inl both ↦ (
              _,
              _,
              _,
              inl (visit-second_yes click e n player plays which differ yes' own both some_embed),
              confirm-HasAnswered player e _ which,
            )
            | inr first ↦ (
              _,
              n,
              _,
              inl (visit-first_yes click e n player plays which differ yes' own first),
              confirm-HasAnswered player e (confirm player e).first which,
            )
          ]
        ]
      ]

  visit_all-Ends :
      (click : ButtonClick) (before : List Entry) (e f : Entry) (after : List Entry) (n m : ℕ)
      (cs : List Call)
      → OneOf click e
      → Numbered 0 (before ++ e ∷ after) n
      → All (λ x. is_stranger click x ≡ false) before
      → Ends (visit click e n) f m cs
      → (ds : List Call) × (visit_all click (before ++ e ∷ after) n
          ≡ some (before ++ f ∷ after, m, ds))
  visit_all-Ends click before e f after n m cs one numbered ours (inl on) =
      let apart = Numbered-AllApart 0 (before ++ e ∷ after) n numbered in
      (
        _,
        visit_all-goes_on click before e f after n m cs
            (before-IsElsewhere click before e after one apart)
            (after-IsElsewhere click before e after one apart) ours on,
      )
  visit_all-Ends click before e f after n m cs one numbered ours (inr over) =
      let apart = Numbered-AllApart 0 (before ++ e ∷ after) n numbered in
      (
        cs,
        visit_all-returns click before e f after n m cs
            (before-IsElsewhere click before e after one apart) ours over,
      )

  -- The second click, on the game `f` that the first one has left.
  again :
      (click : ButtonClick) (s : Bot) (before : List Entry) (e f : Entry) (after : List Entry)
      (player n : ℕ)
      → s.ttt_list_g ≡ before ++ f ∷ after
      → Numbered 0 (before ++ e ∷ after) n
      → All (λ x. is_stranger click x ≡ false) before
      → Presses click e player
      → (player ≡ 1) ⊎ (player ≡ 2)
      → OneOf click e
      → HasAnswered player e f
      → on_confirm_click click s ≡ some (s, entry_line confirm_text ∷ [])
  again click s before e f after player n list numbered ours plays which one h =
      let same = sym h.same_buttons in
      let differ = Numbered-differ 0 before e after n numbered in
      let differ' = subst (λ (ids : Text × Text). ids.0 ≢ ids.1) same differ in
      let one' =
        subst (λ (ids : Text × Text). (click.custom_id ≡ ids.0) ⊎ (click.custom_id ≡ ids.1)) same
          one in
      let apart = Numbered-AllApart 0 (before ++ e ∷ after) n numbered in
      unchanged click s before f after list (
        visit_all-returns click before f f after s.next_id s.next_id []
          (before-IsElsewhere click before e after one apart) ours
          (answers_once click f s.next_id player
            (same_player click e f player h.same_1 h.same_2 plays) (a_number player which) differ'
            one' h.answered))

  -- In a list whose games have numbers of their own, a player of the posted game `e`, who plays in
  -- every game before it too, clicks on one of its two buttons and then again on one of them:
  -- whatever the buttons are, and whatever was answered before, both clicks are handled, and the
  -- second one changes nothing and asks for nothing but the line of its entry in the log.
  pub answered_twice :
      (a b : ButtonClick) (s : Bot) (before : List Entry) (e : Entry) (after : List Entry)
      (player : ℕ)
      → s.ttt_list_g ≡ before ++ e ∷ after
      → Numbered 0 s.ttt_list_g s.next_id
      → All (λ x. is_stranger a x ≡ false) before
      → Presses a e player
      → (player ≡ 1) ⊎ (player ≡ 2)
      → b.command.usr.id ≡ a.command.usr.id
      → OneOf a e
      → OneOf b e
      → e.first.origin.embeds ≢ []
      → (t : Bot) × (cs : List Call) × (on_confirm_click a s ≡ some (t, cs))
        × (on_confirm_click b t ≡ some (t, entry_line confirm_text ∷ []))
  answered_twice a b s before e after player list numbered ours plays which user one_a one_b
        some_embed =
      let numbered' : Numbered 0 (before ++ e ∷ after) s.next_id = rw list at numbered in
      let differ = Numbered-differ 0 before e after s.next_id numbered' in
      let (f, m, cs, ends, h) =
        answering a e s.next_id player plays which differ one_a some_embed in
      let (ds, done) = visit_all-Ends a before e f after s.next_id m cs one_a numbered' ours ends in
      let ours_b =
        subst (λ (u : ℕ). All (λ x. (player_of u x.second == 0) ≡ false) before) (sym user) ours in
      let plays_b = subst (λ (u : ℕ). player_of u e.second ≡ player) (sym user) plays in
      (
        record { next_id = m; ttt_list_g = before ++ f ∷ after },
        entry_line confirm_text ∷ ds,
        handled a s before e after list done,
        again b _ before e f after player s.next_id refl numbered' ours_b plays_b which one_b h,
      )
