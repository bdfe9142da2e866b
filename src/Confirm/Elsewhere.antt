-- ===== src/Confirm/Elsewhere.antt =====
-- `on_confirm_click` for a click on a button that is no confirmation button, such as one of a board.
use tintemp_plus_plus.Base.{
  ℕ, ◌≡◌, ◌≢◌, refl, Bool, ◌==◌, if◌then◌else◌, List, [], ◌∷◌, ◌++◌, some, All, any, Bool-cases,
  inl, inr,
}
use tintemp_plus_plus.Dpp.{Dpp, ButtonClick}
use tintemp_plus_plus.Registry.{Entry, Bot}
use tintemp_plus_plus.Registry.Uids.{yes_of, no_of}
use tintemp_plus_plus.Bot.{goes_on, returns, resume, entered, run_loop}
use tintemp_plus_plus.Confirm.{
  player_of, not_your_button, then_no, visit, visit_all, confirm_text, on_confirm_click,
}
use tintemp_plus_plus.Confirm.Answers.{text_eq_ne}

-- The button of the click is none of the confirmation of this game.
pub record IsElsewhere (click : ButtonClick) (e : Entry) : Type 0 where
  pub not_yes : click.custom_id ≢ yes_of e
  pub not_no : click.custom_id ≢ no_of e

-- Whether the user plays in none of the two places of the game.
abbrev pub is_stranger : ButtonClick → Entry → Bool
is_stranger click e = player_of click.command.usr.id e.second == 0

module _ ⦃d : Dpp⦄ where
  pub visit-IsElsewhere :
      (click : ButtonClick) (e : Entry) (n : ℕ)
      → IsElsewhere click e
      → visit click e n
        ≡ (if is_stranger click e then returns e n (not_your_button click ∷ []) else goes_on e n [])
  unfolding visit then_no
  visit-IsElsewhere click e n h = rw (
    text_eq_ne click.custom_id (yes_of e) h.not_yes,
    text_eq_ne click.custom_id (no_of e) h.not_no,
  )

  pub visit_all-IsElsewhere :
      (click : ButtonClick) (es : List Entry) (n : ℕ)
      → All (IsElsewhere click) es
      → visit_all click es n
        ≡ some (es, n, if any (is_stranger click) es then not_your_button click ∷ [] else [])
  unfolding visit_all resume
  visit_all-IsElsewhere click [] n h = refl
  visit_all-IsElsewhere click (e ∷ es) n (here, h) = elim (Bool-cases (is_stranger click e)) [
    | inl stranger ↦ rw (visit-IsElsewhere click e n here, stranger)
    | inr player ↦ rw (visit-IsElsewhere click e n here, player, visit_all-IsElsewhere click es n h)
  ]

  pub on_confirm_click_elsewhere :
      (click : ButtonClick) (s : Bot)
      → All (IsElsewhere click) s.ttt_list_g
      → on_confirm_click click s
        ≡ some (
          s,
          entered confirm_text s.ttt_list_g
              ++ (if any (is_stranger click) s.ttt_list_g then not_your_button click ∷ [] else []),
        )
  unfolding on_confirm_click run_loop
  on_confirm_click_elsewhere click s h =
      rw (visit_all-IsElsewhere click s.ttt_list_g s.next_id h, run_loop)
