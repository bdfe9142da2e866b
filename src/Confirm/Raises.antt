-- ===== src/Confirm/Raises.antt =====
-- `on_confirm_click` raises the counter by the ids of at most one board.
use tintemp_plus_plus.Base.{
  ℕ, Bool, subst, ◌≡◌, ◌≢◌, List, [], ◌∷◌, All, arith, if◌then◌else◌, ◌==◌, Bool-cases,
  Option-cases, inl, inr, sym, ◌∙◌,
}
use tintemp_plus_plus.Text.{text_eq}
use tintemp_plus_plus.Text.Append.{text_eq→eq}
use tintemp_plus_plus.Dpp.{Dpp, ButtonClick}
use tintemp_plus_plus.Ttt.{set_origin_embed}
use tintemp_plus_plus.Game.{init_game}
use tintemp_plus_plus.Registry.{Entry}
use tintemp_plus_plus.Registry.Uids.{yes_of}
use tintemp_plus_plus.Registry.Apart.{Apart, AllApart}
use tintemp_plus_plus.Bot.{Visit, goes_on, returns, undefined}
use tintemp_plus_plus.Bot.Raises.{
  VisitRaises, LoopRaises, add_calls-Raises, later-Raises, resume-Raises,
}
use tintemp_plus_plus.Confirm.{
  confirm, start_embed, cancelled_embed, own_confm, other_confm, first_confirmed, both_confirmed,
  answered_yes, declined, answered_no, then_no, visit, visit_all, player_of,
}
use tintemp_plus_plus.Confirm.Keeps.{next-init_board}
use tintemp_plus_plus.Confirm.Answers.{text_eq_ne}

-- The ids of a board, if the click is on the YES button of this game.
abbrev board_ids : ButtonClick → Entry → ℕ
board_ids click e = if text_eq click.custom_id (yes_of e) then 9 else 0

module _ ⦃d : Dpp⦄ where
  both_confirmed-Raises : (e : Entry) (n : ℕ) → VisitRaises 9 n (both_confirmed e n)
  unfolding both_confirmed init_game
  both_confirmed-Raises e n = elim (Option-cases (set_origin_embed e.first (start_embed e))) [
    | inl fault ↦ rw (fault, both_confirmed) tt
    | inr (t, done) ↦ rw (done, both_confirmed) (omega (arith, next-init_board n))
  ]

  declined-Raises : (player : ℕ) (e : Entry) (n : ℕ) → VisitRaises 0 n (declined player e n)
  unfolding declined
  declined-Raises player e n =
      elim (Option-cases (set_origin_embed e.first (cancelled_embed player e))) [
        | inl fault ↦ rw (fault, declined) tt
        | inr (t, done) ↦ rw (done, declined) (omega arith)
      ]

  answered_yes-Raises : (player : ℕ) (e : Entry) (n : ℕ) → VisitRaises 9 n (answered_yes player e n)
  unfolding answered_yes first_confirmed
  answered_yes-Raises player e n = elim (Bool-cases (own_confm player e.second.st)) [
    | inl old ↦ rw old (omega arith)
    | inr new ↦ elim (Bool-cases (other_confm player (confirm player e).second.st)) [
      | inl both ↦ rw (new, both) (both_confirmed-Raises (confirm player e) n)
      | inr first ↦ rw (new, first) (omega arith)
    ]
  ]

  answered_no-Raises : (player : ℕ) (e : Entry) (n : ℕ) → VisitRaises 0 n (answered_no player e n)
  unfolding answered_no
  answered_no-Raises player e n = elim (Bool-cases (own_confm player e.second.st)) [
    | inl old ↦ rw old (omega arith)
    | inr new ↦ rw new (declined-Raises player (confirm player e) n)
  ]

  then_no-Raises :
      (click : ButtonClick) (player k n : ℕ) (v : Visit)
      → VisitRaises k n v
      → VisitRaises k n (then_no click player v)
  unfolding then_no
  then_no-Raises click player k n (goes_on e m cs) le =
      elim (Bool-cases (text_eq click.custom_id e.second.btn_id.1)) [
        | inl no' ↦
            rw no'
              (later-Raises k n m _ le (add_calls-Raises cs 0 m _ (answered_no-Raises player e m)))
        | inr other ↦ rw other le
      ]
  then_no-Raises click player k n (returns e m cs) h = h
  then_no-Raises click player k n undefined h = tt

  yes-Raises :
      (click : ButtonClick) (player : ℕ) (e : Entry) (n : ℕ)
      → VisitRaises (board_ids click e) n (
          if text_eq click.custom_id e.second.btn_id.0
          then answered_yes player e n
          else goes_on e n [])
  yes-Raises click player e n = elim (Bool-cases (text_eq click.custom_id e.second.btn_id.0)) [
    | inl yes' ↦ rw yes' (answered_yes-Raises player e n)
    | inr other ↦ rw other (omega arith)
  ]

  visit-Raises :
      (click : ButtonClick) (e : Entry) (n : ℕ)
      → VisitRaises (board_ids click e) n (visit click e n)
  unfolding visit
  visit-Raises click e n = elim (Bool-cases (player_of click.command.usr.id e.second == 0)) [
    | inl stranger ↦ rw stranger (omega arith)
    | inr player ↦ rw player (then_no-Raises click _ _ n _ (yes-Raises click _ e n))
  ]

  none-Raises :
      (click : ButtonClick) (es : List Entry) (n : ℕ)
      → All (λ x. click.custom_id ≢ yes_of x) es
      → LoopRaises 0 n (visit_all click es n)
  unfolding visit_all
  none-Raises click [] n h = omega arith
  none-Raises click (e ∷ es) n (other, h) =
      let here : VisitRaises 0 n (visit click e n) =
        subst (λ (b : Bool). VisitRaises (if b then 9 else 0) n (visit click e n))
          (text_eq_ne click.custom_id (yes_of e) other) (visit-Raises click e n) in
      resume-Raises 0 0 n (visit click e n) es (λ m. visit_all click es m) here
        (λ m. none-Raises click es m h)

  Apart-other :
      (click : ButtonClick) (e : Entry) (es : List Entry)
      → click.custom_id ≡ yes_of e
      → All (Apart e) es
      → All (λ x. click.custom_id ≢ yes_of x) es
  Apart-other click e [] yes' h = tt
  Apart-other click e (x ∷ es) yes' (a, h) =
      (λ same. a.yes_yes (sym yes' ∙ same), Apart-other click e es yes' h)

  -- In a list whose games are apart, the click is on the YES button of at most one of them.
  pub visit_all-Raises :
      (click : ButtonClick) (es : List Entry) (n : ℕ)
      → AllApart es
      → LoopRaises 9 n (visit_all click es n)
  unfolding visit_all
  visit_all-Raises click [] n h = omega arith
  visit_all-Raises click (e ∷ es) n (apart, h) =
      elim (Bool-cases (text_eq click.custom_id (yes_of e))) [
        | inl yes' ↦
            resume-Raises 9 0 n (visit click e n) es (λ m. visit_all click es m)
              (subst (λ (b : Bool). VisitRaises (if b then 9 else 0) n (visit click e n)) yes'
                (visit-Raises click e n))
              (λ m.
                none-Raises click es m
                  (Apart-other click e es (text_eq→eq click.custom_id (yes_of e) yes') apart))
        | inr other ↦
            resume-Raises 0 9 n (visit click e n) es (λ m. visit_all click es m)
              (subst (λ (b : Bool). VisitRaises (if b then 9 else 0) n (visit click e n)) other
                (visit-Raises click e n))
              (λ m. visit_all-Raises click es m h)
      ]
