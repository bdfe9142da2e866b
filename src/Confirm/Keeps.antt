-- ===== src/Confirm/Keeps.antt =====
-- `on_confirm_click` keeps the numbers of the games.
use native.Mathlib.Nat.{le_refl}
use tintemp_plus_plus.Base.{
  ℕ, ◌≤◌, ◌≡◌, ◌+◌, refl, some, List, [], ◌∷◌, arith, if◌then◌else◌, ◌==◌, Bool-cases, Option-cases,
  inl, inr,
}
use tintemp_plus_plus.Text.{text_eq}
use tintemp_plus_plus.Dpp.{Dpp, ButtonClick, Embed}
use tintemp_plus_plus.Ttt.{Ttt, set_origin_embed}
use tintemp_plus_plus.Board.{init_board}
use tintemp_plus_plus.Game.{init_game}
use tintemp_plus_plus.Registry.{Entry}
use tintemp_plus_plus.Registry.Uids.{SameNumbers, SameNumbers-refl}
use tintemp_plus_plus.Bot.{Visit, goes_on, returns, undefined}
use tintemp_plus_plus.Bot.Keeps.{VisitKeeps, LoopKeeps, resume-Keeps, add_calls-Keeps}
use tintemp_plus_plus.Confirm.{
  confirm, start_embed, cancelled_embed, own_confm, other_confm, first_confirmed, both_confirmed,
  answered_yes, declined, answered_no, then_no, visit, visit_all, player_of,
}

pub uid-set_origin_embed : (t u : Ttt) (e : Embed) → set_origin_embed t e ≡ some u → u.uid ≡ t.uid
unfolding set_origin_embed
uid-set_origin_embed t u e h = ground arith

confirm-SameNumbers : (player : ℕ) (e : Entry) → SameNumbers e (confirm player e)
unfolding confirm
confirm-SameNumbers player e = ground arith

SameNumbers-trans : (a b c : Entry) → SameNumbers a b → SameNumbers b c → SameNumbers a c
SameNumbers-trans a b c p q = ground arith

VisitKeeps-from :
    (a b : Entry) (n : ℕ) (v : Visit) → SameNumbers a b → VisitKeeps b n v → VisitKeeps a n v
VisitKeeps-from a b n (goes_on c m cs) s (t, le) = (SameNumbers-trans a b c s t, le)
VisitKeeps-from a b n (returns c m cs) s (t, le) = (SameNumbers-trans a b c s t, le)
VisitKeeps-from a b n undefined s h = tt

VisitKeeps-later :
    (a : Entry) (n n' : ℕ) (v : Visit) → n ≤ n' → VisitKeeps a n' v → VisitKeeps a n v
VisitKeeps-later a n n' (goes_on c m cs) le (s, le') = (s, omega arith)
VisitKeeps-later a n n' (returns c m cs) le (s, le') = (s, omega arith)
VisitKeeps-later a n n' undefined le h = tt

module _ ⦃d : Dpp⦄ where
  pub next-init_board : (n : ℕ) → (init_board n).1 ≡ n + 9
  unfolding init_board
  next-init_board n = omega arith

  both_confirmed-Keeps : (e : Entry) (n : ℕ) → VisitKeeps e n (both_confirmed e n)
  unfolding both_confirmed init_game
  both_confirmed-Keeps e n = elim (Option-cases (set_origin_embed e.first (start_embed e))) [
    | inl fault ↦ rw (fault, both_confirmed) tt
    | inr (t, done) ↦
        rw (done, both_confirmed)
          (
            record {
              same_uid = uid-set_origin_embed e.first t _ done;
              same_id = refl;
              same_btn_id = refl;
            },
            omega (arith, next-init_board n),
          )
  ]

  declined-Keeps : (player : ℕ) (e : Entry) (n : ℕ) → VisitKeeps e n (declined player e n)
  unfolding declined
  declined-Keeps player e n =
      elim (Option-cases (set_origin_embed e.first (cancelled_embed player e))) [
        | inl fault ↦ rw (fault, declined) tt
        | inr (t, done) ↦
            rw (done, declined)
              (
                record {
                  same_uid = uid-set_origin_embed e.first t _ done;
                  same_id = refl;
                  same_btn_id = refl;
                },
                le_refl n,
              )
      ]

  answered_yes-Keeps : (player : ℕ) (e : Entry) (n : ℕ) → VisitKeeps e n (answered_yes player e n)
  unfolding answered_yes first_confirmed
  answered_yes-Keeps player e n = elim (Bool-cases (own_confm player e.second.st)) [
    | inl old ↦ rw old (SameNumbers-refl e, le_refl n)
    | inr new ↦ elim (Bool-cases (other_confm player (confirm player e).second.st)) [
      | inl both ↦
          rw (new, both)
            (VisitKeeps-from e _ n _ (confirm-SameNumbers player e)
              (both_confirmed-Keeps (confirm player e) n))
      | inr first ↦ rw (new, first) (confirm-SameNumbers player e, le_refl n)
    ]
  ]

  answered_no-Keeps : (player : ℕ) (e : Entry) (n : ℕ) → VisitKeeps e n (answered_no player e n)
  unfolding answered_no
  answered_no-Keeps player e n = elim (Bool-cases (own_confm player e.second.st)) [
    | inl old ↦ rw old (SameNumbers-refl e, le_refl n)
    | inr new ↦ rw new (
        VisitKeeps-from e _ n _ (confirm-SameNumbers player e)
          (declined-Keeps player (confirm player e) n))
  ]

  then_no-Keeps :
      (click : ButtonClick) (player : ℕ) (e : Entry) (n : ℕ) (v : Visit)
      → VisitKeeps e n v
      → VisitKeeps e n (then_no click player v)
  unfolding then_no
  then_no-Keeps click player e n (goes_on e' n' cs) (s, le) =
      elim (Bool-cases (text_eq click.custom_id e'.second.btn_id.1)) [
        | inl no' ↦ rw no' (
            VisitKeeps-from e e' n _ s (
              VisitKeeps-later e' n n' _ le
                (add_calls-Keeps cs e' n' _ (answered_no-Keeps player e' n'))))
        | inr other ↦ rw other (s, le)
      ]
  then_no-Keeps click player e n (returns e' n' cs) h = h
  then_no-Keeps click player e n undefined h = tt

  yes-Keeps :
      (click : ButtonClick) (player : ℕ) (e : Entry) (n : ℕ)
      → VisitKeeps e n (
          if text_eq click.custom_id e.second.btn_id.0
          then answered_yes player e n
          else goes_on e n [])
  yes-Keeps click player e n = elim (Bool-cases (text_eq click.custom_id e.second.btn_id.0)) [
    | inl yes' ↦ rw yes' (answered_yes-Keeps player e n)
    | inr other ↦ rw other (SameNumbers-refl e, le_refl n)
  ]

  visit-Keeps : (click : ButtonClick) (e : Entry) (n : ℕ) → VisitKeeps e n (visit click e n)
  unfolding visit
  visit-Keeps click e n = elim (Bool-cases (player_of click.command.usr.id e.second == 0)) [
    | inl stranger ↦ rw stranger (SameNumbers-refl e, le_refl n)
    | inr player ↦ rw player (then_no-Keeps click _ e n _ (yes-Keeps click _ e n))
  ]

  pub visit_all-Keeps :
      (click : ButtonClick) (es : List Entry) (n : ℕ) → LoopKeeps es n (visit_all click es n)
  unfolding visit_all
  visit_all-Keeps click [] n = (tt, le_refl n)
  visit_all-Keeps click (e ∷ es) n =
      resume-Keeps e n (visit click e n) es (λ m. visit_all click es m) (visit-Keeps click e n)
        (λ m. visit_all-Keeps click es m)
