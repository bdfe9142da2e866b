-- ===== src/Commands/Defined.antt =====
-- Clicks whose handling is defined, whatever button they are on.
use tintemp_plus_plus.Base.{
  ℕ, ◌≡◌, ◌≢◌, sym, subst, ◌++◌, ◌==◌, if◌then◌else◌, List, [], ◌∷◌, All, some, none, arith,
  Bool-cases, Option-cases, inl, inr,
}
use tintemp_plus_plus.Text.{text_eq}
use tintemp_plus_plus.Dpp.{Dpp, ButtonClick, Embed}
use tintemp_plus_plus.Ttt.{Ttt}
use tintemp_plus_plus.Game.{init_game}
use tintemp_plus_plus.Ttt.Embeds.{set_origin_embed_lem, embedded_lem}
use tintemp_plus_plus.Logger.{info}
use tintemp_plus_plus.Registry.{Entry, Bot}
use tintemp_plus_plus.Bot.{
  Call, log, bot_line, Visit, goes_on, returns, undefined, run_loop, add_calls,
}
use tintemp_plus_plus.Bot.Defined.{resume-defined}
use tintemp_plus_plus.Confirm.{
  confirm, own_confm, other_confm, start_embed, cancelled_embed, first_confirmed, both_confirmed,
  answered_yes, declined, answered_no, then_no, player_of, on_confirm_click,
}
use tintemp_plus_plus.Confirm
use tintemp_plus_plus.Confirm.FirstAnswer.{confirm_first}
use tintemp_plus_plus.Interaction.{
  press_board, end_turn, right_player, wrong_player, on_ttt_interaction,
}
use tintemp_plus_plus.Interaction
use tintemp_plus_plus.Commands.{then_handle, logged, pressed_text, on_button_click}

-- The first message of the game has an embed, as it has once it was posted.
abbrev pub HasEmbed : Entry → Type 0
HasEmbed e = ◌≢◌ {A = List Embed} e.first.origin.embeds []

confirm-HasEmbed : (player : ℕ) (e : Entry) → HasEmbed e → HasEmbed (confirm player e)
confirm-HasEmbed player e h =
    subst (λ (t : Ttt). t.origin.embeds ≢ []) (sym (confirm_first player e)) h

-- A round that is defined, and leaves an embed there when the loop goes on.
abbrev pub Fine : Visit → Type 0
Fine (goes_on e n cs) = HasEmbed e
Fine (returns e n cs) = Unit {0}
Fine undefined = ⊥

defined : (v : Visit) → Fine v → v ≢ undefined
defined (goes_on e n cs) h = λ fault. cc
defined (returns e n cs) h = λ fault. cc
defined undefined h = absurd h

add_calls-Fine : (cs : List Call) (v : Visit) → Fine v → Fine (add_calls cs v)
unfolding add_calls
add_calls-Fine cs (goes_on e n ds) h = h
add_calls-Fine cs (returns e n ds) h = h
add_calls-Fine cs undefined h = h

module _ ⦃d : Dpp⦄ where
  init_game-HasEmbed :
      (e : Entry) (t : Ttt) (n : ℕ)
      → t.origin.embeds ≢ []
      → HasEmbed (record e { first = (init_game t n).0 })
  unfolding init_game
  init_game-HasEmbed e t n h = h

  both_confirmed-Fine : (e : Entry) (n : ℕ) → HasEmbed e → Fine (both_confirmed e n)
  unfolding both_confirmed
  both_confirmed-Fine e n h =
      rw (set_origin_embed_lem e.first (start_embed e) h, both_confirmed)
        (init_game-HasEmbed e _ n (embedded_lem e.first (start_embed e) h).0)

  declined-Fine : (player : ℕ) (e : Entry) (n : ℕ) → HasEmbed e → Fine (declined player e n)
  unfolding declined
  declined-Fine player e n h =
      rw (set_origin_embed_lem e.first (cancelled_embed player e) h, declined)
        (embedded_lem e.first (cancelled_embed player e) h).0

  answered_yes-Fine : (player : ℕ) (e : Entry) (n : ℕ) → HasEmbed e → Fine (answered_yes player e n)
  unfolding answered_yes first_confirmed
  answered_yes-Fine player e n h = elim (Bool-cases (own_confm player e.second.st)) [
    | inl old ↦ rw old tt
    | inr new ↦ elim (Bool-cases (other_confm player (confirm player e).second.st)) [
      | inl both ↦
          rw (new, both) (both_confirmed-Fine (confirm player e) n (confirm-HasEmbed player e h))
      | inr first ↦ rw (new, first) (confirm-HasEmbed player e h)
    ]
  ]

  answered_no-Fine : (player : ℕ) (e : Entry) (n : ℕ) → HasEmbed e → Fine (answered_no player e n)
  unfolding answered_no
  answered_no-Fine player e n h = elim (Bool-cases (own_confm player e.second.st)) [
    | inl old ↦ rw old tt
    | inr new ↦ rw new (declined-Fine player (confirm player e) n (confirm-HasEmbed player e h))
  ]

  then_no-Fine :
      (click : ButtonClick) (player : ℕ) (v : Visit) → Fine v → Fine (then_no click player v)
  unfolding then_no
  then_no-Fine click player (goes_on e n cs) h =
      elim (Bool-cases (text_eq click.custom_id e.second.btn_id.1)) [
        | inl no' ↦ rw no' (add_calls-Fine cs _ (answered_no-Fine player e n h))
        | inr other ↦ rw other h
      ]
  then_no-Fine click player (returns e n cs) h = h
  then_no-Fine click player undefined h = h

  yes-Fine :
      (click : ButtonClick) (player : ℕ) (e : Entry) (n : ℕ)
      → HasEmbed e
      → Fine (
          if text_eq click.custom_id e.second.btn_id.0
          then answered_yes player e n
          else goes_on e n [])
  yes-Fine click player e n h = elim (Bool-cases (text_eq click.custom_id e.second.btn_id.0)) [
    | inl yes' ↦ rw yes' (answered_yes-Fine player e n h)
    | inr other ↦ rw other h
  ]

  visit-Fine :
      (click : ButtonClick) (e : Entry) (n : ℕ) → HasEmbed e → Fine (Confirm.visit click e n)
  unfolding Confirm.visit
  visit-Fine click e n h = elim (Bool-cases (player_of click.command.usr.id e.second == 0)) [
    | inl stranger ↦ rw stranger tt
    | inr player ↦ rw player (then_no-Fine click _ _ (yes-Fine click _ e n h))
  ]

  confirm_loop-defined :
      (click : ButtonClick) (es : List Entry) (n : ℕ)
      → All HasEmbed es
      → Confirm.visit_all click es n ≢ none
  unfolding Confirm.visit_all
  confirm_loop-defined click [] n hs = λ fault. cc
  confirm_loop-defined click (e ∷ es) n (h, hs) =
      resume-defined (Confirm.visit click e n) es (λ m. Confirm.visit_all click es m)
        (defined (Confirm.visit click e n) (visit-Fine click e n h))
        (λ m. confirm_loop-defined click es m hs)

  board_visit-defined :
      (click : ButtonClick) (e : Entry) (n : ℕ) → Interaction.visit click e n ≢ undefined
  unfolding Interaction.visit right_player end_turn wrong_player
  board_visit-defined click e n = λ fault. ground arith

  board_loop-defined :
      (click : ButtonClick) (es : List Entry) (n : ℕ) → Interaction.visit_all click es n ≢ none
  unfolding Interaction.visit_all
  board_loop-defined click [] n = λ fault. cc
  board_loop-defined click (e ∷ es) n =
      resume-defined (Interaction.visit click e n) es (λ m. Interaction.visit_all click es m)
        (board_visit-defined click e n) (λ m. board_loop-defined click es m)

  confirm_click-defined :
      (click : ButtonClick) (s : Bot) → All HasEmbed s.ttt_list_g → on_confirm_click click s ≢ none
  unfolding on_confirm_click run_loop
  confirm_click-defined click s hs =
      λ fault. ground (arith, confirm_loop-defined click s.ttt_list_g s.next_id hs)

  ttt_interaction-defined : (click : ButtonClick) (s : Bot) → on_ttt_interaction click s ≢ none
  unfolding on_ttt_interaction run_loop
  ttt_interaction-defined click s =
      λ fault. ground (arith, board_loop-defined click s.ttt_list_g s.next_id)

  -- If the first message of every game in the list has an embed, the handling of any click, on
  -- whatever button and by whomever, ends with a state and calls: it never takes the front of an
  -- empty vector.
  pub on_button_click_defined :
      (click : ButtonClick) (s : Bot)
      → All HasEmbed s.ttt_list_g
      → (t : Bot) × (cs : List Call) × (on_button_click click s ≡ some (t, cs))
  unfolding on_button_click then_handle logged
  on_button_click_defined click s hs = elim (Option-cases (on_confirm_click click s)) [
    | inl fault ↦ absurd (confirm_click-defined click s hs fault)
    | inr ((t, cs), first) ↦ elim (Option-cases (on_ttt_interaction click t)) [
      | inl fault ↦ absurd (ttt_interaction-defined click t fault)
      | inr ((u, ds), second) ↦
          (u, log (bot_line info (pressed_text click)) ∷ cs ++ ds, rw (first, second, then_handle))
    ]
  ]
