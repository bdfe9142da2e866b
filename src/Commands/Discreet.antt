-- ===== src/Commands/Discreet.antt =====
-- Which answers to a click the other users of the channel see: the predicates, and `on_confirm_click`.
pub mod Clicks
use tintemp_plus_plus.Base.{
  ℕ, ◌≡◌, refl, sym, ap, ◌∙◌, subst, ◌++◌, ◌==◌, ◌||◌, if◌then◌else◌, Bool, true, List, [], ◌∷◌,
  All, Option, some, none, arith, Bool-cases, Option-cases, inl, inr,
}
use tintemp_plus_plus.Text.{Text, codes, text_eq}
use tintemp_plus_plus.Render.{mention}
use tintemp_plus_plus.Dpp.{
  Dpp, ButtonClick, Message, ir_channel_message_with_source, message_flag, m_ephemeral,
}
use tintemp_plus_plus.Board.{Ix, Board, at, idle}
use tintemp_plus_plus.Ttt.{Ttt, set_origin_embed}
use tintemp_plus_plus.Registry.{Entry, Bot}
use tintemp_plus_plus.Bot.{
  Call, reply, reply_text, Visit, goes_on, returns, undefined, add_calls, Loop, resume,
}
use tintemp_plus_plus.Confirm.{
  confirm, own_confm, other_confm, start_embed, cancelled_embed, first_confirmed, both_confirmed,
  answered_yes, declined, answered_no, then_no, player_of, on_confirm_click, not_your_button,
}
use tintemp_plus_plus.Confirm
use tintemp_plus_plus.Interaction.{
  Press, press_square, press_row, press_board, end_turn, right_player, wrong_player,
  on_ttt_interaction, ephemeral, already_taken, not_your_turn,
}
use tintemp_plus_plus.Interaction
use tintemp_plus_plus.Commands.{then_handle, on_button_click}

module _ ⦃d : Dpp⦄ where
  -- `<@id> confirmed! *(1/2)*`
  abbrev pub confirmed_text : ℕ → Text
  confirmed_text usr = mention usr ++ codes " confirmed! *(1/2)*"

  -- A call that answers an interaction with no message of its own that others see, but for the text
  -- that tells of a first confirmation.
  abbrev pub IsDiscreet : Call → Type 0
  IsDiscreet (reply ir_channel_message_with_source m cb) = d.tests.is_ephemeral m ≡ true
  IsDiscreet (reply_text how text cb) = (usr : ℕ) × (text ≡ confirmed_text usr)
  IsDiscreet _ = Unit

  abbrev pub AllDiscreet : List Call → Type 0
  AllDiscreet cs = All IsDiscreet cs

  pub append-AllDiscreet :
      (cs ds : List Call) → AllDiscreet cs → AllDiscreet ds → AllDiscreet (cs ++ ds)
  append-AllDiscreet [] ds h k = k
  append-AllDiscreet (c ∷ cs) ds (h, hs) k = (h, append-AllDiscreet cs ds hs k)

  flagged :
      (m : Message) → d.tests.is_ephemeral (d.parts.set_flags m (message_flag m_ephemeral)) ≡ true
  flagged m = rw (d.parts.set_flags_lem, d.tests.is_ephemeral_lem) refl

  not_your_button-IsDiscreet : (click : ButtonClick) → IsDiscreet (not_your_button click)
  unfolding not_your_button
  not_your_button-IsDiscreet click = flagged _

  pub already_taken-IsDiscreet : IsDiscreet already_taken
  unfolding already_taken ephemeral
  already_taken-IsDiscreet = flagged _

  pub not_your_turn-IsDiscreet : IsDiscreet not_your_turn
  unfolding not_your_turn ephemeral
  not_your_turn-IsDiscreet = flagged _

  abbrev pub IsQuiet : Visit → Type 0
  IsQuiet (goes_on e n cs) = AllDiscreet cs
  IsQuiet (returns e n cs) = AllDiscreet cs
  IsQuiet undefined = Unit

  abbrev pub IsQuietLoop : Loop → Type 0
  IsQuietLoop none = Unit
  IsQuietLoop (some (es, n, cs)) = AllDiscreet cs

  pub resume-IsQuietLoop :
      (v : Visit) (es : List Entry) (rest : ℕ → Loop)
      → IsQuiet v
      → ((m : ℕ) → IsQuietLoop (rest m))
      → IsQuietLoop (resume v es rest)
  unfolding resume
  resume-IsQuietLoop (goes_on e n cs) es rest h k = elim (Option-cases (rest n)) [
    | inl fault ↦ rw fault tt
    | inr ((fs, m, ds), done) ↦ rw done (append-AllDiscreet cs ds h (subst IsQuietLoop done (k n)))
  ]
  resume-IsQuietLoop (returns e n cs) es rest h k = h
  resume-IsQuietLoop undefined es rest h k = tt

  add_calls-IsQuiet :
      (cs : List Call) (v : Visit) → AllDiscreet cs → IsQuiet v → IsQuiet (add_calls cs v)
  unfolding add_calls
  add_calls-IsQuiet cs (goes_on e n ds) h k = append-AllDiscreet cs ds h k
  add_calls-IsQuiet cs (returns e n ds) h k = append-AllDiscreet cs ds h k
  add_calls-IsQuiet cs undefined h k = tt

  both_confirmed-IsQuiet : (e : Entry) (n : ℕ) → IsQuiet (both_confirmed e n)
  unfolding both_confirmed
  both_confirmed-IsQuiet e n = elim (Option-cases (set_origin_embed e.first (start_embed e))) [
    | inl fault ↦ rw (fault, both_confirmed) tt
    | inr (t, done) ↦ rw (done, both_confirmed) (tt, (tt, tt))
  ]

  declined-IsQuiet : (player : ℕ) (e : Entry) (n : ℕ) → IsQuiet (declined player e n)
  unfolding declined
  declined-IsQuiet player e n =
      elim (Option-cases (set_origin_embed e.first (cancelled_embed player e))) [
        | inl fault ↦ rw (fault, declined) tt
        | inr (t, done) ↦ elim (Bool-cases e.second.st.replied) [
          | inl replied ↦ rw (done, declined, replied) (tt, (tt, tt))
          | inr silent ↦ rw (done, declined, silent) (tt, tt)
        ]
      ]

  answered_yes-IsQuiet : (player : ℕ) (e : Entry) (n : ℕ) → IsQuiet (answered_yes player e n)
  unfolding answered_yes first_confirmed
  answered_yes-IsQuiet player e n = elim (Bool-cases (own_confm player e.second.st)) [
    | inl old ↦ rw old tt
    | inr new ↦ elim (Bool-cases (other_confm player (confirm player e).second.st)) [
      | inl both ↦ rw (new, both) (both_confirmed-IsQuiet (confirm player e) n)
      | inr first ↦ rw (new, first) ((_, refl), tt)
    ]
  ]

  answered_no-IsQuiet : (player : ℕ) (e : Entry) (n : ℕ) → IsQuiet (answered_no player e n)
  unfolding answered_no
  answered_no-IsQuiet player e n = elim (Bool-cases (own_confm player e.second.st)) [
    | inl old ↦ rw old tt
    | inr new ↦ rw new (declined-IsQuiet player (confirm player e) n)
  ]

  then_no-IsQuiet :
      (click : ButtonClick) (player : ℕ) (v : Visit) → IsQuiet v → IsQuiet (then_no click player v)
  unfolding then_no
  then_no-IsQuiet click player (goes_on e n cs) h =
      elim (Bool-cases (text_eq click.custom_id e.second.btn_id.1)) [
        | inl no' ↦ rw no' (add_calls-IsQuiet cs _ h (answered_no-IsQuiet player e n))
        | inr other ↦ rw other h
      ]
  then_no-IsQuiet click player (returns e n cs) h = h
  then_no-IsQuiet click player undefined h = h

  confirm_visit-IsQuiet :
      (click : ButtonClick) (e : Entry) (n : ℕ) → IsQuiet (Confirm.visit click e n)
  unfolding Confirm.visit
  confirm_visit-IsQuiet click e n =
      let player = player_of click.command.usr.id e.second in
      elim (Bool-cases (player == 0)) [
        | inl stranger ↦ rw stranger (not_your_button-IsDiscreet click, tt)
        | inr plays ↦ rw plays (
            then_no-IsQuiet click player _
              (elim (Bool-cases (text_eq click.custom_id e.second.btn_id.0)) [
                | inl yes' ↦ rw yes' (answered_yes-IsQuiet player e n)
                | inr other ↦ rw other tt
              ]))
      ]

  pub confirm_loop-IsQuietLoop :
      (click : ButtonClick) (es : List Entry) (n : ℕ) → IsQuietLoop (Confirm.visit_all click es n)
  unfolding Confirm.visit_all
  confirm_loop-IsQuietLoop click [] n = tt
  confirm_loop-IsQuietLoop click (e ∷ es) n =
      resume-IsQuietLoop (Confirm.visit click e n) es (λ m. Confirm.visit_all click es m)
        (confirm_visit-IsQuiet click e n) (confirm_loop-IsQuietLoop click es)
