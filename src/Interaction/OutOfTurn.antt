-- ===== src/Interaction/OutOfTurn.antt =====
-- Clicks on a board by somebody who does not have to move.
use tintemp_plus_plus.Base.{
  ℕ, zero, suc, refl, ap, ◌≡◌, ◌≢◌, ◌∙◌, ◌||◌, ◌==◌, if◌then◌else◌, some, List, [], ◌∷◌, ◌++◌, All,
  length, arith, Bool-cases, inl, inr,
}
use tintemp_plus_plus.Text.{codes}
use tintemp_plus_plus.Dpp.{
  Dpp, ButtonClick, Message, ir_channel_message_with_source, message_flag, m_ephemeral,
}
use tintemp_plus_plus.Ttt.{in_progress}
use tintemp_plus_plus.Game.Moves.{Moves, player_after}
use tintemp_plus_plus.Game.Plays.{Plays, Plays-IsGame}
use tintemp_plus_plus.Registry.{Entry, Bot}
use tintemp_plus_plus.Bot.{reply, log_only, turn_warned, entry_line, run_loop}
use tintemp_plus_plus.Bot.Lines.{entered_one}
use tintemp_plus_plus.Interaction.{interaction_text, ephemeral, not_your_turn, on_ttt_interaction}
use tintemp_plus_plus.Interaction.Outcome.{visit_out_of_turn, visit_all-one}

-- Of the two players, the one who does not have to move is the one who has to move next.
waiting_player :
    (usr p1 p2 n : ℕ)
    → usr ≢ player_after p1 p2 n
    → ((usr == p1) || (usr == p2)) ≡ (usr == player_after p1 p2 (suc n))
waiting_player usr p1 p2 zero differ = ground arith
waiting_player usr p1 p2 (suc n) differ = ground (arith, waiting_player usr p2 p1 n differ)

module _ ⦃d : Dpp⦄ where
  not_your_turn_says :
      (m : Message) × (not_your_turn
        ≡ reply ir_channel_message_with_source m (log_only turn_warned))
      × (m.content ≡ codes "oi, this is not your turn")
      × (m.flags ≡ message_flag m_ephemeral)
  unfolding not_your_turn ephemeral
  not_your_turn_says =
      let shown =
        d.parts.set_flags_lem
          (d.parts.set_content d.messages.message (codes "oi, this is not your turn"))
          (message_flag m_ephemeral) in
      (
        _,
        refl,
        ap (λ (m : Message). m.content) shown
            ∙ ap (λ (m : Message). m.content)
                (d.parts.set_content_lem d.messages.message (codes "oi, this is not your turn")),
        ap (λ (m : Message). m.flags) shown,
      )

  -- Which calls a click out of turn asks for.
  refused_lem :
      (click : ButtonClick) (s : Bot) (before : List Entry) (e : Entry) (after : List Entry)
      (ms : Moves)
      → s.ttt_list_g ≡ before ++ e ∷ after
      → All (λ x. click.command.message_id ≢ x.first.game.id) before
      → All (λ x. click.command.message_id ≢ x.first.game.id) after
      → Plays e.first ms
      → e.first.result ≡ in_progress
      → click.command.message_id ≡ e.first.game.id
      → click.command.usr.id ≢ player_after e.first.player_1 e.first.player_2 (length ms)
      → on_ttt_interaction click s
        ≡ some (
          s,
          entry_line interaction_text
              ∷ (if click.command.usr.id
                    == player_after e.first.player_1 e.first.player_2 (suc (length ms))
                  then not_your_turn ∷ []
                  else []),
        )
  unfolding on_ttt_interaction run_loop
  refused_lem click s before e after ms list p q plays playing here differ =
      let turn = (Plays-IsGame plays).turn_player playing in
      let told = visit_out_of_turn click e s.next_id here (λ same. differ (same ∙ turn)) in
      let who = waiting_player click.command.usr.id _ _ (length ms) differ in
      elim (Bool-cases (
        click.command.usr.id == player_after e.first.player_1 e.first.player_2 (suc (length ms)))) [
          | inl waits ↦
              let one =
                visit_all-one click before e e after s.next_id (not_your_turn ∷ []) p q
                  (told ∙ rw (who, waits)) in
              rw (list, one, run_loop, list, entered_one interaction_text before e after, waits)
          | inr stranger ↦
              let one =
                visit_all-one click before e e after s.next_id [] p q (told ∙ rw (who, stranger)) in
              rw (list, one, run_loop, list, entered_one interaction_text before e after, stranger)
        ]

  -- In a list in which one game only has the clicked message, and that game is in progress after
  -- the moves `ms`, a click by anybody but the player who has to move by the rules changes nothing,
  -- and after the entry of the handler is logged, it is answered, for its author only, with "oi,
  -- this is not your turn" if it comes from the player who by the rules has to move after the next
  -- move, and not at all otherwise.
  pub out_of_turn :
      (click : ButtonClick) (s : Bot) (before : List Entry) (e : Entry) (after : List Entry)
      (ms : Moves)
      → s.ttt_list_g ≡ before ++ e ∷ after
      → All (λ x. click.command.message_id ≢ x.first.game.id) before
      → All (λ x. click.command.message_id ≢ x.first.game.id) after
      → Plays e.first ms
      → e.first.result ≡ in_progress
      → click.command.message_id ≡ e.first.game.id
      → click.command.usr.id ≢ player_after e.first.player_1 e.first.player_2 (length ms)
      → (m : Message) × (on_ttt_interaction click s
          ≡ some (
            s,
            entry_line interaction_text
                ∷ (if click.command.usr.id
                      == player_after e.first.player_1 e.first.player_2 (suc (length ms))
                    then reply ir_channel_message_with_source m (log_only turn_warned) ∷ []
                    else []),
          ))
        × (m.content ≡ codes "oi, this is not your turn")
        × (m.flags ≡ message_flag m_ephemeral)
  out_of_turn click s before e after ms list p q plays playing here differ =
      let (m, sent, text, flags) = not_your_turn_says in
      (
        m,
        rw sent at refused_lem click s before e after ms list p q plays playing here differ,
        text,
        flags,
      )
