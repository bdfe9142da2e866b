-- ===== src/Render/Turn.antt =====
-- The message of a turn, field by field.
use mathlib.Core.List.{append_assoc}
use tintemp_plus_plus.Base.{
  ℕ, ◌≡◌, ap, ◌∙◌, List, false, ◌||◌, if◌then◌else◌, Bool-cases, inl, inr, [], ◌∷◌, ◌++◌,
}
use tintemp_plus_plus.Text.{codes}
use tintemp_plus_plus.Dpp.{Dpp, Message, AllowedMentions, ActionRow}
use tintemp_plus_plus.Ttt.{Ttt, is_draw, is_won}
use tintemp_plus_plus.Render.{turn_text, fetch_ttt_components, fetch_ttt_turn, mention_only}

-- Nobody is mentioned by parsing the text; the users of the list may be.
abbrev pub only_users : ℕ → ℕ → AllowedMentions
only_users p1 p2 = record {
  parse_users = false;
  parse_everyone = false;
  parse_roles = false;
  replied_user = false;
  users = p1 ∷ p2 ∷ [];
  roles = [];
}

module _ ⦃d : Dpp⦄ where
  abbrev with_rows : Message → ActionRow → ActionRow → ActionRow → Message
  with_rows m a b c = record m { components = m.components ++ a ∷ b ∷ c ∷ [] }

  rows_added :
      (m : Message) (a b c : ActionRow)
      → d.parts.add_component (d.parts.add_component (d.parts.add_component m a) b) c
        ≡ with_rows m a b c
  rows_added m a b c =
      d.parts.add_component_lem _ c
      ∙ ap (λ (x : Message). record x { components = x.components ++ c ∷ [] })
          (d.parts.add_component_lem _ b
            ∙ ap (λ (x : Message). record x { components = x.components ++ b ∷ [] })
                (d.parts.add_component_lem m a))
      ∙ ap (λ (rows : List ActionRow). record m { components = rows }) (simp append_assoc)

  abbrev addressed : Ttt → Message → Message
  addressed t m = record m {
    content = turn_text t.turn.0;
    allowed_mentions = only_users t.player_1 t.player_2;
  }

  addressed_lem :
      (t : Ttt) (m : Message)
      → d.parts.set_content (mention_only m (t.player_1 ∷ t.player_2 ∷ [])) (turn_text t.turn.0)
        ≡ addressed t m
  addressed_lem t m =
      d.parts.set_content_lem _ (turn_text t.turn.0)
      ∙ ap (λ (x : Message). record x { content = turn_text t.turn.0 })
          (d.messages.set_allowed_mentions_lem m _ _ _ _ _ _)

  -- `fetch_ttt_turn` changes three fields of the message that it is given: the text says whose turn
  -- it is, or is blank in a game that is won or a draw; nobody can be mentioned but the two
  -- players; and the three rows of buttons are added after the components that the message has.
  pub fetch_ttt_turn-fields :
      (t : Ttt) (m : Message)
      → fetch_ttt_turn t m ≡ record m {
        content = if is_draw t.result || is_won t.result then codes "** **" else turn_text t.turn.0;
        allowed_mentions = only_users t.player_1 t.player_2;
        components =
            m.components
            ++ (fetch_ttt_components t t.board).0
              ∷ (fetch_ttt_components t t.board).1
              ∷ (fetch_ttt_components t t.board).2
              ∷ [];
      }
  unfolding fetch_ttt_turn
  fetch_ttt_turn-fields t m =
      let (a, b, c) = fetch_ttt_components t t.board in
      let shown =
        rows_added _ a b c ∙ ap (λ (x : Message). with_rows x a b c) (addressed_lem t m) in
      elim (Bool-cases (is_draw t.result || is_won t.result)) [
        | inl over ↦ rw over (
            d.parts.set_content_lem _ (codes "** **")
            ∙ ap (λ (x : Message). record x { content = codes "** **" }) shown)
        | inr playing ↦ rw playing shown
      ]
