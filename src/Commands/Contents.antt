-- ===== src/Commands/Contents.antt =====
-- What the messages around a game show to the users.
use tintemp_plus_plus.Base.{
  ℕ, ◌≡◌, ◌≤◌, refl, ap, ◌∙◌, false, some, List, [], ◌∷◌, ◌++◌, map, length, arith,
}
use tintemp_plus_plus.Text.{Text, codes}
use tintemp_plus_plus.Color.{yellow, green, red, black}
use tintemp_plus_plus.Dpp.{
  Dpp, ActionRow, Message, Embed, MessageCreate, Button, ComponentStyle, cos_success, cos_danger,
  cot_button, ComponentType,
}
use tintemp_plus_plus.Render.{mention}
use tintemp_plus_plus.Ttt.{Ttt}
use tintemp_plus_plus.Registry.{Entry}
use tintemp_plus_plus.Registry.Uids.{yes_of, no_of}
use tintemp_plus_plus.Bot.{Call, Callback, message_create, origin_deployed}
use tintemp_plus_plus.Confirm.{start_embed, cancelled_embed, pressing_player}
use tintemp_plus_plus.Callbacks.{ended_embed, result_message}
use tintemp_plus_plus.Commands.{challenge, confirm_embed, confirm_row, author_of}

-- The title, the description and the colour of an embed.
abbrev pub Says : Embed → Text → Text → ℕ → Type 0
Says x title description color =
    (x.title ≡ title) × (x.description ≡ description) × (x.color ≡ color)

-- A button's id, label, style and type.
abbrev pub face : Button → Text × Text × ComponentStyle × ComponentType
face b = (b.custom_id, b.label, b.style, b.type)

-- A message that is sent to the channel with the embed, the row below it and the callback.
abbrev pub Posts : Call → ℕ → Embed → ActionRow → Callback → Type 0
Posts c channel x row cb =
    (m : Message) × (rows : List ActionRow) × (c ≡ message_create m cb)
    × (m.channel_id ≡ channel)
    × (m.embeds ≡ x ∷ [])
    × (m.components ≡ rows ++ row ∷ [])

module _ ⦃d : Dpp⦄ where
  embed-Says :
      (title description : Text) (color : ℕ)
      → Says
          (d.embeds.set_color
            (d.embeds.set_description (d.embeds.set_title d.embeds.embed title) description)
            color)
          title
          description
          color
  embed-Says title description color =
      rw
        (
          d.embeds.set_title_lem d.embeds.embed title,
          d.embeds.set_description_lem (record (d.embeds.embed) { title = title }) description,
          d.embeds.set_color_lem
              (record (d.embeds.embed) { title = title; description = description }) color,
        )
        (refl, refl, refl)

  confirm_embed-Says :
      (msg : MessageCreate) (e : Entry)
      → confirm_embed msg e ≡ record (d.embeds.embed) {
        title = codes "Hey :right_facing_fist:";
        description =
            mention e.first.player_2
            ++ codes ", "
            ++ mention e.first.player_1
            ++ codes " want to play tic-tac-toe with you";
        author = some (author_of msg);
        color = yellow;
      }
  unfolding confirm_embed
  confirm_embed-Says msg e =
      rw
        (
          confirm_embed, d.embeds.set_title_lem, d.embeds.set_description_lem,
          d.embeds.set_author_lem, d.embeds.set_color_lem,
        )
        refl

  ended_embed-Says :
      (t : Ttt)
      → ended_embed t ≡ record (d.embeds.embed) {
        title = codes "Game Ended";
        color = black;
        description = mention t.player_1 ++ codes " ***VS*** " ++ mention t.player_2;
      }
  unfolding ended_embed
  ended_embed-Says t =
      rw (ended_embed, d.embeds.set_title_lem, d.embeds.set_color_lem, d.embeds.set_description_lem)
        refl

  -- One of the two buttons.
  button_face :
      (label id : Text) (style : ComponentStyle)
      → length label ≤ 80
      → length id ≤ 100
      → face (
          d.components.set_id
            (d.components.set_style
              (d.components.set_type
                (d.components.set_label d.components.component label)
                cot_button)
              style)
            id)
        ≡ (id, label, style, cot_button)
  button_face label id style label_fits id_fits =
      rw
        (
          d.components.set_label_lem d.components.component label label_fits,
          d.components.set_type_lem,
          d.components.set_style_lem,
          d.components.set_id_lem _ id id_fits,
        )
        refl

  confirm_row_faces :
      (e : Entry)
      → e.second.component ≡ d.components.component
      → length (yes_of e) ≤ 100
      → length (no_of e) ≤ 100
      → map face (confirm_row e).components
        ≡ (yes_of e, codes "YES", cos_success, cot_button)
          ∷ (no_of e, codes "Nah", cos_danger, cot_button)
          ∷ []
  unfolding confirm_row
  confirm_row_faces e bare yes_fits no_fits =
      rw
        (
          bare,
          d.components.add_component_lem,
          d.components.add_component_lem,
          d.components.component-components,
          button_face (codes "YES") (yes_of e) cos_success (omega arith) yes_fits,
          button_face (codes "Nah") (no_of e) cos_danger (omega arith) no_fits,
        )
        refl

  result_message_says :
      (t : Ttt) (channel : ℕ) (result : Embed)
      → result_message t channel result ≡ record (d.messages.message_embed channel result) {
        message_reference = record {
          message_id = t.game.id;
          channel_id = t.game.channel_id;
          guild_id = t.game.guild_id;
          fail_if_not_exists = false;
        };
      }
  unfolding result_message
  result_message_says t channel result = rw (d.messages.set_reference_lem) refl

  challenge-Posts :
      (msg : MessageCreate) (e : Entry)
      → Posts
          (challenge msg e)
          msg.msg.channel_id
          (confirm_embed msg e)
          (confirm_row e)
          (origin_deployed e.first.uid)
  unfolding challenge
  challenge-Posts msg e =
      let blank = d.messages.message_embed msg.msg.channel_id (confirm_embed msg e) in
      let shown = d.parts.add_component_lem blank (confirm_row e) in
      (
        _,
        blank.components,
        refl,
        ap (λ (m : Message). m.channel_id) shown
            ∙ d.messages.message_embed-channel_id msg.msg.channel_id (confirm_embed msg e),
        ap (λ (m : Message). m.embeds) shown
            ∙ d.messages.message_embed-embeds msg.msg.channel_id (confirm_embed msg e),
        ap (λ (m : Message). m.components) shown,
      )

  -- For a game whose row is a new one and whose buttons have ids of at most 100 characters: the
  -- challenge is one message to the channel of the command with the embed and the row of the
  -- confirmation, with the callback for the first message of that game; the embed names the second
  -- player and then the first, and the author of the command; the row has the green button YES and
  -- then the red button Nah, each with the id of the game's button for it. The embeds of a started,
  -- a declined and an ended game have the title, the text that mentions the players and the colour
  -- that are written out here, and the message with the result is a reply to the game's message, in
  -- the channel given and with the embed given alone.
  pub messages_say :
      (msg : MessageCreate) (e : Entry) (player channel : ℕ) (result : Embed)
      → e.second.component ≡ d.components.component
      → length (yes_of e) ≤ 100
      → length (no_of e) ≤ 100
      → Posts
          (challenge msg e)
          msg.msg.channel_id
          (confirm_embed msg e)
          (confirm_row e)
          (origin_deployed e.first.uid)
        × Says
            (confirm_embed msg e)
            (codes "Hey :right_facing_fist:")
            (mention e.first.player_2
              ++ codes ", "
              ++ mention e.first.player_1
              ++ codes " want to play tic-tac-toe with you")
            yellow
        × ((confirm_embed msg e).author ≡ some (author_of msg))
        × (map face (confirm_row e).components
            ≡ (yes_of e, codes "YES", cos_success, cot_button)
              ∷ (no_of e, codes "Nah", cos_danger, cot_button)
              ∷ [])
        × Says
            (start_embed e)
            (codes "Game Started!")
            (mention e.second.player_1 ++ codes " ***vs*** " ++ mention e.second.player_2)
            green
        × Says
            (cancelled_embed player e)
            (codes "*Cancelled*")
            (mention (pressing_player player e) ++ codes " Declined")
            red
        × Says
            (ended_embed e.first)
            (codes "Game Ended")
            (mention e.first.player_1 ++ codes " ***VS*** " ++ mention e.first.player_2)
            black
        × ((result_message e.first channel result).channel_id ≡ channel)
        × ((result_message e.first channel result).embeds ≡ result ∷ [])
        × ((result_message e.first channel result).message_reference ≡ record {
          message_id = e.first.game.id;
          channel_id = e.first.game.channel_id;
          guild_id = e.first.game.guild_id;
          fail_if_not_exists = false;
        })
  unfolding start_embed cancelled_embed
  messages_say msg e player channel result bare yes_fits no_fits =
      let hey = confirm_embed-Says msg e in
      let over = ended_embed-Says e.first in
      let shown = result_message_says e.first channel result in
      (
        challenge-Posts msg e,
        (
          ap (λ (x : Embed). x.title) hey,
          ap (λ (x : Embed). x.description) hey,
          ap (λ (x : Embed). x.color) hey,
        ),
        ap (λ (x : Embed). x.author) hey,
        confirm_row_faces e bare yes_fits no_fits,
        embed-Says _ _ green,
        embed-Says _ _ red,
        (
          ap (λ (x : Embed). x.title) over,
          ap (λ (x : Embed). x.description) over,
          ap (λ (x : Embed). x.color) over,
        ),
        ap (λ (m : Message). m.channel_id) shown
            ∙ d.messages.message_embed-channel_id channel result,
        ap (λ (m : Message). m.embeds) shown ∙ d.messages.message_embed-embeds channel result,
        ap (λ (m : Message). m.message_reference) shown,
      )
