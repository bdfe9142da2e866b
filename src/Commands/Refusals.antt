-- ===== src/Commands/Refusals.antt =====
-- The commands `ttt` of main.cpp that add no game, and what their author reads.
use tintemp_plus_plus.Base.{
  ◌≡◌, ◌≢◌, ◌⊎◌, refl, sym, ap, ◌∙◌, true, false, ◌==◌, some, List, [], ◌∷◌, ◌++◌, arith,
  Bool-cases, inl, inr,
}
use tintemp_plus_plus.Text.{Text, codes}
use tintemp_plus_plus.Dpp.{
  Dpp, Message, MessageRef, AllowedMentions, GuildMember, MessageCreate, User, mt_default,
}
use tintemp_plus_plus.ConfirmButton.{Compiler}
use tintemp_plus_plus.Registry.{Entry, Bot, push_onto_list}
use tintemp_plus_plus.Bot.{Call, message_create, log_only, refused}
use tintemp_plus_plus.Commands.{refusal, bot_refusal, self_refusal, tictactoe_with, tictactoe}

no_longer : (es : List Entry) (e : Entry) → es ++ e ∷ [] ≢ es
no_longer [] e = λ same. cc same
no_longer (x ∷ es) e = λ same. no_longer es e (ground arith)

-- A message with a text that is a reply to the command, in its channel, and may ping its author only.
pub record IsReply (msg : MessageCreate) (text : Text) (m : Message) : Type 0 where
  pub says : m.content ≡ text
  pub in_channel : m.channel_id ≡ msg.msg.channel_id
  pub replies_to : m.message_reference ≡ record {
    message_id = msg.msg.id;
    channel_id = msg.msg.channel_id;
    guild_id = msg.msg.guild_id;
    fail_if_not_exists = false;
  }
  pub pings : m.allowed_mentions ≡ record {
    parse_users = false;
    parse_roles = false;
    parse_everyone = false;
    replied_user = true;
    users = msg.msg.author.id ∷ [];
    roles = [];
  }

module _ ⦃d : Dpp⦄ where
  -- What the calls tell the author, by the users that the command mentions.
  abbrev pub Told : MessageCreate → List (User × GuildMember) → List Call → Type 0
  Told msg [] cs = cs ≡ []
  Told msg (u ∷ us) cs =
      (m : Message) × (cs ≡ message_create m (log_only refused) ∷ [])
      × (((d.users.is_bot u.0 ≡ true) × IsReply msg (codes "bot can't play you bruh") m)
          ⊎ ((d.users.is_bot u.0 ≡ false)
              × (u.0.id ≡ msg.msg.author.id)
              × IsReply msg (codes "hey, you can't play with yourself") m))

  refusal-IsReply :
      (msg : MessageCreate) (text : Text)
      → (m : Message) × (refusal msg text ≡ message_create m (log_only refused))
        × IsReply msg text m
  unfolding refusal
  refusal-IsReply msg text =
      let blank = d.messages.message_text msg.msg.channel_id text mt_default in
      let referred =
        d.messages.set_reference blank msg.msg.id msg.msg.guild_id msg.msg.channel_id false in
      let reference : MessageRef = record {
        message_id = msg.msg.id;
        channel_id = msg.msg.channel_id;
        guild_id = msg.msg.guild_id;
        fail_if_not_exists = false;
      } in
      let allowed : AllowedMentions = record {
        parse_users = false;
        parse_roles = false;
        parse_everyone = false;
        replied_user = true;
        users = msg.msg.author.id ∷ [];
        roles = [];
      } in
      let shown : d.messages.set_allowed_mentions referred false false false true
            (msg.msg.author.id ∷ []) []
          ≡ record blank { message_reference = reference; allowed_mentions = allowed } =
        rw
          (
            d.messages.set_reference_lem blank msg.msg.id msg.msg.guild_id msg.msg.channel_id false,
            d.messages.set_allowed_mentions_lem (record blank { message_reference = reference })
                false false false true (msg.msg.author.id ∷ []) [],
          )
          refl in
      (
        _,
        refl,
        record {
          says =
              ap (λ (m : Message). m.content) shown
              ∙ d.messages.message_text-content msg.msg.channel_id text mt_default;
          in_channel =
              ap (λ (m : Message). m.channel_id) shown
              ∙ d.messages.message_text-channel_id msg.msg.channel_id text mt_default;
          replies_to = ap (λ (m : Message). m.message_reference) shown;
          pings = ap (λ (m : Message). m.allowed_mentions) shown;
        },
      )

  told :
      (c : Compiler) (msg : MessageCreate) (us : List (User × GuildMember)) (s t : Bot)
      (cs : List Call)
      → tictactoe_with c msg us s ≡ some (t, cs)
      → t.ttt_list_g ≡ s.ttt_list_g
      → (t ≡ s) × Told msg us cs
  unfolding tictactoe_with bot_refusal self_refusal push_onto_list
  told c msg [] s t cs e same = (ground arith, ground arith)
  told c msg (u ∷ us) s t cs e same = elim (Bool-cases (d.users.is_bot u.0)) [
    | inl bot ↦
        let (m, sent, reply) = refusal-IsReply msg (codes "bot can't play you bruh") in
        (ground arith, (m, ground arith, inl (bot, reply)))
    | inr person ↦ elim (Bool-cases (u.0.id == msg.msg.author.id)) [
      | inl self ↦
          let (m, sent, reply) = refusal-IsReply msg (codes "hey, you can't play with yourself") in
          (ground arith, (m, ground arith, inr (person, ground arith, reply)))
      | inr other ↦
          let added : t ≡ (push_onto_list c msg.msg.author.id u.0.id s).1 = ground arith in
          absurd (no_longer s.ttt_list_g _ (sym (ap (λ (b : Bot). b.ttt_list_g) added) ∙ same))
    ]
  ]

  -- If a command `ttt` leaves the list of games as it was, it leaves the whole state as it was; if
  -- it mentions nobody it asks for nothing, and otherwise it asks for one message, in the channel
  -- of the command, a reply to it, that may ping its author and nobody else: where the first
  -- mentioned user is a bot, the message says "bot can't play you bruh", and where that user is no
  -- bot, it is the author, and the message says "hey, you can't play with yourself".
  pub unchallenged :
      (c : Compiler) (msg : MessageCreate) (s t : Bot) (cs : List Call)
      → tictactoe c msg s ≡ some (t, cs)
      → t.ttt_list_g ≡ s.ttt_list_g
      → (t ≡ s) × Told msg msg.msg.mentions cs
  unfolding tictactoe
  unchallenged c msg s t cs e same = told c msg msg.msg.mentions s t cs e same
