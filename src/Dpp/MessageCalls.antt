-- ===== src/Dpp/MessageCalls.antt =====
-- dpp/message.h: the member functions of `message`, as records of functions with their documented
-- behaviour as laws.
use tintemp_plus_plus.Base.{ℕ, ◌≡◌, Bool, List, [], ◌∷◌, ◌++◌}
use tintemp_plus_plus.Text.{Text}
use tintemp_plus_plus.Dpp.Components.{ActionRow}
use tintemp_plus_plus.Dpp.Embeds.{Embed}
use tintemp_plus_plus.Dpp.Users.{has_flag}
use tintemp_plus_plus.Dpp.Messages.{
  Message, MessageType, message_type, message_flag, m_crossposted, m_is_crosspost,
  m_suppress_embeds, m_source_message_deleted, m_urgent, m_has_thread, m_ephemeral, m_loading,
}

-- The constructors of `message` (one without arguments, one of a channel and a text, one of a channel
-- and an embed, one of a text) and the functions that set its parts.
pub record MessageClass : Type 0 where
  pub message : Message
  pub message_text : ℕ → Text → MessageType → Message
  pub message_embed : ℕ → Embed → Message
  pub message_content : Text → MessageType → Message
  pub set_reference : Message → ℕ → ℕ → ℕ → Bool → Message
  pub set_allowed_mentions : Message → Bool → Bool → Bool → Bool → List ℕ → List ℕ → Message
  pub set_reference_lem :
      (m : Message) (message_id guild_id channel_id : ℕ) (fail : Bool)
      → set_reference m message_id guild_id channel_id fail ≡ record m {
        message_reference = record {
          message_id = message_id;
          channel_id = channel_id;
          guild_id = guild_id;
          fail_if_not_exists = fail;
        };
      }
  pub set_allowed_mentions_lem :
      (m : Message) (parse_users parse_roles parse_everyone replied_user : Bool)
      (users roles : List ℕ)
      → set_allowed_mentions m parse_users parse_roles parse_everyone replied_user users roles
        ≡ record m {
          allowed_mentions = record {
            parse_users = parse_users;
            parse_everyone = parse_everyone;
            parse_roles = parse_roles;
            replied_user = replied_user;
            users = users;
            roles = roles;
          };
        }
  pub message_text-channel_id :
      (channel : ℕ) (content : Text) (t : MessageType)
      → (message_text channel content t).channel_id ≡ channel
  pub message_text-content :
      (channel : ℕ) (content : Text) (t : MessageType)
      → (message_text channel content t).content ≡ content
  pub message_embed-channel_id :
      (channel : ℕ) (e : Embed) → (message_embed channel e).channel_id ≡ channel
  pub message_embed-embeds : (channel : ℕ) (e : Embed) → (message_embed channel e).embeds ≡ e ∷ []

-- The functions that add to a message or set a field of it.
pub record MessageParts : Type 0 where
  pub add_component : Message → ActionRow → Message
  pub add_embed : Message → Embed → Message
  pub set_flags : Message → ℕ → Message
  pub set_type : Message → MessageType → Message
  pub set_filename : Message → Text → Message
  pub set_file_content : Message → Text → Message
  pub set_content : Message → Text → Message
  pub add_component_lem :
      (m : Message) (c : ActionRow)
      → add_component m c ≡ record m { components = m.components ++ c ∷ [] }
  pub add_embed_lem :
      (m : Message) (e : Embed) → add_embed m e ≡ record m { embeds = m.embeds ++ e ∷ [] }
  pub set_flags_lem : (m : Message) (f : ℕ) → set_flags m f ≡ record m { flags = f }
  pub set_type_lem :
      (m : Message) (t : MessageType) → set_type m t ≡ record m { type = message_type t }
  pub set_filename_lem : (m : Message) (fn : Text) → set_filename m fn ≡ record m { filename = fn }
  pub set_file_content_lem :
      (m : Message) (fc : Text) → set_file_content m fc ≡ record m { filecontent = fc }
  pub set_content_lem : (m : Message) (c : Text) → set_content m c ≡ record m { content = c }

-- The tests of a message's flags.
pub record MessageTests : Type 0 where
  pub is_crossposted : Message → Bool
  pub is_crosspost : Message → Bool
  pub suppress_embeds : Message → Bool
  pub is_source_message_deleted : Message → Bool
  pub is_urgent : Message → Bool
  pub has_thread : Message → Bool
  pub is_ephemeral : Message → Bool
  pub is_loading : Message → Bool
  pub is_crossposted_lem :
      (m : Message) → is_crossposted m ≡ has_flag m.flags (message_flag m_crossposted)
  pub is_crosspost_lem :
      (m : Message) → is_crosspost m ≡ has_flag m.flags (message_flag m_is_crosspost)
  pub suppress_embeds_lem :
      (m : Message) → suppress_embeds m ≡ has_flag m.flags (message_flag m_suppress_embeds)
  pub is_source_message_deleted_lem :
      (m : Message)
      → is_source_message_deleted m ≡ has_flag m.flags (message_flag m_source_message_deleted)
  pub is_urgent_lem : (m : Message) → is_urgent m ≡ has_flag m.flags (message_flag m_urgent)
  pub has_thread_lem : (m : Message) → has_thread m ≡ has_flag m.flags (message_flag m_has_thread)
  pub is_ephemeral_lem :
      (m : Message) → is_ephemeral m ≡ has_flag m.flags (message_flag m_ephemeral)
  pub is_loading_lem : (m : Message) → is_loading m ≡ has_flag m.flags (message_flag m_loading)
