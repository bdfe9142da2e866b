-- ===== src/Dpp/Messages.antt =====
-- dpp/message.h: reactions, attachments, stickers and the message. Of the message's fields the channels of
-- `mention_channels` and the pointer to the cluster are left out, and so are the pointers of an
-- attachment to its message.
use tintemp_plus_plus.Base.{ℕ, Bool, List}
use tintemp_plus_plus.Text.{Text}
use tintemp_plus_plus.Dpp.Components.{ActionRow}
use tintemp_plus_plus.Dpp.Embeds.{Embed}
use tintemp_plus_plus.Dpp.Users.{User, GuildMember}

-- `message_flags`: the bits of `message::flags`.
pub data MessageFlags : Type 0 where
  m_crossposted m_is_crosspost m_suppress_embeds m_source_message_deleted : MessageFlags
  m_urgent m_has_thread m_ephemeral m_loading : MessageFlags

-- The value of an enumerator.
abbrev pub message_flag : MessageFlags → ℕ
message_flag m_crossposted = 1
message_flag m_is_crosspost = 2
message_flag m_suppress_embeds = 4
message_flag m_source_message_deleted = 8
message_flag m_urgent = 16
message_flag m_has_thread = 32
message_flag m_ephemeral = 64
message_flag m_loading = 128

-- `message_type`.
pub data MessageType : Type 0 where
  mt_default mt_recipient_add : MessageType
  mt_recipient_remove mt_call : MessageType
  mt_channel_name_change mt_channel_icon_change : MessageType
  mt_channel_pinned_message mt_guild_member_join : MessageType
  mt_user_premium_guild_subscription mt_user_premium_guild_subscription_tier_1 : MessageType
  mt_user_premium_guild_subscription_tier_2 mt_user_premium_guild_subscription_tier_3 : MessageType
  mt_channel_follow_add mt_guild_discovery_disqualified : MessageType
  mt_guild_discovery_requalified mt_guild_discovery_grace_period_initial_warning : MessageType
  mt_guild_discovery_grace_period_final_warning mt_thread_created : MessageType
  mt_reply mt_application_command : MessageType
  mt_thread_starter_message mt_guild_invite_reminder : MessageType
  mt_context_menu_command : MessageType

-- The value of an enumerator.
abbrev pub message_type : MessageType → ℕ
message_type mt_default = 0
message_type mt_recipient_add = 1
message_type mt_recipient_remove = 2
message_type mt_call = 3
message_type mt_channel_name_change = 4
message_type mt_channel_icon_change = 5
message_type mt_channel_pinned_message = 6
message_type mt_guild_member_join = 7
message_type mt_user_premium_guild_subscription = 8
message_type mt_user_premium_guild_subscription_tier_1 = 9
message_type mt_user_premium_guild_subscription_tier_2 = 10
message_type mt_user_premium_guild_subscription_tier_3 = 11
message_type mt_channel_follow_add = 12
message_type mt_guild_discovery_disqualified = 14
message_type mt_guild_discovery_requalified = 15
message_type mt_guild_discovery_grace_period_initial_warning = 16
message_type mt_guild_discovery_grace_period_final_warning = 17
message_type mt_thread_created = 18
message_type mt_reply = 19
message_type mt_application_command = 20
message_type mt_thread_starter_message = 21
message_type mt_guild_invite_reminder = 22
message_type mt_context_menu_command = 23

pub record Reaction : Type 0 where
  pub count : ℕ
  pub me : Bool
  pub emoji_id : ℕ
  pub emoji_name : Text

pub record Attachment : Type 0 where
  pub id : ℕ
  pub size : ℕ
  pub filename : Text
  pub url : Text
  pub proxy_url : Text
  pub width : ℕ
  pub height : ℕ
  pub content_type : Text
  pub ephemeral : Bool

-- `sticker_type` and `sticker_format`.
pub data StickerType : Type 0 where
  st_standard st_guild : StickerType

pub data StickerFormat : Type 0 where
  sf_png sf_apng sf_lottie : StickerFormat

-- `sticker`, with the `id` of its base `managed`.
pub record Sticker : Type 0 where
  pub id : ℕ
  pub pack_id : ℕ
  pub name : Text
  pub description : Text
  pub tags : Text
  pub asset : Text
  pub type : StickerType
  pub format_type : StickerFormat
  pub available : Bool
  pub guild_id : ℕ
  pub sticker_user : User
  pub sort_value : ℕ
  pub filename : Text
  pub filecontent : Text

-- `message_ref`.
pub record MessageRef : Type 0 where
  pub message_id : ℕ
  pub channel_id : ℕ
  pub guild_id : ℕ
  pub fail_if_not_exists : Bool

-- `message_interaction_struct`.
pub record MessageInteraction : Type 0 where
  pub id : ℕ
  pub type : ℕ
  pub name : Text
  pub usr : User

-- `allowed_ref`.
pub record AllowedMentions : Type 0 where
  pub parse_users : Bool
  pub parse_everyone : Bool
  pub parse_roles : Bool
  pub replied_user : Bool
  pub users : List ℕ
  pub roles : List ℕ

-- `message`, with the `id` of its base `managed`.
pub record Message : Type 0 where
  pub id : ℕ
  pub channel_id : ℕ
  pub guild_id : ℕ
  pub author : User
  pub member : GuildMember
  pub content : Text
  pub components : List ActionRow
  pub sent : ℕ
  pub edited : ℕ
  pub tts : Bool
  pub mention_everyone : Bool
  pub mentions : List (User × GuildMember)
  pub mention_roles : List ℕ
  pub attachments : List Attachment
  pub embeds : List Embed
  pub reactions : List Reaction
  pub nonce : Text
  pub pinned : Bool
  pub webhook_id : ℕ
  pub flags : ℕ
  pub stickers : List Sticker
  pub filename : Text
  pub filecontent : Text
  pub type : ℕ
  pub message_reference : MessageRef
  pub interaction : MessageInteraction
  pub allowed_mentions : AllowedMentions
