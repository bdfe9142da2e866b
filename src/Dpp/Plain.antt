-- ===== src/Dpp/Plain.antt =====
-- An implementation of the library's functions by plain records, which shows that their laws can be
-- met.
mod Parts
use tintemp_plus_plus.Base.{
  ℕ, ◌≡◌, refl, Bool, true, false, if◌then◌else◌, Option, none, some, List, [], ◌∷◌, ◌++◌,
}
use tintemp_plus_plus.Text.{Text, codes, to_string}
use tintemp_plus_plus.Dpp.{
  InnerEmoji, Component, ComponentClass, cot_action_row, cot_button, cos_primary, cos_link, Embed,
  EmbedAuthor, EmbedClass, FooterClass, User, GuildMember, UserClass, has_flag, user_flag, Message,
  AllowedMentions, MessageClass, MessageParts, MessageTests, message_type, message_flag, mt_default,
  Dpp, u_animated_icon, u_bot, u_bot_http_interactions, u_bughunter_1, u_bughunter_2,
  u_certified_moderator, u_discord_employee, u_early_supporter, u_house_balanace, u_house_bravery,
  u_house_brilliance, u_hypesquad_events, u_mfa_enabled, u_nitro_classic, u_nitro_full,
  u_partnered_owner, u_system, u_team_user, u_verified, u_verified_bot, u_verified_bot_dev,
  m_crossposted, m_ephemeral, m_has_thread, m_is_crosspost, m_loading, m_source_message_deleted,
  m_suppress_embeds, m_urgent,
}
use tintemp_plus_plus.Dpp.Plain.Parts.{components, embeds, footers}

abbrev pub blank_user : User
blank_user = record {
  id = 0;
  username = [];
  discriminator = 0;
  avatar = record { first = 0; second = 0 };
  flags = 0;
  refcount = 0;
}

abbrev pub blank_member : GuildMember
blank_member = record {
  nickname = [];
  guild_id = 0;
  user_id = 0;
  roles = [];
  joined_at = 0;
  premium_since = 0;
  flags = 0;
  avatar = record { first = 0; second = 0 };
  communication_disabled_until = 0;
}

abbrev users : UserClass
users = record {
  get_avatar_url = λ u. [];
  get_mention = λ u. codes "<@" ++ to_string u.id ++ codes ">";
  is_bot = λ u. has_flag u.flags (user_flag u_bot);
  is_system = λ u. has_flag u.flags (user_flag u_system);
  is_mfa_enabled = λ u. has_flag u.flags (user_flag u_mfa_enabled);
  is_verified = λ u. has_flag u.flags (user_flag u_verified);
  has_nitro_full = λ u. has_flag u.flags (user_flag u_nitro_full);
  has_nitro_classic = λ u. has_flag u.flags (user_flag u_nitro_classic);
  is_discord_employee = λ u. has_flag u.flags (user_flag u_discord_employee);
  is_partnered_owner = λ u. has_flag u.flags (user_flag u_partnered_owner);
  has_hypesquad_events = λ u. has_flag u.flags (user_flag u_hypesquad_events);
  is_bughunter_1 = λ u. has_flag u.flags (user_flag u_bughunter_1);
  is_house_bravery = λ u. has_flag u.flags (user_flag u_house_bravery);
  is_house_brilliance = λ u. has_flag u.flags (user_flag u_house_brilliance);
  is_house_balanace = λ u. has_flag u.flags (user_flag u_house_balanace);
  is_early_supporter = λ u. has_flag u.flags (user_flag u_early_supporter);
  is_team_user = λ u. has_flag u.flags (user_flag u_team_user);
  is_bughunter_2 = λ u. has_flag u.flags (user_flag u_bughunter_2);
  is_verified_bot = λ u. has_flag u.flags (user_flag u_verified_bot);
  is_verified_bot_dev = λ u. has_flag u.flags (user_flag u_verified_bot_dev);
  is_certified_moderator = λ u. has_flag u.flags (user_flag u_certified_moderator);
  is_bot_http_interactions = λ u. has_flag u.flags (user_flag u_bot_http_interactions);
  has_animated_icon = λ u. has_flag u.flags (user_flag u_animated_icon);
  is_bot_lem = λ u. refl;
  is_system_lem = λ u. refl;
  is_mfa_enabled_lem = λ u. refl;
  is_verified_lem = λ u. refl;
  has_nitro_full_lem = λ u. refl;
  has_nitro_classic_lem = λ u. refl;
  is_discord_employee_lem = λ u. refl;
  is_partnered_owner_lem = λ u. refl;
  has_hypesquad_events_lem = λ u. refl;
  is_bughunter_1_lem = λ u. refl;
  is_house_bravery_lem = λ u. refl;
  is_house_brilliance_lem = λ u. refl;
  is_house_balanace_lem = λ u. refl;
  is_early_supporter_lem = λ u. refl;
  is_team_user_lem = λ u. refl;
  is_bughunter_2_lem = λ u. refl;
  is_verified_bot_lem = λ u. refl;
  is_verified_bot_dev_lem = λ u. refl;
  is_certified_moderator_lem = λ u. refl;
  is_bot_http_interactions_lem = λ u. refl;
  has_animated_icon_lem = λ u. refl;
}

abbrev pub no_mentions : AllowedMentions
no_mentions = record {
  parse_users = false;
  parse_everyone = false;
  parse_roles = false;
  replied_user = false;
  users = [];
  roles = [];
}

abbrev pub blank_message : Message
blank_message = record {
  id = 0;
  channel_id = 0;
  guild_id = 0;
  author = blank_user;
  member = blank_member;
  content = [];
  components = [];
  sent = 0;
  edited = 0;
  tts = false;
  mention_everyone = false;
  mentions = [];
  mention_roles = [];
  attachments = [];
  embeds = [];
  reactions = [];
  nonce = [];
  pinned = false;
  webhook_id = 0;
  flags = 0;
  stickers = [];
  filename = [];
  filecontent = [];
  type = 0;
  message_reference = record {
    message_id = 0;
    channel_id = 0;
    guild_id = 0;
    fail_if_not_exists = true;
  };
  interaction = record { id = 0; type = 0; name = []; usr = blank_user };
  allowed_mentions = no_mentions;
}

abbrev messages : MessageClass
messages = record {
  message = blank_message;
  message_text =
      λ n c t. record blank_message { channel_id = n; content = c; type = message_type t };
  message_embed = λ n e. record blank_message { channel_id = n; embeds = e ∷ [] };
  message_content = λ c t. record blank_message { content = c; type = message_type t };
  set_reference = λ m i g c f. record m {
    message_reference = record {
      message_id = i;
      channel_id = c;
      guild_id = g;
      fail_if_not_exists = f;
    };
  };
  set_allowed_mentions = λ m pu pr pe ru us rs. record m {
    allowed_mentions = record {
      parse_users = pu;
      parse_everyone = pe;
      parse_roles = pr;
      replied_user = ru;
      users = us;
      roles = rs;
    };
  };
  set_reference_lem = λ m i g c f. refl;
  set_allowed_mentions_lem = λ m pu pr pe ru us rs. refl;
  message_text-channel_id = λ n c t. refl;
  message_text-content = λ n c t. refl;
  message_embed-channel_id = λ n e. refl;
  message_embed-embeds = λ n e. refl;
}

abbrev parts : MessageParts
parts = record {
  add_component = λ m c. record m { components = m.components ++ c ∷ [] };
  add_embed = λ m e. record m { embeds = m.embeds ++ e ∷ [] };
  set_flags = λ m n. record m { flags = n };
  set_type = λ m t. record m { type = message_type t };
  set_filename = λ m t. record m { filename = t };
  set_file_content = λ m t. record m { filecontent = t };
  set_content = λ m t. record m { content = t };
  add_component_lem = λ m c. refl;
  add_embed_lem = λ m e. refl;
  set_flags_lem = λ m n. refl;
  set_type_lem = λ m t. refl;
  set_filename_lem = λ m t. refl;
  set_file_content_lem = λ m t. refl;
  set_content_lem = λ m t. refl;
}

abbrev tests : MessageTests
tests = record {
  is_crossposted = λ m. has_flag m.flags (message_flag m_crossposted);
  is_crosspost = λ m. has_flag m.flags (message_flag m_is_crosspost);
  suppress_embeds = λ m. has_flag m.flags (message_flag m_suppress_embeds);
  is_source_message_deleted = λ m. has_flag m.flags (message_flag m_source_message_deleted);
  is_urgent = λ m. has_flag m.flags (message_flag m_urgent);
  has_thread = λ m. has_flag m.flags (message_flag m_has_thread);
  is_ephemeral = λ m. has_flag m.flags (message_flag m_ephemeral);
  is_loading = λ m. has_flag m.flags (message_flag m_loading);
  is_crossposted_lem = λ m. refl;
  is_crosspost_lem = λ m. refl;
  suppress_embeds_lem = λ m. refl;
  is_source_message_deleted_lem = λ m. refl;
  is_urgent_lem = λ m. refl;
  has_thread_lem = λ m. refl;
  is_ephemeral_lem = λ m. refl;
  is_loading_lem = λ m. refl;
}

instance abbrev pub plain : Dpp
plain = record {
  components = components;
  embeds = embeds;
  footers = footers;
  users = users;
  messages = messages;
  parts = parts;
  tests = tests;
  format_int = to_string;
  format_int_lem = λ n. refl;
}
