-- ===== src/Dpp/Users.antt =====
-- dpp/user.h and dpp/guild.h: users, the members of guilds, and the member functions of `user`, as a
-- record of functions with their documented behaviour as laws.
use tintemp_plus_plus.Base.{ℕ, ◌/◌, ◌%◌, ◌==◌, ◌≡◌, Bool, List}
use tintemp_plus_plus.Text.{Text}

-- `user_flags`: the bits of `user::flags`.
pub data UserFlags : Type 0 where
  u_bot u_system u_mfa_enabled u_verified : UserFlags
  u_nitro_full u_nitro_classic u_discord_employee u_partnered_owner : UserFlags
  u_hypesquad_events u_bughunter_1 u_house_bravery u_house_brilliance : UserFlags
  u_house_balanace u_early_supporter u_team_user u_bughunter_2 : UserFlags
  u_verified_bot u_verified_bot_dev u_animated_icon u_certified_moderator : UserFlags
  u_bot_http_interactions : UserFlags

-- The value of an enumerator.
abbrev pub user_flag : UserFlags → ℕ
user_flag u_bot = 1
user_flag u_system = 2
user_flag u_mfa_enabled = 4
user_flag u_verified = 8
user_flag u_nitro_full = 16
user_flag u_nitro_classic = 32
user_flag u_discord_employee = 64
user_flag u_partnered_owner = 128
user_flag u_hypesquad_events = 256
user_flag u_bughunter_1 = 512
user_flag u_house_bravery = 1024
user_flag u_house_brilliance = 2048
user_flag u_house_balanace = 4096
user_flag u_early_supporter = 8192
user_flag u_team_user = 16384
user_flag u_bughunter_2 = 32768
user_flag u_verified_bot = 65536
user_flag u_verified_bot_dev = 131072
user_flag u_animated_icon = 262144
user_flag u_certified_moderator = 524288
user_flag u_bot_http_interactions = 1048576

-- Whether a mask has a bit, given by its value: `mask & bit`.
abbrev pub has_flag : ℕ → ℕ → Bool
has_flag mask bit = mask / bit % 2 == 1

-- `utility::iconhash`: the two halves of a picture's hash.
pub record IconHash : Type 0 where
  pub first : ℕ
  pub second : ℕ

-- `user`, with the `id` of its base `managed`.
pub record User : Type 0 where
  pub id : ℕ
  pub username : Text
  pub discriminator : ℕ
  pub avatar : IconHash
  pub flags : ℕ
  pub refcount : ℕ

-- `guild_member`: what a guild knows of a user.
pub record GuildMember : Type 0 where
  pub nickname : Text
  pub guild_id : ℕ
  pub user_id : ℕ
  pub roles : List ℕ
  pub joined_at : ℕ
  pub premium_since : ℕ
  pub flags : ℕ
  pub avatar : IconHash
  pub communication_disabled_until : ℕ

-- The member functions of `user`: each test reads its bit of the flags.
pub record UserClass : Type 0 where
  pub get_avatar_url : User → Text
  pub get_mention : User → Text
  pub is_bot : User → Bool
  pub is_system : User → Bool
  pub is_mfa_enabled : User → Bool
  pub is_verified : User → Bool
  pub has_nitro_full : User → Bool
  pub has_nitro_classic : User → Bool
  pub is_discord_employee : User → Bool
  pub is_partnered_owner : User → Bool
  pub has_hypesquad_events : User → Bool
  pub is_bughunter_1 : User → Bool
  pub is_house_bravery : User → Bool
  pub is_house_brilliance : User → Bool
  pub is_house_balanace : User → Bool
  pub is_early_supporter : User → Bool
  pub is_team_user : User → Bool
  pub is_bughunter_2 : User → Bool
  pub is_verified_bot : User → Bool
  pub is_verified_bot_dev : User → Bool
  pub is_certified_moderator : User → Bool
  pub is_bot_http_interactions : User → Bool
  pub has_animated_icon : User → Bool
  pub is_bot_lem : (u : User) → is_bot u ≡ has_flag u.flags (user_flag u_bot)
  pub is_system_lem : (u : User) → is_system u ≡ has_flag u.flags (user_flag u_system)
  pub is_mfa_enabled_lem :
      (u : User) → is_mfa_enabled u ≡ has_flag u.flags (user_flag u_mfa_enabled)
  pub is_verified_lem : (u : User) → is_verified u ≡ has_flag u.flags (user_flag u_verified)
  pub has_nitro_full_lem : (u : User) → has_nitro_full u ≡ has_flag u.flags (user_flag u_nitro_full)
  pub has_nitro_classic_lem :
      (u : User) → has_nitro_classic u ≡ has_flag u.flags (user_flag u_nitro_classic)
  pub is_discord_employee_lem :
      (u : User) → is_discord_employee u ≡ has_flag u.flags (user_flag u_discord_employee)
  pub is_partnered_owner_lem :
      (u : User) → is_partnered_owner u ≡ has_flag u.flags (user_flag u_partnered_owner)
  pub has_hypesquad_events_lem :
      (u : User) → has_hypesquad_events u ≡ has_flag u.flags (user_flag u_hypesquad_events)
  pub is_bughunter_1_lem :
      (u : User) → is_bughunter_1 u ≡ has_flag u.flags (user_flag u_bughunter_1)
  pub is_house_bravery_lem :
      (u : User) → is_house_bravery u ≡ has_flag u.flags (user_flag u_house_bravery)
  pub is_house_brilliance_lem :
      (u : User) → is_house_brilliance u ≡ has_flag u.flags (user_flag u_house_brilliance)
  pub is_house_balanace_lem :
      (u : User) → is_house_balanace u ≡ has_flag u.flags (user_flag u_house_balanace)
  pub is_early_supporter_lem :
      (u : User) → is_early_supporter u ≡ has_flag u.flags (user_flag u_early_supporter)
  pub is_team_user_lem : (u : User) → is_team_user u ≡ has_flag u.flags (user_flag u_team_user)
  pub is_bughunter_2_lem :
      (u : User) → is_bughunter_2 u ≡ has_flag u.flags (user_flag u_bughunter_2)
  pub is_verified_bot_lem :
      (u : User) → is_verified_bot u ≡ has_flag u.flags (user_flag u_verified_bot)
  pub is_verified_bot_dev_lem :
      (u : User) → is_verified_bot_dev u ≡ has_flag u.flags (user_flag u_verified_bot_dev)
  pub is_certified_moderator_lem :
      (u : User) → is_certified_moderator u ≡ has_flag u.flags (user_flag u_certified_moderator)
  pub is_bot_http_interactions_lem :
      (u : User) → is_bot_http_interactions u ≡ has_flag u.flags (user_flag u_bot_http_interactions)
  pub has_animated_icon_lem :
      (u : User) → has_animated_icon u ≡ has_flag u.flags (user_flag u_animated_icon)
