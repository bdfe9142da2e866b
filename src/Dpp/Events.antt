-- ===== src/Dpp/Events.antt =====
-- dpp/dispatcher.h, dpp/slashcommand.h and dpp/cluster.h: interactions, the events that the bot
-- handles, and what the library tells of an error.
use tintemp_plus_plus.Base.{ℕ, List}
use tintemp_plus_plus.Text.{Text}
use tintemp_plus_plus.Dpp.Users.{User, GuildMember}
use tintemp_plus_plus.Dpp.Messages.{Message}

-- `interaction_response_type`.
pub data ResponseType : Type 0 where
  ir_pong ir_channel_message_with_source ir_deferred_channel_message_with_source : ResponseType
  ir_deferred_update_message ir_update_message ir_autocomplete_reply : ResponseType

-- The value of an enumerator, which is the code of the API.
abbrev pub response_type : ResponseType → ℕ
response_type ir_pong = 1
response_type ir_channel_message_with_source = 4
response_type ir_deferred_channel_message_with_source = 5
response_type ir_deferred_update_message = 6
response_type ir_update_message = 7
response_type ir_autocomplete_reply = 8

-- `component_interaction`.
pub record ComponentInteraction : Type 0 where
  pub component_type : ℕ
  pub custom_id : Text
  pub values : List Text

-- `interaction` of a component, with the `id` of its base `managed`: `component_data` is the
-- alternative of the variant `data` that a component has; `resolved`, which commands fill, is left out.
pub record Interaction : Type 0 where
  pub id : ℕ
  pub application_id : ℕ
  pub type : ℕ
  pub component_data : ComponentInteraction
  pub guild_id : ℕ
  pub channel_id : ℕ
  pub message_id : ℕ
  pub member : GuildMember
  pub usr : User
  pub token : Text
  pub version : ℕ

-- `button_click_t`, with the field of its base `interaction_create_t`.
pub record ButtonClick : Type 0 where
  pub command : Interaction
  pub custom_id : Text
  pub component_type : ℕ

-- `message_create_t`.
pub record MessageCreate : Type 0 where
  pub msg : Message

-- `ready_t`.
pub record Ready : Type 0 where
  pub session_id : Text
  pub shard_id : ℕ

-- `error_detail` and `error_info`.
pub record ErrorDetail : Type 0 where
  pub object : Text
  pub field : Text
  pub code : Text
  pub reason : Text

pub record ErrorInfo : Type 0 where
  pub code : ℕ
  pub message : Text
  pub errors : List ErrorDetail

-- `confirmation_callback_t`: how a call ended, with an error, or with the message that it is about.
-- No other alternative of its `value` reaches the lambdas that read one.
pub data Completion : Type 0 where
  is_error : ErrorInfo → Completion
  value : Message → Completion
