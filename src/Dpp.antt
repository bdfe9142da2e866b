-- ===== src/Dpp.antt =====
-- What the bot uses of the D++ library (dependencies/include/dpp-9.0/dpp), whose headers are in the
-- repository and whose function bodies are not: its types, with the fields that the headers declare,
-- and its member functions, as a parameter of the model with the documented behaviour as laws.
pub mod Components
pub mod Embeds
pub mod Users
pub mod Messages
pub mod MessageCalls
pub mod Events
pub mod Router
pub mod Plain
pub use Components.*
pub use Embeds.*
pub use Users.*
pub use Messages.*
pub use MessageCalls.*
pub use Events.*
use tintemp_plus_plus.Base.{ℕ, ◌≡◌}
use tintemp_plus_plus.Text.{Text, to_string}

-- The functions of the classes, and `fmt`, which prints an integer in decimal.
pub record Dpp : Type 1 where
  pub components : ComponentClass
  pub embeds : EmbedClass
  pub footers : FooterClass
  pub users : UserClass
  pub messages : MessageClass
  pub parts : MessageParts
  pub tests : MessageTests
  pub format_int : ℕ → Text
  pub format_int_lem : (n : ℕ) → format_int n ≡ to_string n
