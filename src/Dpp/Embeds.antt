-- ===== src/Dpp/Embeds.antt =====
-- dpp/message.h: the parts of an embed, the embed, and its member functions, as a record of functions
-- with their documented behaviour as laws.
use tintemp_plus_plus.Base.{ℕ, ◌≤◌, ◌≡◌, Bool, Option, some, List, [], ◌∷◌, ◌++◌, length}
use tintemp_plus_plus.Text.{Text}

pub record EmbedFooter : Type 0 where
  pub text : Text
  pub icon_url : Text
  pub proxy_url : Text

-- `embed_image`: an image, a video or a thumbnail; its size is a text that Discord computes.
pub record EmbedImage : Type 0 where
  pub url : Text
  pub proxy_url : Text
  pub height : Text
  pub width : Text

pub record EmbedProvider : Type 0 where
  pub name : Text
  pub url : Text

pub record EmbedAuthor : Type 0 where
  pub name : Text
  pub url : Text
  pub icon_url : Text
  pub proxy_icon_url : Text

pub record EmbedField : Type 0 where
  pub name : Text
  pub value : Text  -- at most 1000 characters
  pub is_inline : Bool

pub record Embed : Type 0 where
  pub title : Text
  pub type : Text
  pub description : Text
  pub url : Text
  pub timestamp : ℕ
  pub color : ℕ
  pub footer : Option EmbedFooter
  pub image : Option EmbedImage
  pub thumbnail : Option EmbedImage
  pub video : Option EmbedImage
  pub provider : Option EmbedProvider
  pub author : Option EmbedAuthor
  pub fields : List EmbedField

-- The member functions of `embed_footer`.
pub record FooterClass : Type 0 where
  pub set_text : EmbedFooter → Text → EmbedFooter
  pub set_icon : EmbedFooter → Text → EmbedFooter
  pub set_proxy : EmbedFooter → Text → EmbedFooter
  pub set_text_lem : (f : EmbedFooter) (t : Text) → set_text f t ≡ record f { text = t }
  pub set_icon_lem : (f : EmbedFooter) (i : Text) → set_icon f i ≡ record f { icon_url = i }
  pub set_proxy_lem : (f : EmbedFooter) (p : Text) → set_proxy f p ≡ record f { proxy_url = p }

-- The member functions of `embed`; `set_author_by` is the `set_author` of three texts.
pub record EmbedClass : Type 0 where
  pub embed : Embed
  pub set_title : Embed → Text → Embed
  pub set_description : Embed → Text → Embed
  pub set_footer : Embed → EmbedFooter → Embed
  pub set_color : Embed → ℕ → Embed
  pub set_timestamp : Embed → ℕ → Embed
  pub set_url : Embed → Text → Embed
  pub add_field : Embed → Text → Text → Bool → Embed
  pub set_author : Embed → EmbedAuthor → Embed
  pub set_author_by : Embed → Text → Text → Text → Embed
  pub set_provider : Embed → Text → Text → Embed
  pub set_image : Embed → Text → Embed
  pub set_video : Embed → Text → Embed
  pub set_thumbnail : Embed → Text → Embed
  pub set_title_lem : (e : Embed) (text : Text) → set_title e text ≡ record e { title = text }
  pub set_description_lem :
      (e : Embed) (text : Text) → set_description e text ≡ record e { description = text }
  pub set_footer_lem : (e : Embed) (f : EmbedFooter) → set_footer e f ≡ record e { footer = some f }
  pub set_color_lem : (e : Embed) (col : ℕ) → set_color e col ≡ record e { color = col }
  pub set_timestamp_lem :
      (e : Embed) (tstamp : ℕ) → set_timestamp e tstamp ≡ record e { timestamp = tstamp }
  pub set_url_lem : (e : Embed) (url : Text) → set_url e url ≡ record e { url = url }
  pub add_field_lem :
      (e : Embed) (name value : Text) (is_inline : Bool)
      → length value ≤ 1000
      → add_field e name value is_inline ≡ record e {
        fields = e.fields ++ record { name = name; value = value; is_inline = is_inline } ∷ [];
      }
  pub set_author_lem : (e : Embed) (a : EmbedAuthor) → set_author e a ≡ record e { author = some a }
  pub set_provider_lem :
      (e : Embed) (name url : Text)
      → set_provider e name url ≡ record e { provider = some (record { name = name; url = url }) }
