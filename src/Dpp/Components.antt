-- ===== src/Dpp/Components.antt =====
-- dpp/message.h: components of a message, which are rows of buttons, and the member functions of
-- `component`, whose bodies are in the library that the bot links: they are a record of functions, with
-- the behaviour that the header documents as its laws.
use Prim.{⊥}
use tintemp_plus_plus.Base.{ℕ, ◌≤◌, ◌≡◌, Bool, false, Option, some, List, [], ◌∷◌, ◌++◌, length}
use tintemp_plus_plus.Text.{Text}

-- `component_type`.
pub data ComponentType : Type 0 where
  cot_action_row cot_button cot_selectmenu : ComponentType

-- `component_style`.
pub data ComponentStyle : Type 0 where
  cos_primary cos_secondary cos_success cos_danger cos_link : ComponentStyle

-- `inner_select_emoji` and `inner_emoji`: the emoji of an option and of a component.
pub record InnerEmoji : Type 0 where
  pub name : Text
  pub id : ℕ
  pub animated : Bool

pub record SelectOption : Type 0 where
  pub label : Text
  pub value : Text
  pub description : Text
  pub is_default : Bool
  pub emoji : InnerEmoji

-- `component`, by the type of the components below it. The source's class holds components of its own
-- type; Discord has two levels of them, a row and its buttons.
pub record Component (S : Type 0) : Type 0 where
  pub type : ComponentType
  pub components : List S
  pub label : Text  -- at most 80 characters
  pub style : ComponentStyle
  pub custom_id : Text  -- at most 100 characters
  pub url : Text  -- at most 512 characters
  pub placeholder : Text
  pub min_values : Option ℕ  -- `none` for the -1 that stands for "not set"
  pub max_values : Option ℕ
  pub options : List SelectOption
  pub disabled : Bool
  pub emoji : InnerEmoji

-- A component with nothing below it, and a component that holds such.
abbrev pub Button : Type 0
Button = Component ⊥

abbrev pub ActionRow : Type 0
ActionRow = Component Button

-- The member functions of `component`. A function that takes a text of bounded length is described
-- for texts within the bound only.
pub record ComponentClass : Type 1 where
  pub component : {S : Type 0} → Component S
  pub set_type : {S : Type 0} → Component S → ComponentType → Component S
  pub set_label : {S : Type 0} → Component S → Text → Component S
  pub set_url : {S : Type 0} → Component S → Text → Component S
  pub set_style : {S : Type 0} → Component S → ComponentStyle → Component S
  pub set_id : {S : Type 0} → Component S → Text → Component S
  pub set_disabled : {S : Type 0} → Component S → Bool → Component S
  pub set_placeholder : {S : Type 0} → Component S → Text → Component S
  pub set_min_values : {S : Type 0} → Component S → ℕ → Component S
  pub set_max_values : {S : Type 0} → Component S → ℕ → Component S
  pub add_select_option : {S : Type 0} → Component S → SelectOption → Component S
  pub add_component : {S : Type 0} → Component S → S → Component S
  pub set_emoji : {S : Type 0} → Component S → Text → ℕ → Bool → Component S
  pub component-components : {S : Type 0} → (component {S = S}).components ≡ []
  pub component-disabled : {S : Type 0} → (component {S = S}).disabled ≡ false
  pub set_type_lem :
      {S : Type 0} (c : Component S) (ct : ComponentType) → set_type c ct ≡ record c { type = ct }
  pub set_label_lem :
      {S : Type 0} (c : Component S) (label : Text)
      → length label ≤ 80
      → set_label c label ≡ record c { label = label; type = cot_button }
  pub set_url_lem :
      {S : Type 0} (c : Component S) (url : Text)
      → length url ≤ 512
      → set_url c url ≡ record c { url = url; style = cos_link; type = cot_button }
  pub set_style_lem :
      {S : Type 0} (c : Component S) (cs : ComponentStyle)
      → set_style c cs ≡ record c { style = cs; type = cot_button }
  pub set_id_lem :
      {S : Type 0} (c : Component S) (id : Text)
      → length id ≤ 100
      → set_id c id ≡ record c { custom_id = id; type = cot_button }
  pub set_disabled_lem :
      {S : Type 0} (c : Component S) (disable : Bool)
      → set_disabled c disable ≡ record c { disabled = disable }
  pub set_placeholder_lem :
      {S : Type 0} (c : Component S) (placeholder : Text)
      → (set_placeholder c placeholder).placeholder ≡ placeholder
  pub set_min_values_lem :
      {S : Type 0} (c : Component S) (n : ℕ) → (set_min_values c n).min_values ≡ some n
  pub set_max_values_lem :
      {S : Type 0} (c : Component S) (n : ℕ) → (set_max_values c n).max_values ≡ some n
  pub add_select_option_lem :
      {S : Type 0} (c : Component S) (option : SelectOption)
      → (add_select_option c option).options ≡ c.options ++ option ∷ []
  pub add_component_lem :
      {S : Type 0} (c : Component S) (sub : S)
      → add_component c sub
        ≡ record c { components = c.components ++ sub ∷ []; type = cot_action_row }
  pub set_emoji_lem :
      {S : Type 0} (c : Component S) (name : Text) (id : ℕ) (animated : Bool)
      → set_emoji c name id animated ≡ record c {
        emoji = record { name = name; id = id; animated = animated };
        type = cot_button;
      }
