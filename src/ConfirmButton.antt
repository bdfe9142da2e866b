-- ===== src/ConfirmButton.antt =====
-- `ttt::confirm_button` of tictactoe.hpp and tictactoe.cpp: the two buttons that ask the players to
-- confirm. What C++ leaves open is a parameter: the order in which arguments are evaluated, and what
-- is read where a pointer leaves a string literal.
pub mod Ids
use tintemp_plus_plus.Base.{
  ℕ, Bool, true, false, if◌then◌else◌, leb, List, [], ◌∷◌, ◌++◌, length, drop,
}
use tintemp_plus_plus.Text.{Text, codes, to_string}
use tintemp_plus_plus.Dpp.{Dpp, Message, ActionRow, Button, cot_button, cos_secondary}
use tintemp_plus_plus.UniqueId.{new_id}

pub record Compiler : Type 0 where
  -- Whether the arguments of a call are evaluated from left to right.
  pub left_first : Bool
  -- What a C string reads at `n` characters past the end of a literal, which is undefined.
  pub past_end : ℕ → Text

-- `confirm_button::status`.
pub record Status : Type 0 where
  pub is_player_1_confm : Bool
  pub is_player_2_confm : Bool
  pub replied : Bool
  pub cancelled : Bool

pub record ConfirmButton : Type 0 where
  pub id : ℕ × ℕ
  pub btn_id : Text × Text
  pub replied_msg : Message
  pub player_1 : ℕ
  pub player_2 : ℕ
  pub component : ActionRow
  pub on_button_confirm : ActionRow
  pub st : Status

abbrev pub default_status : Status
default_status = record {
  is_player_1_confm = false;
  is_player_2_confm = false;
  replied = false;
  cancelled = false;
}

-- `get_user`.
abbrev pub get_user : ConfirmButton → ℕ × ℕ
get_user c = (c.player_1, c.player_2)

-- `get_id`, `get_button_id` and `get_replied_msg`.
abbrev pub get_id : ConfirmButton → ℕ × ℕ
get_id c = c.id

abbrev pub get_button_id : ConfirmButton → Text × Text
get_button_id c = c.btn_id

abbrev pub get_replied_msg : ConfirmButton → Message
get_replied_msg c = c.replied_msg

-- `set_id`.
unfoldable pub set_id : ConfirmButton → ℕ × ℕ → ConfirmButton
set_id c nid = record c { id = nid }

abbrev pub yes_id : ℕ → Text
yes_id n = codes "confm_" ++ to_string n ++ codes "_y"

abbrev pub no_id : ℕ → Text
no_id n = codes "confm_" ++ to_string n ++ codes "_n"

-- `set_btn_id`, which prints the numbers by a `std::stringstream`.
unfoldable pub set_btn_id : ConfirmButton → ℕ × ℕ → ConfirmButton
set_btn_id c nid = record c { btn_id = (yes_id nid.0, no_id nid.1) }

-- `set_replied_msg`.
unfoldable pub set_replied_msg : ConfirmButton → Message → ConfirmButton
set_replied_msg c m = record c { replied_msg = m }

-- `"literal" + n`: the pointer `n` characters into the literal.
unfoldable pub literal_plus : Compiler → Text → ℕ → Text
literal_plus c s n = if leb n (length s) then drop n s else c.past_end n

module _ ⦃d : Dpp⦄ where
  -- The disabled button "Confirmed", with an id made by pointer arithmetic.
  unfoldable pub confirmed_button : Compiler → ℕ → Button
  confirmed_button c uid =
      d.components.set_id
        (d.components.set_disabled
          (d.components.set_style
            (d.components.set_type
              (d.components.set_label d.components.component (codes "Confirmed")) cot_button)
            cos_secondary)
          true)
        (literal_plus c (codes "no_interaction_") uid)

  -- `confirm_button::init`, on an object with the default values.
  unfoldable pub init : Compiler → ℕ → ℕ → ℕ → ℕ → ConfirmButton
  unfolding set_btn_id
  init c p1 p2 uid_y uid_n =
      set_btn_id
        (record {
          id = (uid_y, uid_n);
          btn_id = ([], []);
          replied_msg = d.messages.message;
          player_1 = p1;
          player_2 = p2;
          component = d.components.component;
          on_button_confirm =
              d.components.add_component
                (d.components.add_component d.components.component (confirmed_button c uid_y))
                (confirmed_button c uid_n);
          st = default_status;
        })
        (uid_y, uid_n)

  -- The constructor: two new ids, in the order that the compiler takes.
  unfoldable pub new_confirm_button : Compiler → ℕ → ℕ → ℕ → ConfirmButton × ℕ
  unfolding init new_id
  new_confirm_button c p1 p2 next_id =
      let (a, n1) = new_id next_id in
      let (b, n2) = new_id n1 in (if c.left_first then init c p1 p2 a b else init c p1 p2 b a, n2)
