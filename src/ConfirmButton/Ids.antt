-- ===== src/ConfirmButton/Ids.antt =====
-- The ids of the buttons of the confirmation.
use mathlib.Core.List.{append_cancel_left, append_cancel_right}
use native.Mathlib.Nat.{le_refl}
use tintemp_plus_plus.Base.{
  ℕ, zero, suc, sym, ap, ◌∙◌, ◌≤◌, ◌≡◌, ◌≢◌, [], ◌∷◌, ◌++◌, length, drop, length-append, arith,
}
use tintemp_plus_plus.Text.{Text, codes, to_string}
use tintemp_plus_plus.Text.Decimal.{to_string-injective, length-to_string-pos}
use tintemp_plus_plus.Text.Append.{append_last_ne}
use tintemp_plus_plus.Dpp.{Dpp}
use tintemp_plus_plus.ConfirmButton.{Compiler, yes_id, no_id, literal_plus, confirmed_button}

pub yes_id-injective : (m n : ℕ) → yes_id m ≡ yes_id n → m ≡ n
yes_id-injective m n e =
    to_string-injective m n
      (append_cancel_left (codes "confm_") _ _ (append_cancel_right _ _ (codes "_y") e))

pub no_id-injective : (m n : ℕ) → no_id m ≡ no_id n → m ≡ n
no_id-injective m n e =
    to_string-injective m n
      (append_cancel_left (codes "confm_") _ _ (append_cancel_right _ _ (codes "_n") e))

pub yes_id-ne-no_id : (m n : ℕ) → yes_id m ≢ no_id n
yes_id-ne-no_id m n =
    append_last_ne (codes "confm_" ++ to_string m) (codes "confm_" ++ to_string n) b'_' b'y' b'_'
      b'n' (omega arith)

length-drop-le : (n : ℕ) (s : Text) → length (drop n s) ≤ length s
length-drop-le zero s = le_refl (length s)
length-drop-le (suc n) [] = le_refl 0
length-drop-le (suc n) (c ∷ s) = omega (arith, length-drop-le n s)

-- A suffix of a literal is shorter than the literal with a number behind it.
drop-ne : (n : ℕ) (s : Text) → drop n s ≢ s ++ to_string n
drop-ne n s e =
    omega (
      arith,
      ap length e,
      length-drop-le n s,
      length-append s (to_string n),
      length-to_string-pos n,
    )

length-drop-le-100 : (n : ℕ) → length (drop n (codes "no_interaction_")) ≤ 100
length-drop-le-100 n = omega (arith, length-drop-le n (codes "no_interaction_"))

module _ ⦃d : Dpp⦄ where
  -- For a number up to 15, the id of the disabled button is what is left of the literal
  -- "no_interaction_" after that many characters, and not the literal followed by the number.
  pub confirmed_button_id :
      (c : Compiler) (uid : ℕ)
      → uid ≤ 15
      → ((confirmed_button c uid).custom_id ≡ drop uid (codes "no_interaction_"))
        × ((confirmed_button c uid).custom_id ≢ codes "no_interaction_" ++ to_string uid)
  unfolding confirmed_button literal_plus
  confirmed_button_id c uid h =
      (is_suffix, λ e. drop-ne uid (codes "no_interaction_") (sym is_suffix ∙ e))
    where
      inside : literal_plus c (codes "no_interaction_") uid ≡ drop uid (codes "no_interaction_")
      inside = ground arith

      is_suffix : (confirmed_button c uid).custom_id ≡ drop uid (codes "no_interaction_")
      is_suffix = rw (
        confirmed_button,
        inside,
        d.components.set_id_lem _ (drop uid (codes "no_interaction_")) (length-drop-le-100 uid),
      )
