-- ===== src/Text.antt =====
-- Text as a list of character codes, and the decimal form in which streams and `fmt` print an
-- integer (`ss << n`, `{}`), for the button ids of tictactoe.cpp and the messages of main.cpp.
use Prim.Native.Char.{code}
use Prim.Native.String.{String}
pub mod Decimal
pub mod Append
use tintemp_plus_plus.Base.{
  ℕ, zero, suc, ◌+◌, ◌/◌, ◌%◌, ◌≡◌, refl, Bool, true, false, ◌&&◌, List, [], ◌∷◌, ◌==◌, ltb,
  if◌then◌else◌,
}

abbrev pub Text : Type 0
Text = List ℕ

-- The codes of a literal.
abbrev pub codes : String → Text
codes String.[] = []
codes (String.◌∷◌ c s) = code c ∷ codes s

-- `operator==` of `std::string`.
pub text_eq : Text → Text → Bool
text_eq [] [] = true
text_eq [] (d ∷ t) = false
text_eq (c ∷ s) [] = false
text_eq (c ∷ s) (d ∷ t) = c == d && text_eq s t

-- The digits of a number in front of `out`, on fuel above the number of digits.
digits : ℕ → ℕ → Text → Text
digits zero n out = out
digits (suc f) n out =
    let more = digits f (n / 10) ((b'0' + n % 10) ∷ out) in
    if ltb n 10 then (b'0' + n) ∷ out else more

-- A number in decimal.
unfoldable pub to_string : ℕ → Text
unfolding digits
to_string n = digits (suc n) n []

to_string_test : to_string 907 ≡ codes "907"
unfolding to_string
to_string_test = refl
