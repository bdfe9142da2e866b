-- ===== src/Logger/Plain.antt =====
-- An implementation of the formatting functions without colours, which shows that their laws can be met.
use tintemp_plus_plus.Base.{
  ℕ, ◌≡◌, ◌≢◌, refl, ◌&&◌, ◌==◌, if◌then◌else◌, List, [], ◌∷◌, ◌++◌, arith,
}
use tintemp_plus_plus.Text.{Text, codes}
use tintemp_plus_plus.Logger.{Fmt, Loglevel, trace, debug, info, warning, error, critical}

abbrev loglevel_name : Loglevel → Text
loglevel_name trace = codes "TRACE"
loglevel_name debug = codes "DEBUG"
loglevel_name info = codes "INFO"
loglevel_name warning = codes "WARNING"
loglevel_name error = codes "ERROR"
loglevel_name critical = codes "CRITICAL"

-- The text after a field, with the arguments that are left.
unfoldable pub fill : Text → List Text → Text
fill [] args = []
fill (c ∷ []) args = c ∷ []
fill (c ∷ x ∷ s) [] = c ∷ fill (x ∷ s) []
fill (c ∷ x ∷ s) (a ∷ args) =
    let after_field = a ++ fill s args in
    let after_char = c ∷ fill (x ∷ s) (a ∷ args) in
    if (c == b'{') && (x == b'}') then after_field else after_char

pub fill-nil : (args : List Text) → fill [] args ≡ []
unfolding fill
fill-nil args = refl

pub fill-field :
    (s a : Text) (args : List Text) → fill (b'{' ∷ b'}' ∷ s) (a ∷ args) ≡ a ++ fill s args
unfolding fill
fill-field s a args = refl

pub fill-char :
    (c : ℕ) (s : Text) (args : List Text)
    → c ≢ b'{'
    → c ≢ b'}'
    → fill (c ∷ s) args ≡ c ∷ fill s args
unfolding fill
fill-char c [] args p q = refl
fill-char c (x ∷ s) [] p q = refl
fill-char c (x ∷ s) (a ∷ args) p q = ground arith

instance abbrev pub colourless : Fmt
colourless = record {
  styled = λ s t. t;
  loglevel = loglevel_name;
  format = fill;
  format-nil = fill-nil;
  format-field = fill-field;
  format-char = fill-char;
}
