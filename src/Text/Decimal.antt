-- ===== src/Text/Decimal.antt =====
-- The decimal form of a number determines it, and consists of digits.
use tintemp_plus_plus.Base.{
  ℕ, zero, suc, ◌+◌, ◌-◌, ◌*◌, ◌/◌, ◌%◌, ◌≤◌, ◌<◌, ◌≡◌, sym, ap, ◌∙◌, [], ◌∷◌, arith, All, length,
  Bool-cases, inl, inr, ltb,
}
use tintemp_plus_plus.Text.{Text, digits, to_string}

-- The number that a text of digits stands for, read from the left.
value : Text → ℕ → ℕ
value [] v = v
value (c ∷ s) v = value s (v * 10 + (c - b'0'))

value-digits : (f n : ℕ) (out : Text) → n < f → value (digits f n out) 0 ≡ value out n
unfolding digits value
value-digits zero n out h = absurd (omega arith)
value-digits (suc f) n out h = elim (Bool-cases (ltb n 10)) [
  | inl small ↦ rw small (ap (value out) (omega arith))
  | inr large ↦ rw large (
      value-digits f (n / 10) ((b'0' + n % 10) ∷ out) (ground arith) ∙ ap (value out) (omega arith))
]

value-to_string : (n : ℕ) → value (to_string n) 0 ≡ n
unfolding to_string value
value-to_string n = value-digits (suc n) n [] (omega arith)

pub to_string-injective : (m n : ℕ) → to_string m ≡ to_string n → m ≡ n
to_string-injective m n e = sym (value-to_string m) ∙ ap (λ s. value s 0) e ∙ value-to_string n

abbrev pub IsDigit : ℕ → Type 0
IsDigit c = (b'0' ≤ c) × (c ≤ b'9')

digits-IsDigit : (f n : ℕ) (out : Text) → All IsDigit out → All IsDigit (digits f n out)
unfolding digits
digits-IsDigit zero n out h = h
digits-IsDigit (suc f) n out h = elim (Bool-cases (ltb n 10)) [
  | inl small ↦ rw small ((omega arith, ground arith), h)
  | inr large ↦
      rw large (digits-IsDigit f (n / 10) ((b'0' + n % 10) ∷ out) ((omega arith, omega arith), h))
]

pub to_string-IsDigit : (n : ℕ) → All IsDigit (to_string n)
unfolding to_string
to_string-IsDigit n = digits-IsDigit (suc n) n [] tt

length-digits : (f n : ℕ) (out : Text) → length out < length (digits (suc f) n out)
unfolding digits
length-digits zero n out = ground arith
length-digits (suc f) n out = ground (arith, length-digits f (n / 10) ((b'0' + n % 10) ∷ out))

pub length-to_string-pos : (n : ℕ) → 0 < length (to_string n)
unfolding to_string
length-to_string-pos n = length-digits n n []
