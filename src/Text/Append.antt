-- ===== src/Text/Append.antt =====
-- Equality of texts, and of texts with a common beginning or end.
use tintemp_plus_plus.Base.{ℕ, ◌≡◌, ◌≢◌, sym, ap, ◌∙◌, ◌↔◌, true, refl, [], ◌∷◌, ◌++◌, arith}
use tintemp_plus_plus.Text.{Text, text_eq}

pub text_eq→eq : (s t : Text) → text_eq s t ≡ true → s ≡ t
unfolding text_eq
text_eq→eq [] [] h = refl
text_eq→eq [] (d ∷ t) h = cc
text_eq→eq (c ∷ s) [] h = cc
text_eq→eq (c ∷ s) (d ∷ t) h = ground (arith, text_eq→eq s t)

pub text_eq_refl : (s : Text) → text_eq s s ≡ true
unfolding text_eq
text_eq_refl [] = refl
text_eq_refl (c ∷ s) = ground (arith, text_eq_refl s)

pub text_eq_iff : (s t : Text) → (text_eq s t ≡ true) ↔ (s ≡ t)
text_eq_iff s t = (text_eq→eq s t, λ e. rw e (text_eq_refl t))

last : Text → ℕ
last [] = 0
last (c ∷ []) = c
last (c ∷ d ∷ s) = last (d ∷ s)

last-append : (s : Text) (a b : ℕ) → last (s ++ a ∷ b ∷ []) ≡ b
unfolding last
last-append [] a b = refl
last-append (c ∷ []) a b = refl
last-append (c ∷ d ∷ s) a b = last-append (d ∷ s) a b

-- Texts with different last characters differ.
pub append_last_ne : (s t : Text) (a b c d : ℕ) → b ≢ d → s ++ a ∷ b ∷ [] ≢ t ++ c ∷ d ∷ []
append_last_ne s t a b c d h e = h (sym (last-append s a b) ∙ ap last e ∙ last-append t c d)
