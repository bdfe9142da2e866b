-- ===== src/Registry/Apart.antt =====
-- Games of the list that share none of their numbers and buttons, which the order of the numbers shows.
use native.Mathlib.Nat.{le_refl}
use tintemp_plus_plus.Base.{ℕ, ◌≤◌, ◌≢◌, sym, ◌∙◌, List, [], ◌∷◌, ◌++◌, All, arith}
use tintemp_plus_plus.ConfirmButton.Ids.{yes_id-injective, no_id-injective, yes_id-ne-no_id}
use tintemp_plus_plus.Registry.{Entry}
use tintemp_plus_plus.Registry.Uids.{uid_of, yes_of, no_of, Between, Numbered}

-- Two games that share none of their numbers and buttons.
pub record Apart (a b : Entry) : Type 0 where
  pub uids : uid_of a ≢ uid_of b
  pub yes_yes : yes_of a ≢ yes_of b
  pub no_no : no_of a ≢ no_of b
  pub yes_no : yes_of a ≢ no_of b
  pub no_yes : no_of a ≢ yes_of b

-- Any two games of the list are apart.
abbrev pub AllApart : List Entry → Type 0
AllApart [] = Unit {0}
AllApart (e ∷ es) = All (Apart e) es × AllApart es

Between-Apart :
    (lo mid mid' hi : ℕ) (a b : Entry)
    → Between lo a mid
    → mid ≤ mid'
    → Between mid' b hi
    → Apart a b
Between-Apart lo mid mid' hi a b p le q = record {
  uids = omega arith;
  yes_yes = λ e. absurd (omega (arith, yes_id-injective _ _ (sym p.yes_button ∙ e ∙ q.yes_button)));
  no_no = λ e. absurd (omega (arith, no_id-injective _ _ (sym p.no_button ∙ e ∙ q.no_button)));
  yes_no = λ e. yes_id-ne-no_id _ _ (sym p.yes_button ∙ e ∙ q.no_button);
  no_yes = λ e. yes_id-ne-no_id _ _ (sym q.yes_button ∙ sym e ∙ p.no_button);
}

Between-All :
    (lo mid mid' hi : ℕ) (a : Entry) (es : List Entry)
    → Between lo a mid
    → mid ≤ mid'
    → Numbered mid' es hi
    → All (Apart a) es
Between-All lo mid mid' hi a [] p le h = tt
Between-All lo mid mid' hi a (b ∷ es) p le (m, q, h) = (
  Between-Apart lo mid mid' m a b p le q,
  Between-All lo mid m hi a es p (omega (arith, q.uid_low, q.uid_high)) h,
)

-- Games that are numbered one after another are apart.
pub Numbered-AllApart : (lo : ℕ) (es : List Entry) (hi : ℕ) → Numbered lo es hi → AllApart es
Numbered-AllApart lo [] hi h = tt
Numbered-AllApart lo (e ∷ es) hi (mid, b, h) =
    (Between-All lo mid mid hi e es b (le_refl mid) h, Numbered-AllApart mid es hi h)

-- The two buttons of a listed game differ.
pub Numbered-differ :
    (lo : ℕ) (before : List Entry) (e : Entry) (after : List Entry) (hi : ℕ)
    → Numbered lo (before ++ e ∷ after) hi
    → yes_of e ≢ no_of e
Numbered-differ lo [] e after hi (mid, b, h) =
    λ same. yes_id-ne-no_id _ _ (sym b.yes_button ∙ same ∙ b.no_button)
Numbered-differ lo (x ∷ before) e after hi (mid, b, h) = Numbered-differ mid before e after hi h
