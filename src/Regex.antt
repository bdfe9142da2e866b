-- ===== src/Regex.antt =====
-- `std::regex_search` for the patterns that `newCommand` of main.cpp builds: `^`, escaped punctuation
-- and plain characters, in the ECMAScript grammar without the multiline option. A pattern with any
-- other construct is outside the model (`none`).
pub mod Prefix
use tintemp_plus_plus.Base.{
  ℕ, Bool, true, false, not, ◌&&◌, ◌||◌, ◌==◌, leb, if◌then◌else◌, Option, none, some, List, [],
  ◌∷◌, any,
}
use tintemp_plus_plus.Text.{Text, codes}

pub data Atom : Type 0 where
  line_start : Atom
  literal : ℕ → Atom

-- Letters, digits and `_`, which have a meaning after a backslash.
unfoldable pub is_word : ℕ → Bool
is_word c =
    (leb b'0' c && leb c b'9')
    || ((leb b'A' c && leb c b'Z') || ((leb b'a' c && leb c b'z') || (c == b'_')))

-- `^ $ \ . * + ? ( ) [ ] { } |`.
unfoldable pub is_syntax : ℕ → Bool
is_syntax c = any (λ x. x == c) (codes "^$\\.*+?()[]{}|")

abbrev pub with_atom : Atom → Option (List Atom) → Option (List Atom)
with_atom a none = none
with_atom a (some as') = some (a ∷ as')

-- A character that is not after a backslash.
unfoldable pub plain : ℕ → Option (List Atom) → Option (List Atom)
plain c rest =
    if c == b'^'
    then with_atom line_start rest
    else if is_syntax c
    then none
    else with_atom (literal c) rest

-- A character after a backslash.
unfoldable pub escaped : ℕ → Option (List Atom) → Option (List Atom)
escaped c rest = if is_word c then none else with_atom (literal c) rest

-- The atoms of a pattern; the flag says that the last character was a backslash.
unfoldable pub compile_from : Bool → Text → Option (List Atom)
compile_from true [] = none
compile_from false [] = some []
compile_from true (c ∷ s) = escaped c (compile_from false s)
compile_from false (c ∷ s) =
    let rest = compile_from (c == b'\\') s in if c == b'\\' then rest else plain c rest

unfoldable pub compile : Text → Option (List Atom)
unfolding compile_from
compile = compile_from false

-- Whether the atoms match at the head of the text; the flag says that it is the start.
unfoldable pub match_here : Bool → List Atom → Text → Bool
match_here start [] s = true
match_here start (line_start ∷ as') s = start && match_here start as' s
match_here start (literal c ∷ as') [] = false
match_here start (literal c ∷ as') (x ∷ s) = (c == x) && match_here false as' s

-- Whether they match anywhere.
unfoldable pub search_from : Bool → List Atom → Text → Bool
search_from start as' [] = match_here start as' []
search_from start as' (x ∷ s) = match_here start as' (x ∷ s) || search_from false as' s

-- `std::regex_search(text, std::regex(pattern))`.
unfoldable pub regex_search : Text → Text → Option Bool
unfolding compile search_from
regex_search text pattern = elim (compile pattern) [
  | none ↦ none
  | some as' ↦ some (search_from true as' text)
]
