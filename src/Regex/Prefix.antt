-- ===== src/Regex/Prefix.antt =====
-- The pattern of a command, `^\`, a punctuation character and a name, finds the messages that start
-- with the character and the name.
use tintemp_plus_plus.Base.{
  ==_ne, ℕ, ◌≡◌, ◌≢◌, refl, ap, ◌∙◌, Bool, true, false, ◌&&◌, ◌||◌, ◌==◌, some, List, [], ◌∷◌, All,
  map,
}
use tintemp_plus_plus.Text.{Text}
use tintemp_plus_plus.Regex.{
  Atom, line_start, literal, is_word, is_syntax, plain, escaped, compile_from, compile, match_here,
  search_from, regex_search,
}

unfoldable pub starts_with : Text → Text → Bool
starts_with [] s = true
starts_with (c ∷ w) [] = false
starts_with (c ∷ w) (x ∷ s) = (c == x) && starts_with w s

-- A name of characters with no meaning of their own.
abbrev pub IsName : Text → Type 0
IsName name = All (λ c. (is_syntax c ≡ false) × (c ≢ b'^') × (c ≢ b'\\')) name

or_false : (b : Bool) → (b || false) ≡ b
or_false true = refl
or_false false = refl

compile_name : (name : Text) → IsName name → compile_from false name ≡ some (map literal name)
unfolding compile_from plain
compile_name [] h = refl
compile_name (c ∷ s) ((ordinary, caret, backslash), h) =
    rw (==_ne c b'\\' backslash, compile_name s h, ==_ne c b'^' caret, ordinary)

match_name :
    (start : Bool) (name s : Text) → match_here start (map literal name) s ≡ starts_with name s
unfolding match_here starts_with
match_name start [] s = refl
match_name start (c ∷ w) [] = refl
match_name start (c ∷ w) (x ∷ s) = rw (match_name false w s)

search_later : (as' : List Atom) (s : Text) → search_from false (line_start ∷ as') s ≡ false
unfolding search_from match_here
search_later as' [] = refl
search_later as' (x ∷ s) = search_later as' s

search_start :
    (as' : List Atom) (s : Text) → search_from true (line_start ∷ as') s ≡ match_here true as' s
unfolding search_from match_here
search_start as' [] = refl
search_start as' (x ∷ s) = rw (search_later as' s) (or_false _)

compile_prefix :
    (p : ℕ) (name : Text)
    → is_word p ≡ false
    → IsName name
    → compile (b'^' ∷ b'\\' ∷ p ∷ name) ≡ some (line_start ∷ map literal (p ∷ name))
unfolding compile compile_from escaped plain
compile_prefix p name punctuation h = rw (punctuation, compile_name name h)

-- For an escaped character that is no letter, digit or `_`, and a name, the search of a command's
-- pattern finds exactly the texts that start with the character and the name.
pub regex_search_prefix :
    (content : Text) (p : ℕ) (name : Text)
    → is_word p ≡ false
    → IsName name
    → regex_search content (b'^' ∷ b'\\' ∷ p ∷ name) ≡ some (starts_with (p ∷ name) content)
unfolding regex_search starts_with
regex_search_prefix content p name punctuation h =
    rw (compile_prefix p name punctuation h, regex_search)
      (ap some
        (search_start (literal p ∷ map literal name) content ∙ match_name true (p ∷ name) content))
