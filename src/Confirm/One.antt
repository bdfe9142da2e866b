-- ===== src/Confirm/One.antt =====
-- `on_confirm_click` for a click on a button of one of the listed games: the loop passes the others.
use tintemp_plus_plus.Base.{
  ℕ, ◌≡◌, ◌⊎◌, sym, ◌∙◌, false, if◌then◌else◌, List, [], ◌∷◌, ◌++◌, some, inl, inr, All, any,
}
use tintemp_plus_plus.Dpp.{Dpp, ButtonClick}
use tintemp_plus_plus.Registry.{Entry, Bot}
use tintemp_plus_plus.Registry.Uids.{yes_of, no_of}
use tintemp_plus_plus.Registry.Apart.{Apart, AllApart}
use tintemp_plus_plus.Bot.{Call, goes_on, returns, resume, entry_line, run_loop}
use tintemp_plus_plus.Bot.Lines.{entered_one}
use tintemp_plus_plus.Confirm.{not_your_button, visit, visit_all, confirm_text, on_confirm_click}
use tintemp_plus_plus.Confirm.Elsewhere.{
  IsElsewhere, is_stranger, visit-IsElsewhere, visit_all-IsElsewhere,
}

-- The button of the click is one of the two of this game.
abbrev pub OneOf : ButtonClick → Entry → Type 0
OneOf click e = (click.custom_id ≡ yes_of e) ⊎ (click.custom_id ≡ no_of e)

Apart-IsElsewhere :
    (click : ButtonClick) (x e : Entry) → OneOf click e → Apart x e → IsElsewhere click x
Apart-IsElsewhere click x e (inl yes') a = record {
  not_yes = λ same. a.yes_yes (sym same ∙ yes');
  not_no = λ same. a.no_yes (sym same ∙ yes');
}
Apart-IsElsewhere click x e (inr no') a = record {
  not_yes = λ same. a.yes_no (sym same ∙ no');
  not_no = λ same. a.no_no (sym same ∙ no');
}

Apart-sym : (a b : Entry) → Apart a b → Apart b a
Apart-sym a b h = record {
  uids = λ e. h.uids (sym e);
  yes_yes = λ e. h.yes_yes (sym e);
  no_no = λ e. h.no_no (sym e);
  yes_no = λ e. h.no_yes (sym e);
  no_yes = λ e. h.yes_no (sym e);
}

All-middle :
    (P : Entry → Type 0) (xs : List Entry) (y : Entry) (ys : List Entry)
    → All P (xs ++ y ∷ ys)
    → P y
All-middle P [] y ys (p, h) = p
All-middle P (x ∷ xs) y ys (p, h) = All-middle P xs y ys h

-- The button of one game is no button of a game before it, nor of a game after it.
pub before-IsElsewhere :
    (click : ButtonClick) (before : List Entry) (e : Entry) (after : List Entry)
    → OneOf click e
    → AllApart (before ++ e ∷ after)
    → All (IsElsewhere click) before
before-IsElsewhere click [] e after one h = tt
before-IsElsewhere click (x ∷ before) e after one (apart, h) = (
  Apart-IsElsewhere click x e one (All-middle (Apart x) before e after apart),
  before-IsElsewhere click before e after one h,
)

pub after-IsElsewhere :
    (click : ButtonClick) (before : List Entry) (e : Entry) (after : List Entry)
    → OneOf click e
    → AllApart (before ++ e ∷ after)
    → All (IsElsewhere click) after
after-IsElsewhere click (x ∷ before) e after one (_, h) =
    after-IsElsewhere click before e after one h
after-IsElsewhere click [] e after one (apart, h) = each after apart
  where
    each : (ys : List Entry) → All (Apart e) ys → All (IsElsewhere click) ys
    each [] h = tt
    each (y ∷ ys) (a, h) = (Apart-IsElsewhere click y e one (Apart-sym e y a), each ys h)

module _ ⦃d : Dpp⦄ where
  -- "that's not your button!", if some game of the list has other players.
  abbrev pub refusals : ButtonClick → List Entry → List Call
  refusals click es = if any (is_stranger click) es then not_your_button click ∷ [] else []

  pub visit_all-goes_on :
      (click : ButtonClick) (before : List Entry) (e e' : Entry) (after : List Entry) (n m : ℕ)
      (cs : List Call)
      → All (IsElsewhere click) before
      → All (IsElsewhere click) after
      → All (λ x. is_stranger click x ≡ false) before
      → visit click e n ≡ goes_on e' m cs
      → visit_all click (before ++ e ∷ after) n
        ≡ some (before ++ e' ∷ after, m, cs ++ refusals click after)
  unfolding visit_all resume
  visit_all-goes_on click [] e e' after n m cs p q ours h =
      rw (h, visit_all-IsElsewhere click after m q)
  visit_all-goes_on click (x ∷ before) e e' after n m cs (px, p) q (our, ours) h = rw (
    visit-IsElsewhere click x n px,
    our,
    visit_all-goes_on click before e e' after n m cs p q ours h,
  )

  pub visit_all-returns :
      (click : ButtonClick) (before : List Entry) (e e' : Entry) (after : List Entry) (n m : ℕ)
      (cs : List Call)
      → All (IsElsewhere click) before
      → All (λ x. is_stranger click x ≡ false) before
      → visit click e n ≡ returns e' m cs
      → visit_all click (before ++ e ∷ after) n ≡ some (before ++ e' ∷ after, m, cs)
  unfolding visit_all resume
  visit_all-returns click [] e e' after n m cs p ours h = rw h
  visit_all-returns click (x ∷ before) e e' after n m cs (px, p) (our, ours) h = rw (
    visit-IsElsewhere click x n px,
    our,
    visit_all-returns click before e e' after n m cs p ours h,
  )

  -- A click on a button of the game `e`.
  pub handled :
      (click : ButtonClick) (s : Bot) (before : List Entry) (e : Entry) (after : List Entry)
      {fs : List Entry} {n : ℕ} {cs : List Call}
      → s.ttt_list_g ≡ before ++ e ∷ after
      → visit_all click (before ++ e ∷ after) s.next_id ≡ some (fs, n, cs)
      → on_confirm_click click s
        ≡ some (record { next_id = n; ttt_list_g = fs }, entry_line confirm_text ∷ cs)
  unfolding on_confirm_click run_loop
  handled click s before e after same h =
      rw (same, h, run_loop, same, entered_one confirm_text before e after)

  pub unchanged :
      (click : ButtonClick) (s : Bot) (before : List Entry) (e : Entry) (after : List Entry)
      → s.ttt_list_g ≡ before ++ e ∷ after
      → visit_all click (before ++ e ∷ after) s.next_id ≡ some (before ++ e ∷ after, s.next_id, [])
      → on_confirm_click click s ≡ some (s, entry_line confirm_text ∷ [])
  unfolding on_confirm_click run_loop
  unchanged click s before e after same h =
      rw (same, h, run_loop, same, entered_one confirm_text before e after)
