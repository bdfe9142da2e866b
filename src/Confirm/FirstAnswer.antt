-- ===== src/Confirm/FirstAnswer.antt =====
-- The state of a challenge before and after the first answer.
use tintemp_plus_plus.Base.{
  ℕ, ◌≡◌, ◌≢◌, ◌⊎◌, true, false, List, [], Option, none, some, arith, ◌==◌, if◌then◌else◌, inl, inr,
}
use tintemp_plus_plus.Dpp.{ButtonClick, Embed}
use tintemp_plus_plus.Ttt.{Ttt}
use tintemp_plus_plus.Game.Plays.{IsFresh}
use tintemp_plus_plus.Registry.{Entry}
use tintemp_plus_plus.Registry.Uids.{yes_of, no_of}
use tintemp_plus_plus.Bot.{Visit, goes_on, returns, undefined}
use tintemp_plus_plus.Confirm.{player_of, confirm, own_confm, other_confm}
use tintemp_plus_plus.Confirm.Answers.{Presses}

abbrev pub after : Visit → Option (Entry × ℕ)
after (goes_on e n cs) = some (e, n)
after (returns e n cs) = some (e, n)
after undefined = none

abbrev pub other : ℕ → ℕ
other player = if player == 1 then 2 else 1

-- The game after the first answer: its players and buttons are as they were, the flag of the one who
-- answered is set, and there is a first embed in its first message.
pub record FirstAnswered (player : ℕ) (e e' : Entry) : Type 0 where
  pub same_1 : e'.second.player_1 ≡ e.second.player_1
  pub same_2 : e'.second.player_2 ≡ e.second.player_2
  pub same_buttons : e'.second.btn_id ≡ e.second.btn_id
  pub same_first : e'.first.player_1 ≡ e.first.player_1
  pub not_own : own_confm (other player) e'.second.st ≡ false
  pub by_other : other_confm (other player) e'.second.st ≡ true
  pub embeds : ◌≢◌ {A = List Embed} e'.first.origin.embeds []
  pub keeps_fresh : IsFresh e.first → IsFresh e'.first

pub confirmed :
    (player : ℕ) (e : Entry) (t : Ttt)
    → (player ≡ 1) ⊎ (player ≡ 2)
    → own_confm player e.second.st ≡ false
    → other_confm player e.second.st ≡ false
    → t.player_1 ≡ e.first.player_1
    → t.origin.embeds ≢ []
    → (IsFresh e.first → IsFresh t)
    → FirstAnswered player e (record (confirm player e) { first = t })
unfolding confirm
confirmed player e t which own others same embeds keeps = record {
  same_1 = ground arith;
  same_2 = ground arith;
  same_buttons = ground arith;
  same_first = same;
  not_own = ground arith;
  by_other = ground arith;
  embeds = embeds;
  keeps_fresh = keeps;
}

-- A challenge that nobody has answered, after its first message was posted.
pub record Unanswered (e : Entry) : Type 0 where
  pub buttons_differ : yes_of e ≢ no_of e
  pub new_1 : e.second.st.is_player_1_confm ≡ false
  pub new_2 : e.second.st.is_player_2_confm ≡ false
  pub some_embed : ◌≢◌ {A = List Embed} e.first.origin.embeds []

pub own_new : (player : ℕ) (e : Entry) → Unanswered e → own_confm player e.second.st ≡ false
own_new player e h = ground (arith, h.new_1, h.new_2)

pub other_new : (player : ℕ) (e : Entry) → Unanswered e → other_confm player e.second.st ≡ false
other_new player e h = ground (arith, h.new_1, h.new_2)

pub other_confirm :
    (player : ℕ) (e : Entry)
    → (player ≡ 1) ⊎ (player ≡ 2)
    → other_confm player e.second.st ≡ false
    → other_confm player (confirm player e).second.st ≡ false
unfolding confirm
other_confirm player e which others = ground arith

pub confirm-other :
    (player : ℕ) (e : Entry)
    → (player ≡ 1) ⊎ (player ≡ 2)
    → other_confm player (confirm player e).second.st ≡ other_confm player e.second.st
unfolding confirm
confirm-other player e which = ground arith

pub other_number :
    (player : ℕ) → (player ≡ 1) ⊎ (player ≡ 2) → (other player ≡ 1) ⊎ (other player ≡ 2)
other_number player (inl one) = inr (rw one)
other_number player (inr two) = inl (rw two)

pub same_player :
    (click : ButtonClick) (e e' : Entry) (player : ℕ)
    → e'.second.player_1 ≡ e.second.player_1
    → e'.second.player_2 ≡ e.second.player_2
    → Presses click e player
    → Presses click e' player
unfolding player_of
same_player click e e' player same_1 same_2 h = ground arith

pub a_number : (player : ℕ) → (player ≡ 1) ⊎ (player ≡ 2) → player ≢ 0
a_number player which = ground arith

pub confirm_first : (player : ℕ) (e : Entry) → (confirm player e).first ≡ e.first
unfolding confirm
confirm_first player e = ground arith

pub confirm_btn_id : (player : ℕ) (e : Entry) → (confirm player e).second.btn_id ≡ e.second.btn_id
unfolding confirm
confirm_btn_id player e = ground arith
