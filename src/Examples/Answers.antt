-- ===== src/Examples/Answers.antt =====
-- Answers to the second of two challenges of which Bob plays in both, and a callback without a game.
use tintemp_plus_plus.Base.{
  ◌≡◌, ◌≢◌, ◌↔◌, refl, true, false, any, map, List, [], ◌∷◌, ◌++◌, some, none, arith, inl, inr,
}
use tintemp_plus_plus.Text.{codes}
use tintemp_plus_plus.Dpp.{Embed, ErrorInfo, ir_channel_message_with_source}
use tintemp_plus_plus.Dpp.Plain.{plain, blank_message}
use tintemp_plus_plus.Board.{init_board, x_mark}
use tintemp_plus_plus.Render.{mention}
use tintemp_plus_plus.Registry.{Entry, Bot, new_entry}
use tintemp_plus_plus.Registry.Uids.{uid_of, yes_of, no_of, Between, Numbered}
use tintemp_plus_plus.Bot.{
  Call, LogLine, log, entry_line, result_deployed, turn_replied, reply_text, message_edit, log_only,
  decline_shown, confirm_replied,
}
use tintemp_plus_plus.Callbacks.{complete, value, is_error}
use tintemp_plus_plus.Callbacks.{reasons, logs}
use tintemp_plus_plus.Callbacks.Reported.{error_line, failures_are_reported}
use tintemp_plus_plus.Callbacks.Dangling.{Dangles, complete_undefined_iff}
use tintemp_plus_plus.Confirm.{
  confirm_text, player_of, confirm, own_confm, cancelled_embed, on_confirm_click,
}
use tintemp_plus_plus.Confirm.Elsewhere.{is_stranger}
use tintemp_plus_plus.Confirm.Unposted.{answered_too_soon}
use tintemp_plus_plus.Confirm.Yes.{on_confirm_click_yes}
use tintemp_plus_plus.Confirm.Twice.{answered_twice}
use tintemp_plus_plus.Confirm.No.{on_confirm_click_no}
use tintemp_plus_plus.Examples.Rounds.{second_Between}
use tintemp_plus_plus.Examples.{bob, answer, posted_entry, second_entry, with_embed}

abbrev second_posted : Entry
second_posted = record second_entry {
  first = record (second_entry.first) { origin = with_embed; have_origin = true };
}

abbrev two_challenges : Bot
two_challenges = record { next_id = 6; ttt_list_g = posted_entry ∷ second_posted ∷ [] }

posted-Between : Between 0 posted_entry 3
unfolding new_entry
posted-Between = record {
  uid_low = omega arith;
  uid_high = omega arith;
  yes_low = omega arith;
  yes_high = omega arith;
  no_low = omega arith;
  no_high = omega arith;
  yes_button = refl;
  no_button = refl;
}

second_posted-Between : Between 3 second_posted 6
unfolding new_entry
second_posted-Between = record {
  uid_low = omega arith;
  uid_high = omega arith;
  yes_low = omega arith;
  yes_high = omega arith;
  no_low = omega arith;
  no_high = omega arith;
  yes_button = refl;
  no_button = refl;
}

challenges-Numbered : Numbered 0 two_challenges.ttt_list_g 6
challenges-Numbered = (3, posted-Between, (6, second_posted-Between, omega arith))

bob_plays :
    (player_of bob second_posted.second ≡ 1)
    × (is_stranger (answer bob (yes_of second_posted)) posted_entry ≡ false)
    × (is_stranger (answer bob (no_of second_posted)) posted_entry ≡ false)
unfolding new_entry player_of
bob_plays = (refl, refl, refl)

some_embed : ◌≢◌ {A = List Embed} second_posted.first.origin.embeds []
some_embed = λ e. cc e

on_confirm_click_yes_example :
    (f : Entry) × (on_confirm_click (answer bob (yes_of second_posted)) two_challenges
      ≡ some (
        record two_challenges { ttt_list_g = posted_entry ∷ confirm 1 second_posted ∷ [] },
        entry_line confirm_text
            ∷ reply_text ir_channel_message_with_source
                (mention bob ++ codes " confirmed! *(1/2)*")
                (confirm_replied 4)
            ∷ [],
      ))
    × (f.first.board ≡ (init_board 6).0)
    × (f.first.turn ≡ (second_posted.first.player_1, x_mark))
    × (uid_of f ≡ uid_of second_posted)
unfolding new_entry
on_confirm_click_yes_example =
    on_confirm_click_yes (answer bob (yes_of second_posted)) two_challenges (posted_entry ∷ [])
      second_posted [] 1 refl challenges-Numbered (bob_plays.1, tt) bob_plays.0 (inl refl) refl
      some_embed

on_confirm_click_no_example :
    (f : Entry) × (on_confirm_click (answer bob (no_of second_posted)) two_challenges
      ≡ some (
        record two_challenges { ttt_list_g = posted_entry ∷ f ∷ [] },
        entry_line confirm_text ∷ message_edit f.first.origin (log_only decline_shown) ∷ [],
      ))
    × (f.second ≡ (confirm 1 second_posted).second)
    × ((rest : List Embed) × (f.first.origin.embeds ≡ cancelled_embed 1 second_posted ∷ rest))
    × (f.first.turns ≡ second_posted.first.turns)
    × (f.first.board ≡ second_posted.first.board)
    × (f.first.result ≡ second_posted.first.result)
unfolding new_entry
on_confirm_click_no_example =
    on_confirm_click_no (answer bob (no_of second_posted)) two_challenges (posted_entry ∷ [])
      second_posted [] 1 refl challenges-Numbered (bob_plays.2, tt) bob_plays.0 (inl refl) refl
      some_embed

answered_twice_example :
    (t : Bot) × (cs : List Call) × (on_confirm_click
        (answer bob (yes_of second_posted))
        two_challenges
      ≡ some (t, cs))
    × (on_confirm_click (answer bob (no_of second_posted)) t
        ≡ some (t, entry_line confirm_text ∷ []))
answered_twice_example =
    answered_twice (answer bob (yes_of second_posted)) (answer bob (no_of second_posted))
      two_challenges (posted_entry ∷ []) second_posted [] 1 refl challenges-Numbered
      (bob_plays.1, tt) bob_plays.0 (inl refl) refl (inl refl) (inr refl) some_embed

complete_undefined_iff_example :
    (complete (result_deployed 2) (value blank_message) two_challenges ≡ none)
    ↔ Dangles (result_deployed 2) (value blank_message) two_challenges
complete_undefined_iff_example =
    complete_undefined_iff (result_deployed 2) (value blank_message) two_challenges
      ((λ e. cc e), ((λ e. cc e), tt))

-- An error with one detail.
abbrev forbidden : ErrorInfo
forbidden = record {
  code = 50013;
  message = codes "Missing Permissions";
  errors =
      record {
        code = codes "NOT_ALLOWED";
        reason = codes "not here";
        field = codes "content";
        object = codes "message";
      }
      ∷ [];
}

failures_are_reported_example :
    ((head : LogLine) × (error_line head ≡ true)
      × (complete (turn_replied 1 bob 5) (is_error forbidden) two_challenges
          ≡ some (two_challenges, map log (head ∷ reasons forbidden))))
    × (any error_line (logs (turn_replied 1 bob 5) (value blank_message) two_challenges) ≡ false)
failures_are_reported_example =
    failures_are_reported (turn_replied 1 bob 5) forbidden blank_message two_challenges refl

-- A challenge right after the command, before its first message is posted.
abbrev unposted_bot : Bot
unposted_bot = record { next_id = 6; ttt_list_g = posted_entry ∷ second_entry ∷ [] }

unposted-Numbered : Numbered 0 unposted_bot.ttt_list_g 6
unposted-Numbered = (3, posted-Between, (6, second_Between, omega arith))

bob_plays_second :
    (player_of bob second_entry.second ≡ 1)
    × (is_stranger (answer bob (no_of second_entry)) posted_entry ≡ false)
    × (own_confm 1 second_entry.second.st ≡ false)
    × (◌≡◌ {A = List Embed} second_entry.first.origin.embeds [])
unfolding new_entry player_of
bob_plays_second = (refl, refl, refl, refl)

answered_too_soon_example : on_confirm_click (answer bob (no_of second_entry)) unposted_bot ≡ none
answered_too_soon_example =
    answered_too_soon (answer bob (no_of second_entry)) unposted_bot (posted_entry ∷ [])
      second_entry [] 1 refl unposted-Numbered (bob_plays_second.1, tt) bob_plays_second.0
      (inl refl) bob_plays_second.2 bob_plays_second.3 (inr refl)
