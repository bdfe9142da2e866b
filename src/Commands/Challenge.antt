-- ===== src/Commands/Challenge.antt =====
-- The games that the command `ttt` of main.cpp adds to the list.
use tintemp_plus_plus.Base.{
  ==_ne, ℕ, ◌+◌, ◌≡◌, ◌≢◌, refl, sym, false, some, List, [], ◌∷◌, ◌++◌, map, arith, Bool-cases, inl,
  inr,
}
use tintemp_plus_plus.Dpp.{GuildMember, Dpp, MessageCreate, User}
use tintemp_plus_plus.ConfirmButton.{Compiler, default_status, get_user, new_confirm_button}
use tintemp_plus_plus.Ttt.{get_player, new_ttt}
use tintemp_plus_plus.Registry.{Entry, Bot, push_onto_list, new_entry}
use tintemp_plus_plus.Registry.Uids.{yes_of, no_of}
use tintemp_plus_plus.ConfirmButton.Ids.{yes_id-ne-no_id}
use tintemp_plus_plus.Game.Plays.{IsFresh}
use tintemp_plus_plus.Bot.{log}
use tintemp_plus_plus.Commands.{tictactoe_with, tictactoe, game_lines, challenge}

-- The entry of a game that nobody has answered and nobody has played.
pub record IsNew (e : Entry) (author opponent : ℕ) : Type 0 where
  pub fresh : IsFresh e.first
  pub players : get_player e.first ≡ (author, opponent)
  pub asked : get_user e.second ≡ (author, opponent)
  pub unanswered : e.second.st ≡ default_status
  pub buttons_differ : yes_of e ≢ no_of e
  pub not_posted : e.first.have_origin ≡ false

module _ ⦃d : Dpp⦄ where
  new_entry-IsNew : (c : Compiler) (p1 p2 n : ℕ) → p1 ≢ p2 → IsNew (new_entry c p1 p2 n).0 p1 p2
  unfolding new_entry new_ttt new_confirm_button
  new_entry-IsNew c p1 p2 n differ = elim (Bool-cases c.left_first) [
    | inl order ↦ rw order (record {
      fresh = record { no_turns = refl; no_result = refl; two_players = differ };
      players = refl;
      asked = refl;
      unanswered = refl;
      buttons_differ = yes_id-ne-no_id _ _;
      not_posted = refl;
    })
    | inr order ↦ rw order (record {
      fresh = record { no_turns = refl; no_result = refl; two_players = differ };
      players = refl;
      asked = refl;
      unanswered = refl;
      buttons_differ = yes_id-ne-no_id _ _;
      not_posted = refl;
    })
  ]

  next-new_entry : (c : Compiler) (p1 p2 n : ℕ) → (new_entry c p1 p2 n).1 ≡ n + 3
  unfolding new_entry new_ttt new_confirm_button
  next-new_entry c p1 p2 n = ground arith

  -- If the first user that a command `ttt` mentions is no bot and not its author, the command adds
  -- one game to the end of the list, fresh, unanswered and not posted, between the author and that
  -- user and with two different confirmation buttons, takes three numbers from the counter, logs
  -- the game and its players, and posts the challenge.
  pub challenged :
      (c : Compiler) (msg : MessageCreate) (u : User × GuildMember) (us : List (User × GuildMember))
      (s : Bot)
      → msg.msg.mentions ≡ u ∷ us
      → d.users.is_bot u.0 ≡ false
      → u.0.id ≢ msg.msg.author.id
      → (e : Entry) × (n : ℕ) × (tictactoe c msg s
          ≡ some (
            record { next_id = n; ttt_list_g = s.ttt_list_g ++ e ∷ [] },
            map log (game_lines e) ++ challenge msg e ∷ [],
          ))
        × (n ≡ s.next_id + 3)
        × IsNew e msg.msg.author.id u.0.id
  unfolding tictactoe tictactoe_with push_onto_list
  challenged c msg u us s mentions person differ = (
    _,
    _,
    rw (mentions, person, ==_ne u.0.id msg.msg.author.id differ, tictactoe),
    next-new_entry c msg.msg.author.id u.0.id s.next_id,
    new_entry-IsNew c msg.msg.author.id u.0.id s.next_id (λ same. differ (sym same)),
  )
