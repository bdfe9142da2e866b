-- ===== src/Examples.antt =====
-- Concrete values at which the functions of tictactoe.cpp and main.cpp are run.
mod Games
mod Bots
mod Commands
mod Rounds
mod Logs
mod Programs
mod Whole
mod Answers
use tintemp_plus_plus.Base.{ℕ, true, false, List, [], ◌∷◌, map}
use tintemp_plus_plus.Text.{Text, codes}
use tintemp_plus_plus.Dpp.{Dpp, Message, MessageCreate, ButtonClick, User}
use tintemp_plus_plus.Dpp.Plain.{plain, blank_message, blank_user, blank_member}
use tintemp_plus_plus.Board.{Ix, at}
use tintemp_plus_plus.Ttt.{Ttt, new_ttt}
use tintemp_plus_plus.Game.{init_game}
use tintemp_plus_plus.ConfirmButton.{Compiler}
use tintemp_plus_plus.Registry.{Entry, Bot, initial, new_entry}

abbrev pub left_to_right : Compiler
left_to_right = record { left_first = true; past_end = λ n. [] }

abbrev pub alice : ℕ
alice = 11

abbrev pub bob : ℕ
bob = 22

abbrev pub carol : ℕ
carol = 33

-- The first game of the bot, before anybody has answered, and a second one.
abbrev pub first_entry : Entry
first_entry = (new_entry left_to_right alice bob 0).0

abbrev pub second_entry : Entry
second_entry = (new_entry left_to_right bob carol 3).0

abbrev pub with_embed : Message
with_embed =
    plain.messages.message_embed 5 (plain.embeds.set_title plain.embeds.embed (codes "Hey"))

abbrev pub posted_entry : Entry
posted_entry = record first_entry {
  first = record (first_entry.first) { origin = with_embed; have_origin = true };
}

-- A started game, whose message has the id 77.
abbrev pub posted_game : Ttt
posted_game = record (first_entry.first) { game = record blank_message { id = 77 } }

abbrev pub started : Ttt
started = (init_game posted_game 3).0

abbrev pub started_entry : Entry
started_entry = record first_entry { first = started }

abbrev pub person : ℕ → User
person n = record blank_user { id = n; username = codes "somebody" }

-- A click of a user on a button of a message.
abbrev clicked : ℕ → Text → ℕ → ButtonClick
clicked usr button message = record {
  command = record {
    id = 1;
    application_id = 2;
    type = 3;
    component_data = record { component_type = 2; custom_id = button; values = [] };
    guild_id = 6;
    channel_id = 5;
    message_id = message;
    member = blank_member;
    usr = person usr;
    token = [];
    version = 1;
  };
  custom_id = button;
  component_type = 2;
}

abbrev pub press : ℕ → Ttt → Ix → Ix → ButtonClick
press usr t i k = clicked usr (at t.board i k).id 77

abbrev pub answer : ℕ → Text → ButtonClick
answer usr button = clicked usr button 70

abbrev pub sent : Text → List User → MessageCreate
sent content mentions = record {
  msg = record blank_message {
    id = 90;
    channel_id = 5;
    guild_id = 6;
    author = person alice;
    content = content;
    mentions = map (λ (u : User). (u, blank_member)) mentions;
  };
}
