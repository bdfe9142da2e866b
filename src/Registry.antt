-- ===== src/Registry.antt =====
-- The global list `ttt_list_g` of tictactoe.cpp, with the counter of `UniqueID`: the state of the bot.
-- An iterator of the list is the `uid` of the game that it points to.
pub mod Uids
pub mod Apart
pub mod Origin
pub mod Erase
use tintemp_plus_plus.Base.{
  ℕ, Bool, true, false, not, ◌&&◌, ◌==◌, if◌then◌else◌, Option, none, some, List, [], ◌∷◌, ◌++◌,
  map,
}
use tintemp_plus_plus.Dpp.{Dpp, Message}
use tintemp_plus_plus.Ttt.{get_uid, Ttt, new_ttt}
use tintemp_plus_plus.Ttt
use tintemp_plus_plus.ConfirmButton.{ConfirmButton, Compiler, new_confirm_button}

-- `std::pair<ttt, ttt::confirm_button>`.
pub record Entry : Type 0 where
  pub first : Ttt
  pub second : ConfirmButton

pub record Bot : Type 0 where
  pub next_id : ℕ
  pub ttt_list_g : List Entry

-- The state when the program starts.
abbrev pub initial : Bot
initial = record { next_id = 0; ttt_list_g = [] }

module _ ⦃d : Dpp⦄ where
  -- `std::make_pair(ttt(player_1, player_2), ttt::confirm_button(player_1, player_2))`.
  unfoldable pub new_entry : Compiler → ℕ → ℕ → ℕ → Entry × ℕ
  unfolding new_ttt new_confirm_button
  new_entry c p1 p2 n =
      if c.left_first
      then (let (t, n1) = new_ttt p1 p2 n in
          let (b, n2) = new_confirm_button c p1 p2 n1 in (record { first = t; second = b }, n2))
      else (let (b, n1) = new_confirm_button c p1 p2 n in
          let (t, n2) = new_ttt p1 p2 n1 in (record { first = t; second = b }, n2))

  -- `push_onto_list`.
  unfoldable pub push_onto_list : Compiler → ℕ → ℕ → Bot → Entry × Bot
  push_onto_list c p1 p2 s =
      let (e, n) = new_entry c p1 p2 s.next_id in
      (e, record { next_id = n; ttt_list_g = s.ttt_list_g ++ e ∷ [] })

-- `erase` through an iterator: `none` where it points to no element, which is undefined.
unfoldable pub erase : ℕ → List Entry → Option (List Entry)
erase uid [] = none
erase uid (e ∷ es) =
    let rest = erase uid es in
    if e.first.uid == uid then some es else elim rest [ none ↦ none | some l ↦ some (e ∷ l) ]

-- `erase_one_from_list`.
unfoldable pub erase_one_from_list : ℕ → Bot → Option Bot
erase_one_from_list uid s = elim (erase uid s.ttt_list_g) [
  | none ↦ none
  | some l ↦ some (record s { ttt_list_g = l })
]

-- The body of the loop of `set_origin`.
unfoldable pub set_entry_origin : Message → ℕ → Entry → Entry
set_entry_origin m id e =
    if id == get_uid e.first && not e.first.have_origin
    then record e { first = Ttt.set_origin e.first m }
    else e

-- `set_origin`, over the whole list.
unfoldable pub set_origin : Message → ℕ → Bot → Bot
set_origin m id s = record s { ttt_list_g = map (set_entry_origin m id) s.ttt_list_g }

-- A change of the element that an iterator points to; `none` where it points to no element.
unfoldable pub modify_at : ℕ → (Entry → Option Entry) → List Entry → Option (List Entry)
modify_at uid f [] = none
modify_at uid f (e ∷ es) =
    let rest = modify_at uid f es in
    if e.first.uid == uid
    then elim (f e) [ none ↦ none | some e' ↦ some (e' ∷ es) ]
    else elim rest [ none ↦ none | some l ↦ some (e ∷ l) ]

-- The element that an iterator points to.
unfoldable pub find : ℕ → List Entry → Option Entry
find uid [] = none
find uid (e ∷ es) = if e.first.uid == uid then some e else find uid es
