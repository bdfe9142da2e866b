-- ===== src/UniqueId.antt =====
-- uniqueid.hpp: numbers handed out from a counter that the whole program shares. The static counter
-- `nextID` is passed in and out. It is an `int`, so the code counts up to 2 ^ 31 - 1.
use tintemp_plus_plus.Base.{ℕ, suc}

pub record UniqueId : Type 0 where
  pub id : ℕ

-- `UniqueID::nextID` when the program starts.
abbrev pub first_next_id : ℕ
first_next_id = 0

-- `UniqueID::UniqueID()`: `id = ++nextID`.
unfoldable pub construct : ℕ → UniqueId × ℕ
construct next_id = (record { id = suc next_id }, suc next_id)

-- `UniqueID::UniqueID(const UniqueID&)`.
unfoldable pub copy : UniqueId → UniqueId
copy orig = record { id = orig.id }

-- `UniqueID::operator=`.
unfoldable pub assign : UniqueId → UniqueId → UniqueId
assign self orig = record self { id = orig.id }

-- `(*new UniqueID).id`.
unfoldable pub new_id : ℕ → ℕ × ℕ
unfolding construct
new_id next_id = let (u, next) = construct next_id in (u.id, next)
