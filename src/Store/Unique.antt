-- ===== src/Store/Unique.antt =====
-- The primary key of the users: no identifier stands twice, so a row that any query finds is the row
-- that its identifier finds.
use biocodetechpay.Prelude.{◌≡◌, Bool, List, [], ◌∷◌, none, some, arith, first}
use biocodetechpay.Store.{User, has_id}

abbrev pub UniqueIds : List User → Type 0
UniqueIds [] = Unit
UniqueIds (u ∷ users) = (first (has_id u.id) users ≡ none) × UniqueIds users

pub first-has_id :
    (p : User → Bool) (users : List User) (u : User)
    → UniqueIds users
    → first p users ≡ some u
    → first (has_id u.id) users ≡ some u
first-has_id p [] u h e = ground arith
first-has_id p (x ∷ users) u h e = ground (arith, first-has_id p users u h.1)
