-- ===== src/Store/Total.antt =====
-- The money on all accounts together, and how it moves when one balance is assigned.
use biocodetechpay.Prelude.{
  ℕ, ◌≡◌, Bool, ℤ, pos, ◌+ℤ◌, int_laws, List, [], ◌∷◌, some, arith, first, update_first,
}
use biocodetechpay.Store.{User, has_id, set_balance}

abbrev pub total_balance : List User → ℤ
total_balance [] = pos 0
total_balance (u ∷ users) = u.balance +ℤ total_balance users

-- An assignment moves the total by the difference of the two balances.
pub total-update_first :
    (p : User → Bool) (b : ℤ) (users : List User) (u : User)
    → first p users ≡ some u
    → total_balance (update_first p (set_balance b) users) +ℤ u.balance ≡ total_balance users +ℤ b
total-update_first p b [] u h = ground arith
total-update_first p b (x ∷ users) u h = grind (int_laws, total-update_first p b users u)

pub total-set_balance :
    (i : ℕ) (b : ℤ) (users : List User) (u : User)
    → first (has_id i) users ≡ some u
    → total_balance (update_first (has_id i) (set_balance b) users) +ℤ u.balance
      ≡ total_balance users +ℤ b
total-set_balance i b users u h = total-update_first (has_id i) b users u h

-- The same for an assignment to several fields, one of them the balance.
pub total-update_with :
    (p : User → Bool) (f : User → User) (b : ℤ) (users : List User) (u : User)
    → ((v : User) → (f v).balance ≡ b)
    → first p users ≡ some u
    → total_balance (update_first p f users) +ℤ u.balance ≡ total_balance users +ℤ b
total-update_with p f b [] u same h = ground arith
total-update_with p f b (x ∷ users) u same h =
    grind (int_laws, same x, total-update_with p f b users u)
