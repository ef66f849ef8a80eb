-- ===== src/Reconcile/Customers.antt =====
-- No audit touches the account of a customer.
use biocodetechpay.Prelude.{◌≡◌, refl, ℤ, List, [], ◌∷◌, Text, arith, keep_if, update_first}
use biocodetechpay.Store.{Db, User, set_balance}
use biocodetechpay.Pix.Matrix.{has_email}
use biocodetechpay.Reconcile.Sums.{customers, is_customer, set_matrix}
use biocodetechpay.Reconcile.Daily.{Worker}

customers_update :
    (m : Text) (b : ℤ) (users : List User)
    → keep_if (is_customer m) (update_first (has_email m) (set_balance b) users)
      ≡ keep_if (is_customer m) users
customers_update m b [] = refl
customers_update m b (u ∷ users) = ground (arith, customers_update m b users)

pub customers-set_matrix :
    (m : Text) (b : ℤ) (db : Db) → customers m (set_matrix m b db) ≡ customers m db
customers-set_matrix m b db = customers_update m b db.users
