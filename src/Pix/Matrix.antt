-- ===== src/Pix/Matrix.antt =====
-- The fee-collection account, app/core/matrix.py. Its email is the setting MATRIX_ACCOUNT_EMAIL.
use biocodetechpay.Prelude.{
  pos, ◌+ℤ◌, Bool, Option, none, some, Text, text_eq, first, update_first, ◌==◌, if◌then◌else◌,
}
use biocodetechpay.Money.{Cents}
use biocodetechpay.Store.{Db, User, set_balance}

abbrev pub has_email : Text → User → Bool
has_email email u = text_eq u.email email

abbrev pub get_matrix_user : Text → Db → Option User
get_matrix_user matrix_email db = first (has_email matrix_email) db.users

-- Amounts are not negative, so `amount <= 0` is `amount == 0`.
unfoldable pub credit_fee : Text → Cents → Db → Db
credit_fee matrix_email amount db =
    if amount == 0 then db else elim (get_matrix_user matrix_email db) [
      | none ↦ db
      | some matrix ↦ record db {
        users =
            update_first (has_email matrix_email) (set_balance (matrix.balance +ℤ pos amount))
              db.users;
      }
    ]
