-- ===== src/Reconcile/Sums.antt =====
-- What both audits compare: the customers' balances and that of the matrix account, whose sum is set
-- against the balance at the gateway. Balances are whole cents, on which `quantize` is the identity.
use biocodetechpay.Prelude.{
  suc, min, ℤ, pos, negsuc, pos_part, ◌+ℤ◌, ◌-ℤ◌, List, Bool, not, Option, none, some, Text,
  keep_if, update_first,
}
use biocodetechpay.Money.{Cents, reais}
use biocodetechpay.Store.{Db, User, set_balance}
use biocodetechpay.Store.Total.{total_balance}
use biocodetechpay.Pix.Matrix.{get_matrix_user, has_email}

-- `_AUTO_CORRECTION_MAX`
abbrev pub auto_correction_max : Cents
auto_correction_max = reais 20 0

-- R$10.00, from which a divergence is an error.
abbrev pub error_threshold : Cents
error_threshold = reais 10 0

abbrev pub is_customer : Text → User → Bool
is_customer matrix_email u = not (has_email matrix_email u)

abbrev pub customers : Text → Db → List User
customers matrix_email db = keep_if (is_customer matrix_email) db.users

abbrev pub internal_sum : Text → Db → ℤ
internal_sum matrix_email db = total_balance (customers matrix_email db)

abbrev pub balance_of : Option User → ℤ
balance_of none = pos 0
balance_of (some matrix_user) = matrix_user.balance

abbrev pub matrix_balance : Text → Db → ℤ
matrix_balance matrix_email db = balance_of (get_matrix_user matrix_email db)

unfoldable pub total_internal : Text → Db → ℤ
total_internal matrix_email db = internal_sum matrix_email db +ℤ matrix_balance matrix_email db

-- `abs`
abbrev pub magnitude : ℤ → Cents
magnitude (pos n) = n
magnitude (negsuc n) = suc n

abbrev pub set_matrix : Text → ℤ → Db → Db
set_matrix matrix_email balance db = record db {
  users = update_first (has_email matrix_email) (set_balance balance) db.users;
}

-- `min(abs_diff, max(0, matrix_balance))`
abbrev pub matrix_debit : Cents → User → Cents
matrix_debit abs_diff matrix = min abs_diff (pos_part matrix.balance)

unfoldable pub debit_matrix : Text → Cents → User → Db → Db
debit_matrix matrix_email abs_diff matrix db =
    set_matrix matrix_email (matrix.balance -ℤ pos (matrix_debit abs_diff matrix)) db

unfoldable pub credit_matrix : Text → Cents → User → Db → Db
credit_matrix matrix_email abs_diff matrix db =
    set_matrix matrix_email (matrix.balance +ℤ pos abs_diff) db
