-- ===== src/Boleto/Payment.antt =====
-- `process_payment` of app/boleto/service.py. The request's value is not validated, so it is signed.
use biocodetechpay.Prelude.{ℕ, ℤ, pos, ◌+ℤ◌, ◌-ℤ◌, ltb_ℤ, none, some, ◌∷◌, Text, if◌then◌else◌}
use biocodetechpay.Fees.{calculate_boleto_fee}
use biocodetechpay.Store.{Db, User, BoletoTransaction, find_user, update_user, set_balance}
use biocodetechpay.Pix.Outcome.{Outcome, ok, err, user_not_found, insufficient_balance}
use biocodetechpay.Pix.Ledger.{get_balance}
use biocodetechpay.Pix.Matrix.{credit_fee}

-- `BoletoPaymentRequest` with the user and the fresh identifier.
pub record PaymentCall : Type 0 where
  pub value : ℤ
  pub barcode : Text
  pub user_id : ℕ
  pub new_id : ℕ

abbrev pub total_required : User → PaymentCall → ℤ
total_required user c = c.value +ℤ pos (calculate_boleto_fee user.cpf_cnpj)

abbrev pub paid_boleto : User → PaymentCall → BoletoTransaction
paid_boleto user c = record {
  id = c.new_id;
  value = c.value;
  barcode = c.barcode;
  user_id = c.user_id;
  fee_amount = calculate_boleto_fee user.cpf_cnpj;
}

abbrev pub add_boleto : BoletoTransaction → Db → Db
add_boleto b db = record db { boletos = b ∷ db.boletos }

-- The debit of the user, the fee of the matrix account and the new row.
unfoldable pub settle_boleto : Text → Db → User → PaymentCall → Db
settle_boleto matrix_email db user c = add_boleto (paid_boleto user c) (
    credit_fee matrix_email (calculate_boleto_fee user.cpf_cnpj)
      (update_user c.user_id (set_balance (user.balance -ℤ total_required user c)) db))

unfoldable pub process_payment : Text → Db → PaymentCall → Outcome BoletoTransaction
process_payment matrix_email db c = elim (find_user c.user_id db) [
  | none ↦ (db, err user_not_found)
  | some user ↦ elim (get_balance db c.user_id) [
    | err e ↦ (db, err e)
    | ok balance ↦
        if ltb_ℤ balance (total_required user c)
        then (db, err insufficient_balance)
        else (settle_boleto matrix_email db user c, ok (paid_boleto user c))
  ]
]
