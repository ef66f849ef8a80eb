-- ===== src/Admin/Treasury.antt =====
-- The administrator's movements of money: `matrix_transfer`, `asaas_transfer`, `matrix_to_asaas` and
-- `matrix_to_owner` of app/web_routes.py. The requests accept positive amounts only.
use biocodetechpay.Prelude.{
  ℕ, ℤ, pos, ◌+ℤ◌, ◌-ℤ◌, ltb_ℤ, Option, none, some, Text, text_eq, update_first, if◌then◌else◌,
}
use biocodetechpay.Money.{Cents}
use biocodetechpay.Store.{
  Db, User, PixKeyType, cpf, cnpj, email, phone, random, find_user, update_user, set_balance,
}
use biocodetechpay.Pix.Matrix.{get_matrix_user, has_email}
use biocodetechpay.Pix.Outcome.{ok, err}
use biocodetechpay.Pix.Transfer.{TransferCall, find_recipient_user, execute_internal_transfer}
use biocodetechpay.Http.{Http, success, failure}

-- What the gateway does with a payment.
pub data PaymentGateway : Type 0 where
  unavailable refuses accepts : PaymentGateway

-- The `type` of the answer.
pub data Movement : Type 0 where
  internal external_local external internal_credit external_pix matrix_debit_to_asaas
        matrix_to_owner_done :
      Movement

abbrev pub set_email_balance : Text → ℤ → Db → Db
set_email_balance mail balance db = record db {
  users = update_first (has_email mail) (set_balance balance) db.users;
}

-- The recipient within the platform, whom only a document or an address names.
abbrev pub internal_recipient : Db → Text → PixKeyType → Option User
internal_recipient db pix_key cpf = find_recipient_user db pix_key cpf
internal_recipient db pix_key cnpj = find_recipient_user db pix_key cnpj
internal_recipient db pix_key email = find_recipient_user db pix_key email
internal_recipient db pix_key phone = none
internal_recipient db pix_key random = none

abbrev pub pay_out : Text → User → Cents → PaymentGateway → Db → Http Movement
pay_out matrix_email matrix amount unavailable db =
    (set_email_balance matrix_email (matrix.balance -ℤ pos amount) db, success external_local)
pay_out matrix_email matrix amount refuses db = (db, failure 400)
pay_out matrix_email matrix amount accepts db =
    (set_email_balance matrix_email (matrix.balance -ℤ pos amount) db, success external)

unfoldable pub sweep_to : Db → User → User → TransferCall → Http Movement
sweep_to db matrix recipient c =
    let (moved, result) = execute_internal_transfer db matrix recipient c in
    elim result [ ok sent_tx ↦ (moved, success internal) | err e ↦ (db, failure 400) ]

-- `matrix_transfer`
unfoldable pub matrix_transfer : Text → TransferCall → PaymentGateway → Db → Http Movement
unfolding sweep_to
matrix_transfer matrix_email c gateway db = elim (get_matrix_user matrix_email db) [
  | none ↦ (db, failure 404)
  | some matrix ↦
      if ltb_ℤ matrix.balance (pos c.amount)
      then (db, failure 400)
      else elim (internal_recipient db c.pix_key c.key_type) [
        | some recipient ↦ sweep_to db matrix recipient c
        | none ↦ pay_out matrix_email matrix c.amount gateway db
      ]
]

-- `destination`, with what it needs; the key is absent or comes with its type.
pub data Destination : Type 0 where
  correntista : Option ℕ → Destination
  to_key : Option Text → Destination
  matrix_account : Destination

abbrev pub emit_pix : PaymentGateway → Db → Http Movement
emit_pix unavailable db = (db, failure 503)
emit_pix refuses db = (db, failure 400)
emit_pix accepts db = (db, success external_pix)

abbrev pub credit_correntista : Text → ℕ → Cents → Db → Http Movement
credit_correntista matrix_email user_id amount db = elim (find_user user_id db) [
  | none ↦ (db, failure 404)
  | some target ↦ if text_eq target.email matrix_email then (db, failure 400) else (
    update_user user_id (set_balance (target.balance +ℤ pos amount)) db,
    success internal_credit,
  )
]

-- `asaas_transfer`. A credit of the matrix account adds a float to a Decimal, which raises.
unfoldable pub asaas_transfer : Text → Destination → Cents → PaymentGateway → Db → Http Movement
asaas_transfer matrix_email (correntista none) amount gateway db = (db, failure 400)
asaas_transfer matrix_email (correntista (some user_id)) amount gateway db =
    credit_correntista matrix_email user_id amount db
asaas_transfer matrix_email matrix_account amount gateway db =
    elim (get_matrix_user matrix_email db) [
      | none ↦ (db, failure 404)
      | some matrix ↦ (db, failure 500)
    ]
asaas_transfer matrix_email (to_key none) amount gateway db = (db, failure 400)
asaas_transfer matrix_email (to_key (some key)) amount gateway db = emit_pix gateway db

-- `matrix_to_asaas`
unfoldable pub matrix_to_asaas : Text → Cents → Db → Http Movement
matrix_to_asaas matrix_email amount db = elim (get_matrix_user matrix_email db) [
  | none ↦ (db, failure 404)
  | some matrix ↦ if ltb_ℤ matrix.balance (pos amount) then (db, failure 400) else (
    set_email_balance matrix_email (matrix.balance -ℤ pos amount) db,
    success matrix_debit_to_asaas,
  )
]

-- The second assignment reads the owner's row in the state that the first one left, which may be the
-- same row.
unfoldable pub credit_owner : Text → Cents → Db → Db
credit_owner admin_email amount db = elim (get_matrix_user admin_email db) [
  | none ↦ db
  | some owner ↦ set_email_balance admin_email (owner.balance +ℤ pos amount) db
]

-- `matrix_to_owner`
unfoldable pub matrix_to_owner : Text → Text → Cents → Db → Http Movement
unfolding credit_owner
matrix_to_owner matrix_email admin_email amount db = elim (get_matrix_user matrix_email db) [
  | none ↦ (db, failure 404)
  | some matrix ↦
      if ltb_ℤ matrix.balance (pos amount)
      then (db, failure 400)
      else elim (get_matrix_user admin_email db) [
        | none ↦ (db, failure 404)
        | some owner ↦ (
          credit_owner admin_email amount
              (set_email_balance matrix_email (matrix.balance -ℤ pos amount) db),
          success matrix_to_owner_done,
        )
      ]
]
