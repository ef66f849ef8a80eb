-- ===== src/Charge/Confirm.antt =====
-- Confirming a charge: `process_pix_receipt` and `verify_pix_charge_payment` of app/pix/router.py,
-- and `sync_pix_charge_status` of app/pix/service.py.
use biocodetechpay.Prelude.{
  ℕ, ◌&&◌, not, Bool, true, false, Option, none, some, Text, first, update_first, if◌then◌else◌,
}
use biocodetechpay.Store.{
  Db, PixTransaction, PixStatus, created, confirmed, failed, canceled, received, type_eq, status_eq,
  has_tx_id, set_status, find_user, find_transaction, update_transaction,
}
use biocodetechpay.Pix.Lifecycle.{is_owned}
use biocodetechpay.Pix.Receipt.{credit_pix_receipt}
use biocodetechpay.Http.{Http, success, failure}

-- The receiver of a charge, if the row is there, is credited with the gross value.
unfoldable pub credit_receiver : Text → PixTransaction → Db → Db
credit_receiver matrix_email pix db = elim (find_user pix.user_id db) [
  | none ↦ db
  | some receiver_user ↦ (credit_pix_receipt matrix_email db receiver_user pix.value none).0
]

-- The row is confirmed, and its receiver credited.
unfoldable pub confirm_charge : Text → PixTransaction → Db → Db
unfolding credit_receiver
confirm_charge matrix_email pix db =
    credit_receiver matrix_email pix (update_transaction pix.id (set_status confirmed) db)

-- `process_pix_receipt`
unfoldable pub process_pix_receipt : Text → ℕ → Db → Http PixTransaction
unfolding confirm_charge
process_pix_receipt matrix_email charge_id db = elim (find_transaction charge_id db) [
  | none ↦ (db, failure 404)
  | some pix ↦
      if status_eq pix.status confirmed
      then (db, failure 409)
      else if not (status_eq pix.status created)
      then (db, failure 400)
      else (confirm_charge matrix_email pix db, success (set_status confirmed pix))
]

-- The status that the gateway reports for a charge; `other` is any further text.
pub data ChargeStatus : Type 0 where
  pending_status confirmed_status expired_status cancelled_status other_status : ChargeStatus

-- The gateway when it is asked for a status.
pub data StatusGateway : Type 0 where
  no_gateway status_error : StatusGateway
  reports : ChargeStatus → StatusGateway

abbrev pub is_confirmed_status : ChargeStatus → Bool
is_confirmed_status confirmed_status = true
is_confirmed_status _ = false

-- The part of `verify_pix_charge_payment` that asks the gateway.
unfoldable pub verify_with : Text → StatusGateway → PixTransaction → Db → Http PixTransaction
unfolding confirm_charge
verify_with matrix_email no_gateway pix db = (db, failure 503)
verify_with matrix_email status_error pix db = (db, failure 500)
verify_with matrix_email (reports charge_status) pix db =
    if is_confirmed_status charge_status
    then (confirm_charge matrix_email pix db, success (set_status confirmed pix))
    else (db, failure 202)

-- `verify_pix_charge_payment`
unfoldable pub verify_pix_charge_payment : Text → ℕ → ℕ → StatusGateway → Db → Http PixTransaction
unfolding verify_with
verify_pix_charge_payment matrix_email charge_id user_id gateway db =
    elim (first (is_owned charge_id user_id) db.transactions) [
      | none ↦ (db, failure 404)
      | some pix ↦
          if status_eq pix.status confirmed
          then (db, success pix)
          else if not (status_eq pix.status created)
          then (db, failure 400)
          else verify_with matrix_email gateway pix db
    ]

-- `status_map.get(status, PixStatus.CREATED)`
abbrev pub mapped_status : ChargeStatus → PixStatus
mapped_status pending_status = created
mapped_status confirmed_status = confirmed
mapped_status expired_status = failed
mapped_status cancelled_status = canceled
mapped_status other_status = created

abbrev pub is_received_charge : ℕ → PixTransaction → Bool
is_received_charge charge_id t = has_tx_id charge_id t && type_eq t.type received

abbrev pub set_synced : ℕ → PixStatus → Db → Db
set_synced charge_id status db = record db {
  transactions = update_first (is_received_charge charge_id) (set_status status) db.transactions;
}

-- `sync_pix_charge_status`; `none` is the `None` of the source. An exception is logged, and nothing
-- is written.
unfoldable pub sync_pix_charge_status : ℕ → StatusGateway → Db → Db × Option PixTransaction
sync_pix_charge_status charge_id no_gateway db = (db, none)
sync_pix_charge_status charge_id status_error db = (db, none)
sync_pix_charge_status charge_id (reports status) db =
    elim (first (is_received_charge charge_id) db.transactions) [
      | none ↦ (db, none)
      | some pix ↦ if status_eq pix.status (mapped_status status) then (db, some pix) else (
        set_synced charge_id (mapped_status status) db,
        some (set_status (mapped_status status) pix),
      )
    ]
