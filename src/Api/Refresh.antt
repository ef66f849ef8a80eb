-- ===== src/Api/Refresh.antt =====
-- `get_pix_transaction` of app/pix/router.py, which asks the gateway for an open charge that it
-- reads.
use biocodetechpay.Prelude.{ℕ, ◌&&◌, none, some, Text, if◌then◌else◌}
use biocodetechpay.Store.{
  Db, PixTransaction, created, confirmed, received, type_eq, status_eq, set_status,
  update_transaction,
}
use biocodetechpay.Pix.Lifecycle.{get_pix}
use biocodetechpay.Http.{Http, success, failure}
use biocodetechpay.Charge.Confirm.{
  StatusGateway, no_gateway, status_error, reports, is_confirmed_status, credit_receiver,
}
use biocodetechpay.Charge.Inbound.{fill_name}

-- The confirmed row, with the name of the payer where it had none.
unfoldable pub refreshed : Text → PixTransaction → PixTransaction
refreshed payer_name t = fill_name payer_name (set_status confirmed t)

-- The lazy refresh. An exception is logged, and the state of the database is answered.
unfoldable pub lazy_refresh :
    Text → StatusGateway → Text → PixTransaction → Db → Http PixTransaction
unfolding refreshed
lazy_refresh matrix_email no_gateway payer_name pix db = (db, success pix)
lazy_refresh matrix_email status_error payer_name pix db = (db, success pix)
lazy_refresh matrix_email (reports charge_status) payer_name pix db =
    if is_confirmed_status charge_status
    then (
      credit_receiver matrix_email pix (update_transaction pix.id (refreshed payer_name) db),
      success (refreshed payer_name pix),
    )
    else (db, success pix)

-- `get_pix_transaction`
unfoldable pub get_pix_transaction : Text → ℕ → ℕ → StatusGateway → Text → Db → Http PixTransaction
unfolding lazy_refresh
get_pix_transaction matrix_email pix_id user_id gateway payer_name db =
    elim (get_pix pix_id user_id db) [
      | none ↦ (db, failure 404)
      | some pix ↦
          if type_eq pix.type received && status_eq pix.status created
          then lazy_refresh matrix_email gateway payer_name pix db
          else (db, success pix)
    ]
