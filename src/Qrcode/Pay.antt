-- ===== src/Qrcode/Pay.antt =====
-- `pay_pix_qrcode` of app/pix/router.py.
use biocodetechpay.Prelude.{
  ◌+◌, ℤ, pos, ◌-ℤ◌, ltb_ℤ, leb_ℤ, ltb, Bool, not, none, some, Text, first, any, ◌==◌,
  if◌then◌else◌,
}
use biocodetechpay.Money.{Cents}
use biocodetechpay.Fees.{pix_maintenance_fee}
use biocodetechpay.Store.{
  fee_of, Db, User, PixTransaction, created, confirmed, failed, debit, status_eq, set_status,
  set_balance, find_user, update_user, update_transaction, add_transaction, has_tx_id,
}
use biocodetechpay.Emv.Parse.{validate_pix_crc}
use biocodetechpay.Pix.Outcome.{ok, err}
use biocodetechpay.Pix.Matrix.{credit_fee}
use biocodetechpay.Pix.Receipt.{credit_pix_receipt}
use biocodetechpay.Pix.Ledger.{get_available_balance, create_ledger_entry}
use biocodetechpay.Pix.Screen.{screen_antifraud, passed, blocked, invalid}
use biocodetechpay.Http.{Http, success, failure}
use biocodetechpay.Qrcode.Rows.{can_insert}
use biocodetechpay.Qrcode.Lookup.{find_internal_qrcode_charge}
use biocodetechpay.Qrcode.Call.{
  QrAnswer, QrGateway, no_gateway, sandbox, raises, pays, QrCall, find_by_header, is_paid_before,
  charge_payment, fee_on, provisional_row, dispatched_row, payment_value,
}

-- The charge is confirmed and its receiver credited, in the state that the session then has.
unfoldable pub settle_charge : Text → PixTransaction → Db → Db
settle_charge matrix_email charge db =
    let settled = update_transaction charge.id (set_status confirmed) db in
    elim (find_user charge.user_id settled) [
      | none ↦ settled
      | some receiver ↦ (credit_pix_receipt matrix_email settled receiver charge.value (some 0)).0
    ]

-- The debit of value and maintenance fee, and the fee's credit.
unfoldable pub debit_payer : Text → QrCall → ℤ → Db → Db
debit_payer matrix_email c balance db =
    credit_fee matrix_email pix_maintenance_fee (update_user c.user_id (set_balance balance) db)

unfoldable pub commit_payment : PixTransaction → Db → Db → Http PixTransaction
commit_payment row before db =
    if can_insert row before then (add_transaction row db, success row) else (before, failure 500)

unfoldable pub pay_other : Text → QrCall → User → User → PixTransaction → Db → Http PixTransaction
unfolding settle_charge debit_payer commit_payment
pay_other matrix_email c sender receiver charge db =
    let total_debit = charge.value + pix_maintenance_fee in
    let balance = sender.balance -ℤ pos total_debit in
    if ltb_ℤ sender.balance (pos total_debit)
    then (db, failure 400)
    else if ltb_ℤ balance (pos 0)
    then (db, failure 400)
    else commit_payment (charge_payment c charge receiver) db
        (settle_charge matrix_email charge (debit_payer matrix_email c balance db))

-- The first route: the code stands for a charge of the platform.
unfoldable pub pay_internal : Text → QrCall → User → PixTransaction → Db → Http PixTransaction
unfolding pay_other
pay_internal matrix_email c sender charge db = elim (find_user charge.user_id db) [
  | none ↦ (db, failure 422)
  | some receiver ↦
      if not (status_eq charge.status created)
      then (db, failure 409)
      else if charge.user_id == c.user_id
      then (settle_charge matrix_email charge db, success (set_status confirmed charge))
      else pay_other matrix_email c sender receiver charge db
]

-- The row in `PROCESSING` under the gateway's identifier, with the pending debit.
unfoldable pub commit_dispatched : QrCall → PixTransaction → Db → Http PixTransaction
commit_dispatched c row db = if any (has_tx_id row.id) db.transactions then (db, failure 500) else (
  create_ledger_entry c.entry_id c.user_id debit (row.value + fee_of row) row.id
      (add_transaction row db),
  success row,
)

-- After the gateway has paid. A value that cannot be told raises, and what was flushed is lost.
unfoldable pub accept_payment : User → QrCall → QrAnswer → Db → Http PixTransaction
unfolding commit_dispatched
accept_payment sender c answer db =
    let row = dispatched_row sender c answer in
    if payment_value c answer == 0
    then (db, failure 500)
    else elim (get_available_balance db c.user_id) [
      | err e ↦ (db, failure 500)
      | ok available ↦
          if ltb_ℤ available (pos (row.value + fee_of row))
          then (add_transaction (set_status failed (provisional_row sender c)) db, failure 400)
          else commit_dispatched c row db
    ]

abbrev pub dispatch_qr : User → QrCall → QrGateway → Db → Http PixTransaction
dispatch_qr sender c no_gateway db = (db, failure 503)
dispatch_qr sender c sandbox db = (db, failure 422)
dispatch_qr sender c raises db =
    if can_insert (provisional_row sender c) db
    then (add_transaction (set_status failed (provisional_row sender c)) db, failure 422)
    else (db, failure 500)
dispatch_qr sender c (pays answer) db =
    if can_insert (provisional_row sender c) db
    then accept_payment sender c answer db
    else (db, failure 500)

-- The check before the dispatch.
abbrev pub lacks_balance : User → QrCall → ℤ → Bool
lacks_balance sender c available =
    if ltb 0 c.emv_value
    then ltb_ℤ available (pos (c.emv_value + fee_on sender c.emv_value))
    else leb_ℤ available (pos 0)

-- The second route: the gateway pays the code.
unfoldable pub pay_by_gateway : User → QrCall → Db → Http PixTransaction
unfolding accept_payment
pay_by_gateway sender c db = elim (get_available_balance db c.user_id) [
  | err e ↦ (db, failure 500)
  | ok available ↦
      if lacks_balance sender c available
      then (db, failure 400)
      else dispatch_qr sender c (c.gateway c.value) db
]

unfoldable pub route_payment : Text → User → QrCall → Db → Http PixTransaction
unfolding pay_internal pay_by_gateway
route_payment matrix_email sender c db =
    let (internal_charge, is_already_paid) = find_internal_qrcode_charge c.code db in
    if is_already_paid then (db, failure 409) else elim internal_charge [
      | some charge ↦ pay_internal matrix_email c sender charge db
      | none ↦ pay_by_gateway sender c db
    ]

abbrev pub screened_route : Text → User → QrCall → Db → Http PixTransaction
screened_route matrix_email sender c db =
    let value : Cents = elim c.value [ none ↦ 0 | some v ↦ v ] in
    if value == 0
    then route_payment matrix_email sender c db
    else elim (screen_antifraud value c.user_id c.clock db) [
      | passed ↦ route_payment matrix_email sender c db
      | blocked ↦ (db, failure 403)
      | invalid ↦ (db, failure 500)
    ]

-- `pay_pix_qrcode`
unfoldable pub pay_pix_qrcode : Text → QrCall → Db → Http PixTransaction
unfolding route_payment
pay_pix_qrcode matrix_email c db =
    if not (validate_pix_crc c.code.payload)
    then (db, failure 422)
    else elim (find_by_header c db) [
      | some existing ↦ (db, success existing)
      | none ↦ elim (first (is_paid_before c) db.transactions) [
        | some existing ↦ (db, success existing)
        | none ↦ elim (find_user c.user_id db) [
          | none ↦ (db, failure 404)
          | some sender ↦ screened_route matrix_email sender c db
        ]
      ]
    ]
