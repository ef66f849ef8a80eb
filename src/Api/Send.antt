-- ===== src/Api/Send.antt =====
-- The endpoints of app/pix/router.py that create, confirm, cancel, execute and synchronise a
-- transaction.
use biocodetechpay.Prelude.{
  ℕ, pos, ltb_ℤ, ltb, not, Bool, true, false, ◌&&◌, ◌||◌, ◌==◌, Option, none, some, Text, length,
  any, first, if◌then◌else◌,
}
use biocodetechpay.Store.{
  Db, User, PixTransaction, PixKeyType, random, sent, created, processing, failed, type_eq,
  status_eq, set_status, update_transaction,
}
use biocodetechpay.Pix.Outcome.{Outcome, ok, err}
use biocodetechpay.Pix.Create.{CreateCall, create_pix}
use biocodetechpay.Pix.Lifecycle.{confirm_pix, cancel_pix, is_owned}
use biocodetechpay.Pix.Screen.{Clock, screen_antifraud, passed, blocked, invalid}
use biocodetechpay.Auth.Session.{is_deposit_of}
use biocodetechpay.Http.{Http, success, failure}
use biocodetechpay.Charge.Confirm.{StatusGateway, sync_pix_charge_status}

-- A confirmed deposit, or a positive balance.
abbrev pub account_is_active : User → Db → Bool
account_is_active current_user db =
    any (is_deposit_of current_user) db.transactions || ltb_ℤ (pos 0) current_user.balance

abbrev pub is_random : PixKeyType → Bool
is_random random = true
is_random _ = false

-- `data.key_type == PixKeyType.RANDOM and len(data.pix_key) > 36`
abbrev pub looks_like_code : CreateCall → Bool
looks_like_code c = is_random c.key_type && ltb 36 (length c.pix_key)

-- `if confirmed_pix: pix = confirmed_pix`
abbrev pub confirmed_or : PixTransaction → Db × Option PixTransaction → Http PixTransaction
confirmed_or pix (db, none) = (db, success pix)
confirmed_or pix (db, some confirmed_pix) = (db, success confirmed_pix)

-- What follows the creation; every error of `create_pix` is a `ValueError`.
unfoldable pub auto_confirm : Outcome PixTransaction → Http PixTransaction
auto_confirm (db, err e) = (db, failure 400)
auto_confirm (db, ok pix) =
    if status_eq pix.status created && type_eq pix.type sent
    then confirmed_or pix (confirm_pix pix.id db)
    else (db, success pix)

-- `create_pix_transaction`. A request that fails the validation of the screening is a `ValueError`.
unfoldable pub create_pix_transaction : User → CreateCall → Clock → Db → Http PixTransaction
unfolding auto_confirm
create_pix_transaction current_user c clock db =
    if not (account_is_active current_user db) && not (looks_like_code c)
    then (db, failure 403)
    else elim (screen_antifraud c.value current_user.id clock db) [
      | passed ↦ auto_confirm (create_pix db (record c { user_id = current_user.id }) sent)
      | blocked ↦ (db, failure 403)
      | invalid ↦ (db, failure 400)
    ]

-- `confirm_pix_transaction`, which asks for no owner.
unfoldable pub confirm_pix_transaction : ℕ → Db → Http PixTransaction
confirm_pix_transaction pix_id db =
    let (db', pix) = confirm_pix pix_id db in
    elim pix [ none ↦ (db', failure 404) | some t ↦ (db', success t) ]

-- `cancel_pix_scheduling`. The exception for an unknown transaction is caught by the last clause of
-- the `try`, which answers with status 500.
unfoldable pub cancel_pix_scheduling : ℕ → ℕ → Db → Http PixTransaction
cancel_pix_scheduling pix_id user_id db =
    let (db', result) = cancel_pix pix_id user_id db in
    elim result [
      | err e ↦ (db', failure 400)
      | ok pix ↦ elim pix [ none ↦ (db', failure 500) | some t ↦ (db', success t) ]
    ]

-- The gateway when it is asked to pay.
pub data PayGateway : Type 0 where
  no_pay_gateway payment_error payment_submitted : PayGateway

abbrev pub submitted : Text → PixTransaction → PixTransaction
submitted correlation_id t = record t { status = processing; correlation_id = correlation_id }

-- `execute_pix_payment_real`: the row afterwards, and whether the payment was submitted.
unfoldable pub execute_pix_payment_real :
    PixTransaction → Text → PayGateway → Db → Db × PixTransaction × Bool
execute_pix_payment_real pix correlation_id no_pay_gateway db = (db, pix, false)
execute_pix_payment_real pix correlation_id payment_error db =
    (update_transaction pix.id (set_status failed) db, set_status failed pix, false)
execute_pix_payment_real pix correlation_id payment_submitted db =
    (update_transaction pix.id (submitted correlation_id) db, submitted correlation_id pix, true)

abbrev pub is_own_sent : ℕ → ℕ → PixTransaction → Bool
is_own_sent pix_id user_id t = is_owned pix_id user_id t && type_eq t.type sent

-- `execute_pix_payment_endpoint`
unfoldable pub execute_pix_payment_endpoint : ℕ → ℕ → Text → PayGateway → Db → Http PixTransaction
unfolding execute_pix_payment_real
execute_pix_payment_endpoint pix_id user_id correlation_id gateway db =
    elim (first (is_own_sent pix_id user_id) db.transactions) [
      | none ↦ (db, failure 404)
      | some pix ↦
          if not (status_eq pix.status created)
          then (db, failure 400)
          else let (db', row, is_submitted) =
              execute_pix_payment_real pix correlation_id gateway db in
            if is_submitted then (db', success row) else (db', failure 500)
    ]

-- `sync_pix_charge_status_endpoint`: the owner is asked for after the synchronisation.
unfoldable pub sync_pix_charge_status_endpoint : ℕ → ℕ → StatusGateway → Db → Http PixTransaction
sync_pix_charge_status_endpoint charge_id user_id gateway db =
    let (db', pix) = sync_pix_charge_status charge_id gateway db in
    elim pix [
      | none ↦ (db', failure 404)
      | some t ↦ if t.user_id == user_id then (db', success t) else (db', failure 403)
    ]
