-- ===== src/Pix/Webhook.antt =====
-- The gateway's events for transfers, in `_process_asaas_webhook_event` of app/pix/router.py:
-- `TRANSFER_DONE` debits what `create_pix` deferred, `TRANSFER_FAILED` releases it.
use biocodetechpay.Prelude.{
  ℕ, ◌+◌, ◌-◌, pos, ◌-ℤ◌, Bool, true, Option, none, some, Text, codes, text_eq, ◌||◌, if◌then◌else◌,
}
use biocodetechpay.Money.{Cents}
use biocodetechpay.Fees.{pix_network_fee}
use biocodetechpay.Store.{
  fee_of, Db, PixTransaction, sent, received, processing, confirmed, failed, status_eq, set_status,
  set_balance, find_user, update_user, find_transaction, update_transaction,
}
use biocodetechpay.Pix.Ledger.{settle_ledger_entries, reverse_ledger_entries}
use biocodetechpay.Pix.Matrix.{credit_fee}

-- The `action` of the answer.
pub data Action : Type 0 where
  already_confirmed already_failed invalid_transition transfer_updated : Action

-- The margin over the network fee; a difference that is not positive is not credited, so the
-- subtraction may stop at zero.
abbrev pub service_margin : PixTransaction → Cents
service_margin t = fee_of t - pix_network_fee

-- The deferred debit of a sent transfer, and the margin that goes to the matrix account.
unfoldable pub debit_sender : Text → PixTransaction → Db → Db
debit_sender matrix_email t db = elim t.type [
  | received ↦ db
  | sent ↦ elim (find_user t.user_id db) [
    | none ↦ db
    | some sender ↦
        credit_fee matrix_email (service_margin t)
          (update_user t.user_id (set_balance (sender.balance -ℤ pos (t.value + fee_of t))) db)
  ]
]

-- The names that count as missing.
abbrev pub is_fallback_name : Option Text → Bool
is_fallback_name none = true
is_fallback_name (some name) =
    text_eq name (codes "")
    || text_eq name (codes "Destinatario nao identificado")
    || text_eq name (codes "Destinatario externo")

-- The name that the gateway gives for a transfer, if it gives one, in place of a missing one.
abbrev pub enrich : Option Text → PixTransaction → PixTransaction
enrich none t = t
enrich (some name) t =
    if is_fallback_name t.recipient_name then record t { recipient_name = some name } else t

unfoldable pub transfer_done : Text → Option Text → ℕ → PixTransaction → Db → Db × Action
transfer_done matrix_email resolved_name now t db =
    if status_eq t.status confirmed
    then (db, already_confirmed)
    else if status_eq t.status processing
    then (
      update_transaction t.id (λ u. enrich resolved_name (set_status confirmed u))
          (settle_ledger_entries t.id now (debit_sender matrix_email t db)).1,
      transfer_updated,
    )
    else (db, invalid_transition)

unfoldable pub transfer_failed : ℕ → PixTransaction → Db → Db × Action
transfer_failed now t db =
    if status_eq t.status failed
    then (db, already_failed)
    else if status_eq t.status processing
    then (
      update_transaction t.id (set_status failed) (reverse_ledger_entries t.id now db).1,
      transfer_updated,
    )
    else (db, invalid_transition)

pub data TransferEvent : Type 0 where
  done failed_event : TransferEvent

abbrev pub handle : Text → Option Text → ℕ → TransferEvent → PixTransaction → Db → Db × Action
handle matrix_email resolved_name now done t db = transfer_done matrix_email resolved_name now t db
handle matrix_email resolved_name now failed_event t db = transfer_failed now t db

-- An event for a transfer that is not in the database changes nothing.
unfoldable pub transfer_event : Text → Option Text → ℕ → TransferEvent → ℕ → Db → Db × Action
unfolding transfer_done transfer_failed
transfer_event matrix_email resolved_name now event transfer_id db =
    elim (find_transaction transfer_id db) [
      | none ↦ (db, transfer_updated)
      | some t ↦ handle matrix_email resolved_name now event t db
    ]
