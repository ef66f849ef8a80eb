-- ===== src/Charge/Gate.antt =====
-- The webhook of app/pix/router.py as the gateway calls it, `asaas_webhook`, with the events that
-- `_process_asaas_webhook_event` tells apart, and `asaas_withdrawal_validation`.
use biocodetechpay.Prelude.{
  ℕ, ℤ, pos, leb_ℤ, ltb_ℤ, Bool, not, ◌&&◌, ◌||◌, Option, none, some, Text, codes, text_eq,
  if◌then◌else◌,
}
use biocodetechpay.Money.{Cents, reais}
use biocodetechpay.Store.{Db}
use biocodetechpay.Pix.Webhook.{TransferEvent, Action, transfer_event, transfer_updated}
use biocodetechpay.Charge.Inbound.{Payment, PaymentAction, is_empty, receive_payment}

-- The events by name. A transfer event carries the identifier, if it has one, and the name and the
-- time that the handler then reads.
pub data WebhookEvent : Type 0 where
  transfer : TransferEvent → Option ℕ → Option Text → ℕ → WebhookEvent
  lifecycle : WebhookEvent
  payment : Payment → WebhookEvent
  unhandled : WebhookEvent

-- The `action` of the answer.
pub data Answer : Type 0 where
  token_not_configured invalid_token logged ignored : Answer
  of_transfer : Action → Answer
  of_payment : PaymentAction → Answer

-- `_process_asaas_webhook_event`
unfoldable pub process_webhook_event : Text → Text → WebhookEvent → Db → Db × Answer
process_webhook_event matrix_email platform_key (transfer event none name now) db =
    (db, of_transfer transfer_updated)
process_webhook_event matrix_email platform_key (transfer event (some transfer_id) name now) db =
    let (db', action) = transfer_event matrix_email name now event transfer_id db in
    (db', of_transfer action)
process_webhook_event matrix_email platform_key lifecycle db = (db, logged)
process_webhook_event matrix_email platform_key (payment p) db =
    let (db', action) = receive_payment matrix_email platform_key p db in (db', of_payment action)
process_webhook_event matrix_email platform_key unhandled db = (db, ignored)

-- The comparison of tokens; a token that is not configured, or not sent, is empty.
abbrev pub token_accepted : Text → Text → Bool
token_accepted configured incoming = not (is_empty incoming) && text_eq incoming configured

-- `asaas_webhook`
unfoldable pub asaas_webhook : Text → Text → Text → Text → WebhookEvent → Db → Db × Answer
asaas_webhook matrix_email platform_key configured incoming event db =
    if is_empty configured
    then (db, token_not_configured)
    else if token_accepted configured incoming
    then process_webhook_event matrix_email platform_key event db
    else (db, invalid_token)

pub data Withdrawal : Type 0 where
  approved not_configured unauthorized invalid_value above_limit unsupported_type : Withdrawal

-- `_MAX_WITHDRAWAL`
abbrev pub max_withdrawal : Cents
max_withdrawal = reais 50000 0

-- `_ALLOWED_TYPES`
unfoldable pub is_allowed_type : Text → Bool
is_allowed_type withdrawal_type =
    text_eq withdrawal_type (codes "TRANSFER")
    || text_eq withdrawal_type (codes "PIX")
    || text_eq withdrawal_type (codes "BILL_PAYMENT")
    || text_eq withdrawal_type (codes "PIX_REFUND")

-- `asaas_withdrawal_validation`; a value that cannot be read counts as 0.
unfoldable pub asaas_withdrawal_validation : Text → Text → ℤ → Text → Withdrawal
asaas_withdrawal_validation configured incoming value withdrawal_type =
    if is_empty configured
    then not_configured
    else if not (token_accepted configured incoming)
    then unauthorized
    else if leb_ℤ value (pos 0)
    then invalid_value
    else if ltb_ℤ (pos max_withdrawal) value
    then above_limit
    else if not (is_empty withdrawal_type) && not (is_allowed_type withdrawal_type)
    then unsupported_type
    else approved
