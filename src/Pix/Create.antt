-- ===== src/Pix/Create.antt =====
-- `create_pix` of app/pix/service.py: the idempotency check, the choice between an internal transfer,
-- an external one and a scheduled one, persist before dispatch, and the pending ledger entry.
use biocodetechpay.Prelude.{
  ℕ, ◌+◌, ℤ, pos, ltb_ℤ, ltb, Bool, true, false, Option, none, some, Text, text_eq, first,
  if◌then◌else◌,
}
use biocodetechpay.Money.{Cents}
use biocodetechpay.Fees.{calculate_pix_fee}
use biocodetechpay.Store.{
  Db, User, PixTransaction, PixKeyType, PixStatus, TransactionType, sent, received, created,
  processing, failed, scheduled, debit, find_user, add_transaction, set_status,
}
use biocodetechpay.Pix.Outcome.{
  Outcome, ok, err, sender_not_found, insufficient_balance, gateway_refused,
}
use biocodetechpay.Pix.Ledger.{get_available_balance, create_ledger_entry}
use biocodetechpay.Pix.Transfer.{find_recipient_user, execute_internal_transfer, TransferCall}

-- What the payment gateway, which is not part of the program, does with a dispatch: it is not
-- configured, it accepts with an identifier or none, or it raises with a reason.
pub data Gateway : Type 0 where
  not_configured : Gateway
  dispatches : Option Text → Gateway
  refuses : Text → Gateway

-- `PixCreateRequest` with the other arguments of the call, the fresh identifiers and the clock.
pub record CreateCall : Type 0 where
  pub value : Cents
  pub pix_key : Text
  pub key_type : PixKeyType
  pub scheduled_date : Option ℕ
  pub recipient_name : Option Text
  pub idempotency_key : Text
  pub correlation_id : Text
  pub user_id : ℕ
  pub gateway : Gateway
  pub new_id : ℕ
  pub received_id : ℕ
  pub entry_id : ℕ
  pub now : ℕ

abbrev pub has_key : Text → PixTransaction → Bool
has_key key t = text_eq t.idempotency_key key

abbrev pub find_by_key : Text → Db → Option PixTransaction
find_by_key key db = first (has_key key) db.transactions

abbrev pub new_pix : CreateCall → TransactionType → PixStatus → Cents → PixTransaction
new_pix c type status pix_fee = record {
  id = c.new_id;
  value = c.value;
  pix_key = c.pix_key;
  key_type = c.key_type;
  type = type;
  status = status;
  user_id = c.user_id;
  idempotency_key = c.idempotency_key;
  correlation_id = c.correlation_id;
  scheduled_date = c.scheduled_date;
  recipient_name = c.recipient_name;
  fee_amount = some pix_fee;
  created_at = c.now;
  payload_hash = none;
  copy_paste_code = none;
  expires_at = none;
}

-- `if end_to_end_id: pix.correlation_id = end_to_end_id`
abbrev pub correlated : Option Text → PixTransaction → PixTransaction
correlated none t = t
correlated (some end_to_end_id) t = record t { correlation_id = end_to_end_id }

-- The row in `PROCESSING`, with the pending debit of value and fee.
abbrev pub settle_later : CreateCall → Cents → PixTransaction → Db → Outcome PixTransaction
settle_later c pix_fee pix db = (
  create_ledger_entry c.entry_id c.user_id debit (c.value + pix_fee) pix.id
      (add_transaction pix db),
  ok pix,
)

-- The dispatch after the row was flushed. A refusal commits the row as failed and raises.
unfoldable pub dispatch : CreateCall → Cents → Db → Outcome PixTransaction
dispatch c pix_fee db =
    let pix = new_pix c sent created pix_fee in
    elim c.gateway [
      | not_configured ↦ settle_later c pix_fee (set_status processing pix) db
      | dispatches end_to_end_id ↦
          settle_later c pix_fee (set_status processing (correlated end_to_end_id pix)) db
      | refuses reason ↦ (add_transaction (set_status failed pix) db, err (gateway_refused reason))
    ]

abbrev pub outbound_fee : User → CreateCall → Cents
outbound_fee sender c = calculate_pix_fee sender.cpf_cnpj c.value true false

-- The row is dispatched if its fee is positive; a row with no fee would stay as it was created.
unfoldable pub pay_external : Db → ℤ → Cents → CreateCall → Outcome PixTransaction
pay_external db available pix_fee c =
    if ltb_ℤ available (pos (c.value + pix_fee))
    then (db, err insufficient_balance)
    else if ltb 0 pix_fee
    then dispatch c pix_fee db
    else (add_transaction (new_pix c sent created pix_fee) db, ok (new_pix c sent created pix_fee))

unfoldable pub send_external : Db → User → CreateCall → Outcome PixTransaction
send_external db sender c = elim (get_available_balance db c.user_id) [
  | err e ↦ (db, err e)
  | ok available ↦ pay_external db available (outbound_fee sender c) c
]

abbrev pub transfer_call : CreateCall → TransferCall
transfer_call c = record {
  amount = c.value;
  pix_key = c.pix_key;
  key_type = c.key_type;
  idempotency_key = c.idempotency_key;
  correlation_id = c.correlation_id;
  sent_id = c.new_id;
  received_id = c.received_id;
  now = c.now;
}

unfoldable pub send_now : Db → CreateCall → Outcome PixTransaction
send_now db c = elim (find_user c.user_id db) [
  | none ↦ (db, err sender_not_found)
  | some sender ↦ elim (find_recipient_user db c.pix_key c.key_type) [
    | some recipient ↦ execute_internal_transfer db sender recipient (transfer_call c)
    | none ↦ send_external db sender c
  ]
]

abbrev pub persist : CreateCall → TransactionType → PixStatus → Db → Outcome PixTransaction
persist c type status db =
    (add_transaction (new_pix c type status 0) db, ok (new_pix c type status 0))

unfoldable pub create_new : Db → CreateCall → TransactionType → Outcome PixTransaction
create_new db c sent = elim c.scheduled_date [
  | some date ↦ persist c sent scheduled db
  | none ↦ send_now db c
]
create_new db c received = persist c received created db

unfoldable pub create_pix : Db → CreateCall → TransactionType → Outcome PixTransaction
create_pix db c type = elim (find_by_key c.idempotency_key db) [
  | some existing_pix ↦ (db, ok existing_pix)
  | none ↦ create_new db c type
]
