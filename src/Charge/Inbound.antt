-- ===== src/Charge/Inbound.antt =====
-- The payment events of `_process_asaas_webhook_event` of app/pix/router.py: the resolution of the
-- receiver of a payment that the platform has no charge for, and the confirmation of a charge.
use biocodetechpay.Prelude.{
  ℕ, Bool, true, false, not, ◌&&◌, ◌||◌, Option, none, some, [], ◌∷◌, Text, codes, text_eq,
  is_digit, keep_if, length, first, ltb, any, ◌==◌, if◌then◌else◌,
}
use biocodetechpay.Money.{Cents}
use biocodetechpay.Store.{
  Db, User, PixTransaction, PixKeyType, cpf, cnpj, email, random, received, confirmed, status_eq,
  set_status, column_eq, find_transaction, update_transaction, add_transaction,
}
use biocodetechpay.Pix.Receipt.{credit_pix_receipt}
use biocodetechpay.Http.{id_text}
use biocodetechpay.Charge.Confirm.{credit_receiver}
use biocodetechpay.Charge.Deposit.{has_idempotency_key, inbound_key}

-- What the event and, where the event lacks it, the gateway's answer to a request for the payment say
-- of it: the destination key in lower case, the digits of the payer's document, the customer's
-- identifier, the masked document, the value that could be read, the payer's name, the name of the
-- customer, and the reference of the instant payment system. An absent text is empty.
pub record Payment : Type 0 where
  pub payment_id : Option ℕ
  pub dest_key : Text
  pub payer_doc : Text
  pub customer : Text
  pub masked_cpf : Text
  pub value : Cents
  pub payer_name : Text
  pub customer_name : Text
  pub spi_ref : Text
  pub now : ℕ

abbrev pub is_empty : Text → Bool
is_empty [] = true
is_empty (c ∷ s) = false

-- `a or b`, on texts.
abbrev pub or_text : Text → Text → Text
or_text [] t = t
or_text (c ∷ s) t = c ∷ s

abbrev pub or_else : Option User → Option User → Option User
or_else (some u) v = some u
or_else none v = v

-- `_raw_doc`
abbrev pub raw_doc : Text → Text
raw_doc s = keep_if is_digit s

abbrev pub is_doc_length : Text → Bool
is_doc_length s = length s == 11 || length s == 14

abbrev pub find_where : Bool → (User → Bool) → Db → Option User
find_where enabled p db = if enabled then first p db.users else none

abbrev pub has_virtual_key : Text → User → Bool
has_virtual_key key u = column_eq u.pix_random_key key || column_eq u.pix_email_key key

abbrev pub has_document : Text → User → Bool
has_document doc u = text_eq u.cpf_cnpj doc

abbrev pub has_customer : Text → User → Bool
has_customer customer u = column_eq u.asaas_customer_id customer

-- The masked document without `.`, `-` and spaces.
abbrev pub mask_strip : Text → Text
mask_strip s = keep_if (λ c. not (c == b'.' || c == b'-' || c == b' ')) s

-- SQL LIKE with `_` in place of `*`, which matches one character.
abbrev pub like_mask : Text → Text → Bool
like_mask [] [] = true
like_mask (m ∷ mask) (c ∷ s) = (m == b'*' || m == c) && like_mask mask s
like_mask _ _ = false

-- The layers of the resolution, in their order.
unfoldable pub resolve_recipient : Text → Payment → Db → Option User
resolve_recipient platform_key p db =
    let routed = not (text_eq p.dest_key platform_key) && not (is_empty p.dest_key) in
    let mask = mask_strip p.masked_cpf in
    or_else (find_where routed (has_virtual_key p.dest_key) db) (
      or_else
        (find_where (routed && is_doc_length (raw_doc p.dest_key))
          (has_document (raw_doc p.dest_key)) db)
        (or_else (find_where (is_doc_length p.payer_doc) (has_document p.payer_doc) db) (
          or_else (find_where (not (is_empty p.customer)) (has_customer p.customer) db)
            (find_where (length mask == 11) (λ u. like_mask mask u.cpf_cnpj) db))))

abbrev pub has_hyphen : Text → Bool
has_hyphen [] = false
has_hyphen (c ∷ s) = c == b'-' || has_hyphen s

abbrev pub effective_key : Payment → Text
effective_key p = or_text p.dest_key (or_text p.payer_doc (codes "unknown"))

abbrev pub effective_key_type : Text → PixKeyType
effective_key_type key =
    if length key == 36 && has_hyphen key
    then random
    else if length (raw_doc key) == 11
    then cpf
    else if length (raw_doc key) == 14
    then cnpj
    else email

abbrev pub inbound_tx : ℕ → Payment → ℕ → Cents → Cents → PixTransaction
inbound_tx payment_id p user_id net_credit fee = record {
  id = payment_id;
  value = net_credit;
  pix_key = effective_key p;
  key_type = effective_key_type (effective_key p);
  type = received;
  status = confirmed;
  user_id = user_id;
  idempotency_key = inbound_key payment_id;
  correlation_id = or_text p.spi_ref (id_text payment_id);
  scheduled_date = none;
  recipient_name = some p.payer_name;
  fee_amount = some fee;
  created_at = p.now;
  payload_hash = none;
  copy_paste_code = none;
  expires_at = none;
}

-- The `action` of the answer; `insert_raises` is an exception, where the database refuses the row.
pub data PaymentAction : Type 0 where
  no_payment_id no_matching_user inbound_key_credited insert_raises charge_already_confirmed
        charge_confirmed :
      PaymentAction

-- The column `idempotency_key` is unique. The other unique columns cannot clash: no row has the
-- identifier, and the new row has no digest.
abbrev pub key_taken : ℕ → Db → Bool
key_taken payment_id db = any (has_idempotency_key (inbound_key payment_id)) db.transactions

unfoldable pub credit_inbound : Text → ℕ → Payment → User → Db → Db × PaymentAction
credit_inbound matrix_email payment_id p recipient_user db =
    let (credited, net_credit, fee) =
      credit_pix_receipt matrix_email db recipient_user p.value none in
    if key_taken payment_id db then (db, insert_raises) else (
      add_transaction (inbound_tx payment_id p recipient_user.id net_credit fee) credited,
      inbound_key_credited,
    )

-- A payment that the database has no row for.
unfoldable pub receive_unknown : Text → Text → ℕ → Payment → Db → Db × PaymentAction
unfolding credit_inbound resolve_recipient
receive_unknown matrix_email platform_key payment_id p db =
    if ltb 0 p.value
    then elim (resolve_recipient platform_key p db) [
      | none ↦ (db, no_matching_user)
      | some recipient_user ↦ credit_inbound matrix_email payment_id p recipient_user db
    ]
    else (db, no_matching_user)

-- The payer's name is kept if there is one already.
abbrev pub fill_name : Text → PixTransaction → PixTransaction
fill_name [] t = t
fill_name (c ∷ s) t = elim t.recipient_name [
  | none ↦ record t { recipient_name = some (c ∷ s) }
  | some name ↦ if is_empty name then record t { recipient_name = some (c ∷ s) } else t
]

unfoldable pub receive_charge : Text → Payment → PixTransaction → Db → Db × PaymentAction
unfolding credit_receiver
receive_charge matrix_email p pix db =
    if status_eq pix.status confirmed then (db, charge_already_confirmed) else (
      credit_receiver matrix_email pix
          (update_transaction pix.id (λ t. fill_name p.customer_name (set_status confirmed t)) db),
      charge_confirmed,
    )

unfoldable pub receive_row : Text → Text → ℕ → Payment → Db → Db × PaymentAction
unfolding receive_unknown receive_charge
receive_row matrix_email platform_key payment_id p db = elim (find_transaction payment_id db) [
  | none ↦ receive_unknown matrix_email platform_key payment_id p db
  | some pix ↦ receive_charge matrix_email p pix db
]

-- A `PAYMENT_RECEIVED` or `PAYMENT_CONFIRMED` event.
unfoldable pub receive_payment : Text → Text → Payment → Db → Db × PaymentAction
unfolding receive_row
receive_payment matrix_email platform_key p db = elim p.payment_id [
  | none ↦ (db, no_payment_id)
  | some payment_id ↦ receive_row matrix_email platform_key payment_id p db
]
