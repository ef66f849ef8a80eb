-- ===== src/Pix/Transfer.antt =====
-- Transfers between two users of the platform, app/pix/internal_transfer.py.
use biocodetechpay.Prelude.{
  ℕ, pos, ◌+ℤ◌, ◌-ℤ◌, ltb_ℤ, Bool, false, Option, none, some, ◌++◌, Text, codes, text_eq, strip,
  lower, first, ◌==◌, if◌then◌else◌,
}
use biocodetechpay.Money.{Cents}
use biocodetechpay.Fees.{raw_digits}
use biocodetechpay.Store.{
  Db, User, PixTransaction, PixKeyType, cpf, cnpj, email, phone, random, sent, received, confirmed,
  update_user, set_balance, add_transaction,
}
use biocodetechpay.Pix.Outcome.{Outcome, ok, err, self_transfer, insufficient_balance}

-- `func.lower(column) == key`, on a nullable column.
abbrev pub lower_column_eq : Option Text → Text → Bool
lower_column_eq none key = false
lower_column_eq (some s) key = text_eq (lower s) key

unfoldable pub find_recipient_user : Db → Text → PixKeyType → Option User
find_recipient_user db pix_key cpf = first (λ u. text_eq u.cpf_cnpj (raw_digits pix_key)) db.users
find_recipient_user db pix_key cnpj = first (λ u. text_eq u.cpf_cnpj (raw_digits pix_key)) db.users
find_recipient_user db pix_key email =
    let email_key = lower (strip pix_key) in
    elim (first (λ u. text_eq (lower u.email) email_key) db.users) [
      | some user ↦ some user
      | none ↦ first (λ u. lower_column_eq u.pix_email_key email_key) db.users
    ]
find_recipient_user db pix_key random =
    let random_key = lower (strip pix_key) in
    first (λ u. lower_column_eq u.pix_random_key random_key) db.users
find_recipient_user db pix_key phone = none

-- What a transfer is called with, with the two fresh identifiers and the clock that it reads.
pub record TransferCall : Type 0 where
  pub amount : Cents
  pub pix_key : Text
  pub key_type : PixKeyType
  pub idempotency_key : Text
  pub correlation_id : Text
  pub sent_id : ℕ
  pub received_id : ℕ
  pub now : ℕ

abbrev pub received_key : Text → Text
received_key idempotency_key = codes "internal-recv-" ++ idempotency_key

abbrev pub sent_tx : TransferCall → User → PixTransaction
sent_tx c sender = record {
  id = c.sent_id;
  value = c.amount;
  pix_key = c.pix_key;
  key_type = c.key_type;
  type = sent;
  status = confirmed;
  user_id = sender.id;
  idempotency_key = c.idempotency_key;
  correlation_id = c.correlation_id;
  scheduled_date = none;
  recipient_name = none;
  fee_amount = none;
  created_at = c.now;
  payload_hash = none;
  copy_paste_code = none;
  expires_at = none;
}

abbrev pub received_tx : TransferCall → User → PixTransaction
received_tx c recipient = record {
  id = c.received_id;
  value = c.amount;
  pix_key = c.pix_key;
  key_type = c.key_type;
  type = received;
  status = confirmed;
  user_id = recipient.id;
  idempotency_key = received_key c.idempotency_key;
  correlation_id = c.correlation_id;
  scheduled_date = none;
  recipient_name = none;
  fee_amount = none;
  created_at = c.now;
  payload_hash = none;
  copy_paste_code = none;
  expires_at = none;
}

-- Amounts and balances are whole cents, on which `quantize` is the identity, and the fee is zero.
-- A null fee counts as zero wherever it is read.
unfoldable pub execute_internal_transfer :
    Db → (sender recipient : User) → TransferCall → Outcome PixTransaction
execute_internal_transfer db sender recipient c =
    if sender.id == recipient.id
    then (db, err self_transfer)
    else if ltb_ℤ sender.balance (pos c.amount)
    then (db, err insufficient_balance)
    else (
      add_transaction (received_tx c recipient) (
          add_transaction (sent_tx c sender) (
            update_user recipient.id (set_balance (recipient.balance +ℤ pos c.amount))
              (update_user sender.id (set_balance (sender.balance -ℤ pos c.amount -ℤ pos 0)) db))),
      ok (sent_tx c sender),
    )
