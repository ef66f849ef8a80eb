-- ===== src/Charge/Tests.antt =====
-- Charges and payments on a small database, and the theorems at inputs that meet their hypotheses.
use biocodetechpay.Prelude.{
  if◌then◌else◌, update_first, ℕ, ◌+◌, ◌≡◌, refl, pos, ◌+ℤ◌, none, some, Text, codes, [], ◌∷◌, List,
  keep_if, is_digit, sum_where, count_where,
}
use biocodetechpay.Store.{
  find_transaction, has_id, Db, PixTransaction, received, created, confirmed, random, set_status,
}
use biocodetechpay.Charge.Credits.{paid_in}
use biocodetechpay.Store.Total.{total_balance}
use biocodetechpay.Money.Format.{print_nat}
use biocodetechpay.Fees.{calculate_pix_fee}
use biocodetechpay.Pix.Receipt.{credit_pix_receipt}
use biocodetechpay.Pix.Samples.{matrix_email, ana, bank}
use biocodetechpay.Http.{success}
use biocodetechpay.Charge.Confirm.{process_pix_receipt}
use biocodetechpay.Charge.Inbound.{Payment, receive_payment, charge_confirmed, resolve_recipient}
use biocodetechpay.Charge.Book.{is_blocked, book, settle_once, receive_payment_refines}
use biocodetechpay.Charge.Diagram.{Follows, process_webhook_event-Follows}
use biocodetechpay.Charge.Once.{payment_credited_once, receive_all}
use biocodetechpay.Charge.Deposit.{ListedCredit, identified, verify_static_deposit, is_due}
use biocodetechpay.Charge.Repeat.{verify_credits, verify_repeats}
use biocodetechpay.Charge.Gate.{
  process_webhook_event, asaas_withdrawal_validation, approved, is_allowed_type, payment,
}
use biocodetechpay.Charge.Deviations.{receipt_mints}

abbrev wallet : Text
wallet = codes "platform"

abbrev charge : PixTransaction
charge = record {
  id = 40;
  value = 3000;
  pix_key = wallet;
  key_type = random;
  type = received;
  status = created;
  user_id = 1;
  idempotency_key = codes "k40";
  correlation_id = codes "c40";
  scheduled_date = none;
  recipient_name = none;
  fee_amount = none;
  created_at = 1000;
  payload_hash = none;
  copy_paste_code = none;
  expires_at = none;
}

abbrev charged : Db
charged = record bank { transactions = charge ∷ [] }

abbrev paid : Db
paid = record bank { transactions = set_status confirmed charge ∷ [] }

-- A payment to the shared key by the holder of ana's document.
abbrev paid_by_ana : Payment
paid_by_ana = record {
  payment_id = some 40;
  dest_key = wallet;
  payer_doc = codes "52998224725";
  customer = [];
  masked_cpf = [];
  value = 3000;
  payer_name = codes "Ana";
  customer_name = codes "Ana";
  spi_ref = codes "E2E";
  now = 2000;
}

-- The identifiers that two calls make.
abbrev made : ℕ → ℕ
made n = 500 + n

abbrev made_later : ℕ → ℕ
made_later n = 600 + n

abbrev deposits : List ListedCredit
deposits =
    record {
      id = some 70;
      sender_doc = codes "***982247**";
      value = 1500;
      payment = none;
      name = codes "Ana";
    }
    ∷ record {
      id = some 71;
      sender_doc = codes "11222333000181";
      value = 900;
      payment = none;
      name = codes "Bia";
    }
    ∷ []

-- The masked document leads to ana, who alone is credited.
masked_resolves :
    resolve_recipient wallet
      (record paid_by_ana { payer_doc = []; masked_cpf = codes "***.982.247-**" })
      bank
    ≡ some ana
unfolding resolve_recipient
masked_resolves = refl

verifies :
    (verify_static_deposit matrix_email wallet 5000 1 made (some deposits) bank).1
    ≡ success (1, 1500)
unfolding verify_static_deposit credit_pix_receipt calculate_pix_fee print_nat
verifies = refl

abbrev unnamed : List ListedCredit
unnamed =
    record {
      id = none;
      sender_doc = codes "***982247**";
      value = 1500;
      payment = none;
      name = codes "Ana";
    }
    ∷ []

-- A deposit without an identifier is credited by each of two verifications.
unnamed_again :
    let verify = λ (fresh : ℕ → ℕ) (db : Db).
      verify_static_deposit matrix_email wallet 5000 1 fresh (some unnamed) db in
    (verify made_later (verify made bank).0).1 ≡ success (1, 1500)
unfolding verify_static_deposit credit_pix_receipt calculate_pix_fee print_nat
unnamed_again = refl

approves : asaas_withdrawal_validation (codes "t") (codes "t") (pos 100) (codes "PIX") ≡ approved
unfolding asaas_withdrawal_validation is_allowed_type
approves = refl

credits_charge : (receive_payment matrix_email wallet paid_by_ana charged).1 ≡ charge_confirmed
unfolding receive_payment
credits_charge = refl

payment_credited_once_example :
    receive_all matrix_email wallet
      (paid_by_ana ∷ paid_by_ana ∷ record paid_by_ana { value = 9 } ∷ [])
      charged
    ≡ (receive_payment matrix_email wallet paid_by_ana charged).0
payment_credited_once_example =
    payment_credited_once matrix_email wallet 40 paid_by_ana
      (paid_by_ana ∷ record paid_by_ana { value = 9 } ∷ []) charged refl (refl, (refl, tt))
      (cc credits_charge)

verify_credits_example :
    let db' = (verify_static_deposit matrix_email wallet 5000 1 made (some deposits) bank).0 in
    let due = is_due (keep_if is_digit ana.cpf_cnpj) bank.transactions in
    (total_balance db'.users ≡ total_balance bank.users +ℤ pos 1500)
    × (1500 ≡ sum_where due (λ c. c.value) (identified made 0 deposits))
    × (1 ≡ count_where due (identified made 0 deposits))
verify_credits_example =
    verify_credits matrix_email wallet 5000 1 made deposits bank ana 1 1500 refl refl verifies

verify_repeats_example :
    let db' = (verify_static_deposit matrix_email wallet 5000 1 made (some deposits) bank).0 in
    verify_static_deposit matrix_email wallet 5000 1 made_later (some deposits) db'
    ≡ (db', success (0, 0))
verify_repeats_example =
    verify_repeats matrix_email wallet 5000 1 made deposits made_later bank ana (1, 1500) refl refl
      refl verifies

receipt_mints_example :
    let (db', response) = process_pix_receipt matrix_email 40 charged in
    (response ≡ success (set_status confirmed charge))
    × (db'.users ≡ update_first (has_id ana.id) (paid_in ana 3000) charged.users)
    × (total_balance db'.users ≡ total_balance charged.users +ℤ pos 3000)
receipt_mints_example = receipt_mints matrix_email 40 charged charge ana refl refl refl refl

receive_payment_refines_example :
    book (receive_payment matrix_email wallet paid_by_ana charged).0 ≡ (
      if is_blocked 40 charged (find_transaction 40 charged)
      then book charged
      else settle_once 40 3000 (book charged))
receive_payment_refines_example =
    receive_payment_refines matrix_email wallet 40 paid_by_ana charged refl (ana, refl, refl)

process_webhook_event-Follows_example :
    Follows 40 charge
      (process_webhook_event matrix_email wallet (payment paid_by_ana) charged).0.transactions
process_webhook_event-Follows_example =
    process_webhook_event-Follows matrix_email wallet (payment paid_by_ana) 40 charged charge refl
