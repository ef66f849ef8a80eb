-- ===== src/Charge/Deposit.antt =====
-- `verify_static_deposit` of app/pix/router.py: deposits to the shared key that the gateway lists are
-- credited to the user whose document they show, unless a row says that they were before.
use biocodetechpay.Prelude.{
  ℕ, ◌+◌, Bool, true, false, not, ◌&&◌, ◌||◌, Option, none, some, List, [], ◌∷◌, ◌++◌, Text, codes,
  text_eq, is_digit, keep_if, length, slice, ltb, leb, ◌==◌, any, contains, if◌then◌else◌,
}
use biocodetechpay.Money.{Cents}
use biocodetechpay.Store.{
  Db, User, PixTransaction, random, received, confirmed, has_tx_id, find_user, add_transaction,
}
use biocodetechpay.Pix.Receipt.{credit_pix_receipt}
use biocodetechpay.Http.{Http, success, failure, id_text}

-- An entry of `list_pix_credits`. `payment` is absent for a deposit that the gateway ties to no
-- payment.
pub record ListedCredit : Type 0 where
  pub id : Option ℕ
  pub sender_doc : Text
  pub value : Cents
  pub payment : Option ℕ
  pub name : Text

-- An entry with `tx_id`.
pub record DepositCredit : Type 0 where
  pub id : ℕ
  pub sender_doc : Text
  pub value : Cents
  pub payment : Option ℕ
  pub name : Text

-- `tx.get("id") or str(uuid4())`: an entry without an identifier gets a fresh one at each call.
abbrev pub tx_id_of : Option ℕ → ℕ → ℕ
tx_id_of none fresh_id = fresh_id
tx_id_of (some tx_id) fresh_id = tx_id

-- The identifiers that a call makes, by the place of the entry.
abbrev pub identified : (ℕ → ℕ) → ℕ → List ListedCredit → List DepositCredit
identified fresh n [] = []
identified fresh n (tx ∷ credits) =
    record {
      id = tx_id_of tx.id (fresh n);
      sender_doc = tx.sender_doc;
      value = tx.value;
      payment = tx.payment;
      name = tx.name;
    }
    ∷ identified fresh (n + 1) credits

abbrev pub listed : (ℕ → ℕ) → Option (List ListedCredit) → Option (List DepositCredit)
listed fresh none = none
listed fresh (some credits) = some (identified fresh 0 credits)

-- A sender whom the gateway masks shows six digits of the middle.
abbrev pub sender_matches : Text → Text → Bool
sender_matches sender_doc user_doc =
    if text_eq sender_doc [] || text_eq user_doc []
    then false
    else if text_eq sender_doc user_doc
    then true
    else if length sender_doc == 6 && length user_doc == 11
    then text_eq (slice 3 9 user_doc) sender_doc
    else if leb 6 (length sender_doc)
    then contains user_doc sender_doc
    else false

abbrev pub verify_key : ℕ → Text
verify_key tx_id = codes "deposit-verify-" ++ id_text tx_id

abbrev pub inbound_key : ℕ → Text
inbound_key payment_id = codes "inbound-" ++ id_text payment_id

abbrev pub has_idempotency_key : Text → PixTransaction → Bool
has_idempotency_key key t = text_eq t.idempotency_key key

abbrev pub has_correlation : Text → PixTransaction → Bool
has_correlation ref t = text_eq t.correlation_id ref

abbrev pub seen_payment : Option ℕ → List PixTransaction → Bool
seen_payment none rows = false
seen_payment (some payment_id) rows =
    any (has_tx_id payment_id) rows || any (has_idempotency_key (inbound_key payment_id)) rows

-- The three tests of the rows.
abbrev pub already_credited : DepositCredit → List PixTransaction → Bool
already_credited c rows =
    any (has_idempotency_key (verify_key c.id)) rows
    || seen_payment c.payment rows
    || any (has_correlation (id_text c.id)) rows

abbrev pub is_due : Text → List PixTransaction → DepositCredit → Bool
is_due user_doc rows c =
    sender_matches (keep_if is_digit c.sender_doc) user_doc
    && ltb 0 c.value
    && not (already_credited c rows)

-- The stored reference is null, which no text equals; the empty text stands for it.
abbrev pub deposit_tx : Text → ℕ → ℕ → DepositCredit → Cents → Cents → PixTransaction
deposit_tx platform_key now user_id c net_credit fee = record {
  id = c.id;
  value = net_credit;
  pix_key = platform_key;
  key_type = random;
  type = received;
  status = confirmed;
  user_id = user_id;
  idempotency_key = verify_key c.id;
  correlation_id = [];
  scheduled_date = none;
  recipient_name = some c.name;
  fee_amount = some fee;
  created_at = now;
  payload_hash = none;
  copy_paste_code = none;
  expires_at = none;
}

-- The session with the number and the sum of the deposits that it has credited.
pub record DepositRun : Type 0 where
  pub db : Db
  pub credited_count : ℕ
  pub credited_total : Cents

unfoldable pub credit_deposit : Text → Text → ℕ → User → DepositCredit → DepositRun → DepositRun
credit_deposit matrix_email platform_key now current_user c run =
    let (credited, net_credit, fee) =
      credit_pix_receipt matrix_email run.db current_user c.value none in
    record {
      db = add_transaction (deposit_tx platform_key now current_user.id c net_credit fee) credited;
      credited_count = run.credited_count + 1;
      credited_total = run.credited_total + net_credit;
    }

unfoldable pub deposit_step :
    Text → Text → ℕ → ℕ → Text → List PixTransaction → DepositCredit → DepositRun → DepositRun
unfolding credit_deposit
deposit_step matrix_email platform_key now user_id user_doc rows c run =
    if is_due user_doc rows c
    then elim (find_user user_id run.db) [
      | none ↦ run
      | some current_user ↦ credit_deposit matrix_email platform_key now current_user c run
    ]
    else run

-- The loop. A query sees the committed rows alone, since the session does not flush by itself.
unfoldable pub deposit_loop :
    Text → Text → ℕ → ℕ → Text → List PixTransaction → List DepositCredit → DepositRun → DepositRun
unfolding deposit_step
deposit_loop matrix_email platform_key now user_id user_doc rows [] run = run
deposit_loop matrix_email platform_key now user_id user_doc rows (c ∷ credits) run =
    deposit_loop matrix_email platform_key now user_id user_doc rows credits
      (deposit_step matrix_email platform_key now user_id user_doc rows c run)

-- The primary key of the table, which a commit enforces.
abbrev pub distinct_ids : List PixTransaction → Bool
distinct_ids [] = true
distinct_ids (t ∷ rows) = not (any (has_tx_id t.id) rows) && distinct_ids rows

-- The commit, if something was credited.
unfoldable pub commit_deposits : Db → DepositRun → Http (ℕ × Cents)
commit_deposits before run =
    if run.credited_count == 0
    then (before, success (0, 0))
    else if distinct_ids run.db.transactions
    then (run.db, success (run.credited_count, run.credited_total))
    else (before, failure 500)

abbrev pub start_run : Db → DepositRun
start_run db = record { db = db; credited_count = 0; credited_total = 0 }

-- With the entries of the gateway's list, if there is a gateway.
unfoldable pub verify_listed :
    Text → Text → ℕ → ℕ → Option (List DepositCredit) → Db → Http (ℕ × Cents)
unfolding deposit_loop commit_deposits
verify_listed matrix_email platform_key now user_id gateway db = elim (find_user user_id db) [
  | none ↦ (db, failure 401)
  | some current_user ↦
      let user_doc = keep_if is_digit current_user.cpf_cnpj in
      if text_eq user_doc [] then (db, failure 400) else elim gateway [
        | none ↦ (db, failure 503)
        | some credits ↦ commit_deposits db (
            deposit_loop matrix_email platform_key now user_id user_doc db.transactions credits
              (start_run db))
      ]
]

-- `verify_static_deposit`
unfoldable pub verify_static_deposit :
    Text → Text → ℕ → ℕ → (ℕ → ℕ) → Option (List ListedCredit) → Db → Http (ℕ × Cents)
unfolding verify_listed
verify_static_deposit matrix_email platform_key now user_id fresh gateway =
    verify_listed matrix_email platform_key now user_id (listed fresh gateway)
