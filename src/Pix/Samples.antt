-- ===== src/Pix/Samples.antt =====
-- A small database and some calls on it, on which the tests run.
use biocodetechpay.Prelude.{ℕ, pos, true, false, none, some, [], ◌∷◌, Text, codes}
use biocodetechpay.Store.{Db, User, PixTransaction, debit, pending, sent, processing, email, phone}
use biocodetechpay.Pix.Create.{CreateCall, dispatches}

abbrev pub matrix_email : Text
matrix_email = codes "matrix@biocodetechpay.internal"

abbrev pub account : ℕ → Text → Text → ℕ → User
account id cpf_cnpj mail balance = record {
  id = id;
  cpf_cnpj = cpf_cnpj;
  email = mail;
  balance = pos balance;
  credit_limit = 1000000;
  pix_random_key = none;
  pix_email_key = none;
  email_verified = true;
  document_verified = true;
  name = codes "Conta";
  hashed_password = [];
  asaas_customer_id = none;
  is_active = true;
  is_admin = false;
  email_verification_token = none;
  email_verification_sent_at = none;
  password_reset_token = none;
  password_reset_sent_at = none;
  contact = record {
    phone = none;
    address_street = none;
    address_number = none;
    address_complement = none;
    address_city = none;
    address_state = none;
    address_zip = none;
  };
}

abbrev pub ana : User
ana = account 1 (codes "52998224725") (codes "ana@example.com") 10000

abbrev pub bia : User
bia = account 2 (codes "11222333000181") (codes "bia@example.com") 500

abbrev pub matrix : User
matrix = account 3 (codes "00000000000100") matrix_email 0

abbrev pub bank : Db
bank = record {
  users = ana ∷ bia ∷ matrix ∷ [];
  transactions = [];
  ledger_entries = [];
  boletos = [];
}

abbrev pub to_bia : CreateCall
to_bia = record {
  value = 2500;
  pix_key = codes " BIA@example.com ";
  key_type = email;
  scheduled_date = none;
  recipient_name = none;
  idempotency_key = codes "k1";
  correlation_id = codes "c1";
  user_id = 1;
  gateway = dispatches (some (codes "E2E"));
  new_id = 10;
  received_id = 11;
  entry_id = 12;
  now = 1000;
}

-- An external transfer of R$60.00, by a telephone number.
abbrev pub abroad : CreateCall
abroad = record to_bia {
  value = 6000;
  pix_key = codes "+5511999990000";
  key_type = phone;
  idempotency_key = codes "k2";
  new_id = 20;
}

abbrev pub pending_row : PixTransaction
pending_row = record {
  id = 20;
  value = 6000;
  pix_key = codes "+5511999990000";
  key_type = phone;
  type = sent;
  status = processing;
  user_id = 1;
  idempotency_key = codes "k2";
  correlation_id = codes "E2E";
  scheduled_date = none;
  recipient_name = none;
  fee_amount = some 400;
  created_at = 1000;
  payload_hash = none;
  copy_paste_code = none;
  expires_at = none;
}

abbrev pub in_flight : Db
in_flight = record bank {
  transactions = pending_row ∷ [];
  ledger_entries =
      record {
        id = 12;
        account_id = 1;
        entry_type = debit;
        amount = 6400;
        status = pending;
        tx_id = 20;
        settled_at = none;
      }
      ∷ [];
}
