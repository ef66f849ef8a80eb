-- ===== src/Api/Tests.antt =====
-- The endpoints on a small database, and the theorems at inputs that meet their hypotheses.
use biocodetechpay.Prelude.{update_first, ◌≡◌, refl, pos, ◌+ℤ◌, none, some, codes, [], ◌∷◌, true}
use biocodetechpay.Store.{has_id, Db, PixTransaction, sent, phone}
use biocodetechpay.Charge.Credits.{paid_in}
use biocodetechpay.Store.Total.{total_balance}
use biocodetechpay.Pix.Create.{create_pix}
use biocodetechpay.Pix.Lifecycle.{cancel_pix}
use biocodetechpay.Pix.Screen.{Clock, screen_antifraud}
use biocodetechpay.Pix.Samples.{matrix_email, ana, bank, abroad}
use biocodetechpay.Http.{success, failure}
use biocodetechpay.Charge.Confirm.{reports, confirmed_status, pending_status}
use biocodetechpay.Charge.Inbound.{
  Payment, receive_payment, charge_confirmed, charge_already_confirmed,
}
use biocodetechpay.Api.Send.{create_pix_transaction, cancel_pix_scheduling}
use biocodetechpay.Api.Fresh.{create_pix_transaction_fresh, answered}
use biocodetechpay.Api.Refresh.{get_pix_transaction, refreshed}
use biocodetechpay.Api.Read.{read_credits_once}
use biocodetechpay.Api.Issue.{
  ensure_asaas_customer, IssueCall, IssueGateway, ChargeData, generate_pix_charge,
  create_pix_charge_endpoint, real_charge,
}
use biocodetechpay.Api.Claimed.{issued_charge_pays}
use biocodetechpay.Api.Keys.{normalize_pix_key, mask_cpf_cnpj}
use biocodetechpay.Api.Statement.{list_statement}

abbrev noon : Clock
noon = record { now = 2000; hour = 12; minute = 0 }

abbrev charge_data : ChargeData
charge_data = record { charge_id = 40; qr_code = codes "00020126"; expires_at = none }

abbrev asaas : IssueGateway
asaas = record {
  is_configured = true;
  new_customer = some (codes "cus");
  new_charge = some charge_data;
}

abbrev request : IssueCall
request = record {
  value = 3000;
  description = codes "Aula";
  due_date = none;
  user_id = 1;
  idempotency_key = codes "k40";
  correlation_id = codes "c40";
  gateway = asaas;
  new_id = 50;
  local_key = 51;
  now = 1000;
}

abbrev charge : PixTransaction
charge = real_charge request charge_data

abbrev open_bank : Db
open_bank = record bank { transactions = charge ∷ [] }

abbrev paid_by_bia : Payment
paid_by_bia = record {
  payment_id = some 40;
  dest_key = [];
  payer_doc = codes "11222333000181";
  customer = [];
  masked_cpf = [];
  value = 3000;
  payer_name = codes "Bia";
  customer_name = codes "Bia";
  spi_ref = codes "E2E";
  now = 2000;
}

normalizes_phone : normalize_pix_key phone (codes "+55 (11) 99999-0000") ≡ codes "+5511999990000"
unfolding normalize_pix_key
normalizes_phone = refl

masks_cpf : mask_cpf_cnpj (codes "529.982.247-25") ≡ some (codes "***.982.247-**")
unfolding mask_cpf_cnpj
masks_cpf = refl

masks_address : mask_cpf_cnpj (codes "ana@example.com") ≡ some (codes "an***@example.com")
unfolding mask_cpf_cnpj
masks_address = refl

-- An unknown transaction is answered with an internal error.
cancels_nothing : cancel_pix_scheduling 7 1 bank ≡ (bank, failure 500)
unfolding cancel_pix_scheduling cancel_pix
cancels_nothing = refl

-- A value out of bounds is answered with an internal error.
refuses_charge :
    create_pix_charge_endpoint (record request { value = 0 }) bank ≡ (bank, failure 500)
unfolding create_pix_charge_endpoint
refuses_charge = refl

lists : (list_statement 1 50 none open_bank).total_transactions ≡ 1
unfolding list_statement
lists = refl

create_pix_transaction_fresh_example :
    create_pix_transaction ana abroad noon bank
    ≡ answered (create_pix bank (record abroad { user_id = 1 }) sent)
unfolding screen_antifraud
create_pix_transaction_fresh_example =
    create_pix_transaction_fresh ana abroad noon bank refl refl refl

read_credits_once_example :
    let db' =
      (get_pix_transaction matrix_email 40 1
        (reports confirmed_status)
        (codes "Bia")
        open_bank).0 in
    (db'.users ≡ update_first (has_id ana.id) (paid_in ana 3000) open_bank.users)
    × (total_balance db'.users ≡ total_balance open_bank.users +ℤ pos 3000)
    × (get_pix_transaction matrix_email 40 1 (reports pending_status) (codes "Bia") db'
        ≡ (db', success (refreshed (codes "Bia") charge)))
    × (receive_payment matrix_email [] paid_by_bia db' ≡ (db', charge_already_confirmed))
read_credits_once_example =
    read_credits_once matrix_email [] (codes "Bia") 40 open_bank charge ana refl refl refl refl refl
      (reports pending_status) (codes "Bia") paid_by_bia refl

issues : (generate_pix_charge request bank).1 ≡ success charge
unfolding generate_pix_charge ensure_asaas_customer
issues = refl

issued_charge_pays_example :
    let db' = (generate_pix_charge request bank).0 in
    let (paid, action) = receive_payment matrix_email [] paid_by_bia db' in
    (action ≡ charge_confirmed) × (total_balance paid.users ≡ total_balance bank.users +ℤ pos 3000)
issued_charge_pays_example =
    issued_charge_pays matrix_email [] request paid_by_bia bank (generate_pix_charge request bank).0
      ana charge refl (cc issues) refl
