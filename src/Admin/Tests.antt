-- ===== src/Admin/Tests.antt =====
-- The administrator's operations on a small database, and the theorems at inputs that meet their
-- hypotheses.
use biocodetechpay.Prelude.{◌≡◌, refl, pos, ◌+ℤ◌, none, some, codes, [], ◌∷◌}
use biocodetechpay.Store.{Db, phone}
use biocodetechpay.Store.Total.{total_balance}
use biocodetechpay.Pix.Transfer.{TransferCall}
use biocodetechpay.Pix.Samples.{matrix_email, ana, bia, matrix, bank}
use biocodetechpay.Http.{success, failure}
use biocodetechpay.Admin.Users.{AdminEditUserRequest, edit_user}
use biocodetechpay.Admin.Treasury.{
  accepts, matrix_transfer, asaas_transfer, matrix_account, external,
}
use biocodetechpay.Admin.Sweep.{leaving, paid_out, matrix_transfer_pays}

abbrev rename : AdminEditUserRequest
rename = record {
  name = some (codes " Ana Maria ");
  phone = none;
  address_street = none;
  address_number = none;
  address_complement = none;
  address_city = none;
  address_state = some (codes "sp");
  address_zip = none;
  email_verified = none;
  document_verified = none;
  credit_limit = none;
}

renamed : (edit_user 1 rename bank).1 ≡ success tt
unfolding edit_user
renamed = refl

-- The matrix account with R$50.00.
abbrev funded : Db
funded = record bank { users = ana ∷ bia ∷ record matrix { balance = pos 5000 } ∷ [] }

abbrev sweep : TransferCall
sweep = record {
  amount = 2000;
  pix_key = codes "+5511999990000";
  key_type = phone;
  idempotency_key = codes "s1";
  correlation_id = codes "c1";
  sent_id = 50;
  received_id = 51;
  now = 100;
}

sweeps : (matrix_transfer matrix_email sweep accepts funded).1 ≡ success external
unfolding matrix_transfer
sweeps = refl

-- A credit of the matrix account raises.
raises : asaas_transfer matrix_email matrix_account 100 accepts funded ≡ (funded, failure 500)
unfolding asaas_transfer
raises = refl

matrix_transfer_pays_example :
    let (db', response) = matrix_transfer matrix_email sweep accepts funded in
    (total_balance db'.users +ℤ pos (leaving matrix_email sweep accepts funded)
      ≡ total_balance funded.users)
    × (paid_out 2000 response ≡ leaving matrix_email sweep accepts funded)
matrix_transfer_pays_example =
    matrix_transfer_pays matrix_email sweep accepts funded (refl, (refl, (refl, tt)))
