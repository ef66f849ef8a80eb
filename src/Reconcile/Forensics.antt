-- ===== src/Reconcile/Forensics.antt =====
-- The forensics of fees in `matrix_audit` of app/web_routes.py: every confirmed transaction whose
-- fee is not the one that the fee engine charges today. A row without a fee is not compared.
use biocodetechpay.Prelude.{
  ℕ, ◌+◌, ℤ, pos, ◌-ℤ◌, pos_part, neg_part, Bool, ◌||◌, Option, none, some, List, [], ◌∷◌, Text,
  text_eq, ◌==◌, if◌then◌else◌,
}
use biocodetechpay.Money.{Cents}
use biocodetechpay.Fees.{calculate_pix_outbound_fee, calculate_pix_receive_fee}
use biocodetechpay.Store.{
  Db, User, PixTransaction, TransactionType, sent, received, confirmed, status_eq, find_user,
}

pub record Discrepancy : Type 0 where
  pub tx_id : ℕ
  pub user_id : ℕ
  pub fee_stored : Cents
  pub fee_expected : Cents
  pub delta : ℤ

unfoldable pub expected_fee : User → PixTransaction → TransactionType → Cents
unfolding calculate_pix_receive_fee
expected_fee u t sent = calculate_pix_outbound_fee u.cpf_cnpj t.value
expected_fee u t received = calculate_pix_receive_fee u.cpf_cnpj t.value

abbrev pub compared : User → PixTransaction → Cents → Discrepancy
compared u t fee = record {
  tx_id = t.id;
  user_id = t.user_id;
  fee_stored = fee;
  fee_expected = expected_fee u t t.type;
  delta = pos fee -ℤ pos (expected_fee u t t.type);
}

-- The accounts of the platform and of its owner are left out.
abbrev pub is_house : Text → Text → User → Bool
is_house matrix_email admin_email u = text_eq u.email matrix_email || text_eq u.email admin_email

-- A row without a fee is from before the fees were recorded, or of a transfer that is free.
abbrev pub with_fee : User → PixTransaction → Option Cents → List Discrepancy → List Discrepancy
with_fee u t none found = found
with_fee u t (some fee) found =
    if fee == expected_fee u t t.type then found else compared u t fee ∷ found

abbrev pub audited :
    Text → Text → PixTransaction → Option User → List Discrepancy → List Discrepancy
audited matrix_email admin_email t none found = found
audited matrix_email admin_email t (some u) found =
    if is_house matrix_email admin_email u then found else with_fee u t t.fee_amount found

unfoldable pub audit_fees : Text → Text → Db → List PixTransaction → List Discrepancy
audit_fees matrix_email admin_email db [] = []
audit_fees matrix_email admin_email db (t ∷ rows) =
    let found = audit_fees matrix_email admin_email db rows in
    if status_eq t.status confirmed
    then audited matrix_email admin_email t (find_user t.user_id db) found
    else found

unfoldable pub fee_discrepancies : Text → Text → Db → List Discrepancy
unfolding audit_fees
fee_discrepancies matrix_email admin_email db =
    audit_fees matrix_email admin_email db db.transactions

-- `_total_overcharged`
abbrev pub total_overcharged : List Discrepancy → Cents
total_overcharged [] = 0
total_overcharged (d ∷ found) = pos_part d.delta + total_overcharged found

-- `_total_undercharged`
abbrev pub total_undercharged : List Discrepancy → Cents
total_undercharged [] = 0
total_undercharged (d ∷ found) = neg_part d.delta + total_undercharged found
