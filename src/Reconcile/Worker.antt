-- ===== src/Reconcile/Worker.antt =====
-- `_run_single_audit` of app/core/audit_worker.py. The sums are taken in one session, and the
-- correction is written in another, after the gateway has answered: `db` is the database of the
-- first, `live` that of the second. The analysis by a language model reads the result only.
use biocodetechpay.Prelude.{
  ℕ, ℤ, pos, negsuc, ◌-ℤ◌, ◌-◌, ltb_ℤ, leb, Bool, true, false, ◌&&◌, Option, none, some, Text,
  length, ◌==◌, if◌then◌else◌,
}
use biocodetechpay.Money.{Cents}
use biocodetechpay.Store.{Db, User}
use biocodetechpay.Pix.Matrix.{get_matrix_user}
use biocodetechpay.Reconcile.Sums.{
  customers, internal_sum, matrix_balance, total_internal, magnitude, auto_correction_max,
  error_threshold, matrix_debit, debit_matrix, credit_matrix,
}

pub data AuditStatus : Type 0 where
  audit_ok warn_no_gateway auto_corrected audit_error audit_warn : AuditStatus

-- `correction_applied`: what was moved, and what was not covered.
pub data Correction : Type 0 where
  matrix_debited : Cents → Cents → Correction
  matrix_credited : Cents → Correction

pub record AuditResult : Type 0 where
  pub customer_count : ℕ
  pub customer_sum : ℤ
  pub matrix_sum : ℤ
  pub total : ℤ
  pub asaas_balance : Option ℤ
  pub signed_diff : Option ℤ
  pub status : AuditStatus
  pub correction_applied : Option Correction

abbrev pub report : Text → Db → Option ℤ → AuditStatus → Option Correction → AuditResult
report matrix_email db asaas status correction = record {
  customer_count = length (customers matrix_email db);
  customer_sum = internal_sum matrix_email db;
  matrix_sum = matrix_balance matrix_email db;
  total = total_internal matrix_email db;
  asaas_balance = asaas;
  signed_diff = elim asaas [ none ↦ none | some a ↦ some (total_internal matrix_email db -ℤ a) ];
  status = status;
  correction_applied = correction;
}

abbrev pub is_known : Option User → Bool
is_known none = false
is_known (some matrix_user) = true

-- The platform has more than the gateway: the matrix account absorbs the difference as far as it can.
unfoldable pub absorb : Text → Cents → Db → Db × AuditStatus × Option Correction
unfolding debit_matrix
absorb matrix_email abs_diff live = elim (get_matrix_user matrix_email live) [
  | none ↦ (live, audit_error, none)
  | some live_matrix ↦ (
    debit_matrix matrix_email abs_diff live_matrix live,
    auto_corrected,
    some (
        matrix_debited (matrix_debit abs_diff live_matrix)
          (abs_diff - matrix_debit abs_diff live_matrix)),
  )
]

-- The gateway has more than the platform: the whole surplus goes to the matrix account.
unfoldable pub sweep_surplus : Text → Cents → Db → Db × AuditStatus × Option Correction
unfolding credit_matrix
sweep_surplus matrix_email abs_diff live = elim (get_matrix_user matrix_email live) [
  | none ↦ (live, audit_warn, none)
  | some live_matrix ↦ (
    credit_matrix matrix_email abs_diff live_matrix live,
    auto_corrected,
    some (matrix_credited abs_diff),
  )
]

-- What a difference leads to. A difference of one cent is neither below the tolerance nor above it.
unfoldable pub correct : Text → ℤ → Bool → Db → Db × AuditStatus × Option Correction
unfolding absorb sweep_surplus
correct matrix_email signed_diff has_matrix live =
    let abs_diff = magnitude signed_diff in
    if abs_diff == 0
    then (live, audit_ok, none)
    else if ltb_ℤ (pos 1) signed_diff && leb abs_diff auto_correction_max && has_matrix
    then absorb matrix_email abs_diff live
    else if ltb_ℤ signed_diff (negsuc 0) && has_matrix
    then sweep_surplus matrix_email abs_diff live
    else (live, if leb error_threshold abs_diff then audit_error else audit_warn, none)

-- `_run_single_audit`; `asaas` is the balance that the gateway answers, if it does.
unfoldable pub run_single_audit : Text → Option ℤ → Db → Db → Db × AuditResult
unfolding correct
run_single_audit matrix_email none db live =
    (live, report matrix_email db none warn_no_gateway none)
run_single_audit matrix_email (some asaas) db live =
    let (live', status, correction) =
      correct matrix_email (total_internal matrix_email db -ℤ asaas)
        (is_known (get_matrix_user matrix_email db)) live in
    (live', report matrix_email db (some asaas) status correction)
