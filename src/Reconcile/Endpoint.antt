-- ===== src/Reconcile/Endpoint.antt =====
-- `matrix_audit` of app/web_routes.py, which any user may call: it compares and corrects in one
-- session.
use biocodetechpay.Prelude.{
  ℤ, pos, ◌-ℤ◌, ◌-◌, ltb_ℤ, leb, ltb, Option, none, some, List, Text, ◌==◌, if◌then◌else◌,
}
use biocodetechpay.Money.{Cents}
use biocodetechpay.Store.{Db}
use biocodetechpay.Pix.Matrix.{get_matrix_user}
use biocodetechpay.Http.{Http, success, failure}
use biocodetechpay.Reconcile.Sums.{
  internal_sum, matrix_balance, total_internal, magnitude, auto_correction_max, error_threshold,
  matrix_debit, debit_matrix,
}
use biocodetechpay.Reconcile.Worker.{
  AuditStatus, audit_ok, audit_warn, audit_error, auto_corrected, Correction, matrix_debited,
}
use biocodetechpay.Reconcile.Forensics.{Discrepancy, fee_discrepancies}

-- The answer: the status, the correction, the first three figures of the break-down, and the
-- forensics.
pub record AuditAnswer : Type 0 where
  pub status : AuditStatus
  pub correction_applied : Option Correction
  pub customer_sum : ℤ
  pub matrix_sum : ℤ
  pub total : ℤ
  pub discrepancies : List Discrepancy

abbrev pub answer : Text → Text → Db → AuditStatus → Option Correction → AuditAnswer
answer matrix_email admin_email db status correction = record {
  status = status;
  correction_applied = correction;
  customer_sum = internal_sum matrix_email db;
  matrix_sum = matrix_balance matrix_email db;
  total = total_internal matrix_email db;
  discrepancies = fee_discrepancies matrix_email admin_email db;
}

abbrev pub severity : Cents → AuditStatus
severity abs_diff = if ltb abs_diff error_threshold then audit_warn else audit_error

-- The platform has more than the gateway.
unfoldable pub absorb_difference : Text → Text → Cents → Db → Http AuditAnswer
unfolding debit_matrix
absorb_difference matrix_email admin_email abs_diff db =
    if leb abs_diff auto_correction_max
    then elim (get_matrix_user matrix_email db) [
      | none ↦ (db, success (answer matrix_email admin_email db (severity abs_diff) none))
      | some matrix_user ↦
          let db' = debit_matrix matrix_email abs_diff matrix_user db in
          let debit = matrix_debit abs_diff matrix_user in
          (
            db',
            success (
                answer matrix_email admin_email db' auto_corrected
                  (some (matrix_debited debit (abs_diff - debit)))),
          )
    ]
    else (db, success (answer matrix_email admin_email db (severity abs_diff) none))

-- The gateway has more than the platform. The credit adds a float to a Decimal, which raises.
unfoldable pub credit_difference : Text → Text → Cents → Db → Http AuditAnswer
credit_difference matrix_email admin_email abs_diff db = elim (get_matrix_user matrix_email db) [
  | none ↦ (db, success (answer matrix_email admin_email db (severity abs_diff) none))
  | some matrix_user ↦ (db, failure 500)
]

-- `matrix_audit`
unfoldable pub matrix_audit : Text → Text → Option ℤ → Db → Http AuditAnswer
unfolding absorb_difference credit_difference
matrix_audit matrix_email admin_email none db =
    (db, success (answer matrix_email admin_email db audit_warn none))
matrix_audit matrix_email admin_email (some asaas) db =
    let diff = total_internal matrix_email db -ℤ asaas in
    if magnitude diff == 0
    then (db, success (answer matrix_email admin_email db audit_ok none))
    else if ltb_ℤ (pos 0) diff
    then absorb_difference matrix_email admin_email (magnitude diff) db
    else credit_difference matrix_email admin_email (magnitude diff) db
