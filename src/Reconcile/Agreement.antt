-- ===== src/Reconcile/Agreement.antt =====
-- The two audits against each other.
use biocodetechpay.Prelude.{
  ℕ, zero, ◌≡◌, ◌≢◌, ◌<◌, refl, sym, ◌∙◌, ap, ℤ, pos, negsuc, suc, ◌≤ℤ◌, ◌+ℤ◌, ◌-ℤ◌, some, Text,
  arith, Option-cases, Bool-cases, inl, inr, leb, int_laws, parts_of_eq,
}
use biocodetechpay.Store.{Db, User}
use biocodetechpay.Pix.Matrix.{get_matrix_user}
use biocodetechpay.Http.{Http, failure}
use biocodetechpay.Reconcile.Sums.{matrix_debit, total_internal, debit_matrix, auto_correction_max}
use biocodetechpay.Reconcile.Matches.{
  difference_above, difference_below, audit_sweeps, total_internal-set_matrix,
}
use biocodetechpay.Reconcile.Worker.{is_known, absorb, correct, run_single_audit}
use biocodetechpay.Reconcile.Endpoint.{
  AuditAnswer, matrix_audit, absorb_difference, credit_difference,
}

absorb-absorb_difference :
    (m admin : Text) (d : ℕ) (db : Db)
    → 1 < d
    → (correct m (pos d) (is_known (get_matrix_user m db)) db).0
      ≡ (absorb_difference m admin d db).0
unfolding correct absorb absorb_difference
absorb-absorb_difference m admin d db lo = elim (Option-cases (get_matrix_user m db)) [
  | inl gone ↦ rw (gone, absorb_difference) (ground arith)
  | inr (k, e) ↦ elim (Bool-cases (leb d auto_correction_max)) [
    | inl within ↦
        rw (e, absorb_difference)
          (rw (within, absorb_difference) (rw (e, absorb) (ground (arith, within, e))))
    | inr over ↦ rw (e, absorb_difference) (rw (over, absorb_difference) (ground (arith, over)))
  ]
]

run_single_audit_lem :
    (m : Text) (a x : ℤ) (db : Db)
    → total_internal m db -ℤ a ≡ x
    → (run_single_audit m (some a) db db).0 ≡ (correct m x (is_known (get_matrix_user m db)) db).0
unfolding run_single_audit
run_single_audit_lem m a x db e = rw (e, run_single_audit) refl

matrix_audit_lem :
    (m admin : Text) (a : ℤ) (d : ℕ) (db : Db)
    → total_internal m db -ℤ a ≡ pos (suc d)
    → matrix_audit m admin (some a) db ≡ absorb_difference m admin (suc d) db
unfolding matrix_audit
matrix_audit_lem m admin a d db e = rw (e, matrix_audit) (ground arith)

matrix_audit_below :
    (m admin : Text) (a : ℤ) (d : ℕ) (db : Db)
    → total_internal m db -ℤ a ≡ negsuc d
    → matrix_audit m admin (some a) db ≡ credit_difference m admin (suc d) db
unfolding matrix_audit
matrix_audit_below m admin a d db e = rw (e, matrix_audit) (ground arith)

-- Where the platform has as much as the gateway, or at least two cents more, the worker and the
-- audit of the administration leave the same database.
pub audits_agree :
    (m admin : Text) (a : ℤ) (d : ℕ) (db : Db)
    → total_internal m db ≡ a +ℤ pos d
    → d ≢ 1
    → (run_single_audit m (some a) db db).0 ≡ (matrix_audit m admin (some a) db).0
unfolding correct matrix_audit
audits_agree m admin a zero db e ne =
    let x = difference_above (total_internal m db) a 0 e in
    run_single_audit_lem m a (pos 0) db x ∙ rw (x, matrix_audit) refl
audits_agree m admin a (suc d) db e ne =
    let x = difference_above (total_internal m db) a (suc d) e in
    run_single_audit_lem m a (pos (suc d)) db x
    ∙ absorb-absorb_difference m admin (suc d) db (ground arith)
    ∙ ap (λ (r : Http AuditAnswer). r.0) (sym (matrix_audit_lem m admin a d db x))

-- Where the gateway has at least two cents more, the worker brings the platform to what the gateway
-- has, and the audit of the administration fails and changes nothing.
pub surplus_audits_differ :
    (m admin : Text) (a : ℤ) (d : ℕ) (db : Db) (k : User)
    → get_matrix_user m db ≡ some k
    → total_internal m db +ℤ pos (suc d) ≡ a
    → 0 < d
    → (total_internal m (run_single_audit m (some a) db db).0 ≡ a)
      × (matrix_audit m admin (some a) db ≡ (db, failure 500))
unfolding credit_difference
surplus_audits_differ m admin a d db k h e lo = (
  audit_sweeps m db k h a d e lo,
  matrix_audit_below m admin a d db (difference_below (total_internal m db) a d e)
      ∙ rw (h, credit_difference) refl,
)

-- Where the platform has one cent more, the worker changes nothing, and the audit of the
-- administration takes the cent from the matrix account, if it has one.
pub cent_audits_differ :
    (m admin : Text) (a : ℤ) (db : Db) (k : User)
    → get_matrix_user m db ≡ some k
    → total_internal m db ≡ a +ℤ pos 1
    → pos 1 ≤ℤ k.balance
    → ((run_single_audit m (some a) db db).0 ≡ db)
      × (total_internal m (matrix_audit m admin (some a) db).0 ≡ a)
unfolding run_single_audit correct absorb_difference debit_matrix
cent_audits_differ m admin a db k h e some_cent =
    let one = difference_above (total_internal m db) a 1 e in
    let debited : (absorb_difference m admin 1 db).0 ≡ debit_matrix m 1 k db =
      rw (h, absorb_difference) refl in
    let taken =
      ap (λ (r : Http AuditAnswer). r.0) (matrix_audit_lem m admin a 0 db one) ∙ debited in
    let b = k.balance -ℤ pos (matrix_debit 1 k) in
    (
      rw (one, run_single_audit) refl,
      ap (total_internal m) taken
          ∙ omega (
            int_laws,
            some_cent,
            parts_of_eq _ _ e,
            parts_of_eq _ _ (total_internal-set_matrix m b db k h),
          ),
    )
