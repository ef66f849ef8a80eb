-- ===== src/Reconcile/Matches.antt =====
-- After a correction the platform has what the gateway has.
use biocodetechpay.Prelude.{
  ℕ, ◌≡◌, ◌⊎◌, ◌≤◌, ◌<◌, ◌-◌, min, refl, ◌∙◌, ap, ℤ, pos, negsuc, suc, pos_part, ◌+ℤ◌, ◌-ℤ◌,
  int_laws, parts_of_eq, true, Option, none, some, Text, arith, inl, inr, first-update_first_self,
  first-passes,
}
use biocodetechpay.Money.{Cents}
use biocodetechpay.Store.{Db, User, set_balance}
use biocodetechpay.Store.Total.{total_balance}
use biocodetechpay.Pix.Matrix.{get_matrix_user, has_email}
use biocodetechpay.Reconcile.Sums.{
  balance_of, auto_correction_max, internal_sum, matrix_balance, matrix_debit, set_matrix,
  total_internal,
}
use biocodetechpay.Reconcile.Customers.{customers-set_matrix}
use biocodetechpay.Reconcile.Worker.{
  AuditStatus, audit_ok, Correction, correct, absorb, sweep_surplus, run_single_audit, report,
}

get_matrix_user-set_matrix :
    (m : Text) (b : ℤ) (db : Db) (k : User)
    → get_matrix_user m db ≡ some k
    → get_matrix_user m (set_matrix m b db) ≡ some (set_balance b k)
get_matrix_user-set_matrix m b db k h =
    first-update_first_self (has_email m) (set_balance b) db.users k h
      (first-passes (has_email m) db.users k h)

-- The sum moves by what the matrix account does.
pub total_internal-set_matrix :
    (m : Text) (b : ℤ) (db : Db) (k : User)
    → get_matrix_user m db ≡ some k
    → total_internal m (set_matrix m b db) +ℤ k.balance ≡ total_internal m db +ℤ b
unfolding total_internal
total_internal-set_matrix m b db k h =
    let same : internal_sum m (set_matrix m b db) ≡ internal_sum m db =
      ap total_balance (customers-set_matrix m b db) in
    let now : matrix_balance m (set_matrix m b db) ≡ b =
      ap balance_of (get_matrix_user-set_matrix m b db k h) in
    let before : matrix_balance m db ≡ k.balance = ap balance_of h in
    rw (same, now, before) (omega int_laws)

pub difference_above : (x a : ℤ) (d : ℕ) → x ≡ a +ℤ pos d → x -ℤ a ≡ pos d
difference_above x a d h = rw h (omega int_laws)

pub difference_below : (x a : ℤ) (d : ℕ) → x +ℤ pos (suc d) ≡ a → x -ℤ a ≡ negsuc d
difference_below x a d h = rw (← h) (omega int_laws)

module _ (m : Text) (db : Db) (k : User) (h : get_matrix_user m db ≡ some k) where
  absorb_total :
      (d : Cents)
      → total_internal m (absorb m d db).0 +ℤ pos (min d (pos_part k.balance)) ≡ total_internal m db
  unfolding absorb
  absorb_total d =
      let b = k.balance -ℤ pos (matrix_debit d k) in
      rw (h, absorb) (omega (int_laws, parts_of_eq _ _ (total_internal-set_matrix m b db k h)))

  sweep_total :
      (d : Cents) → total_internal m (sweep_surplus m d db).0 ≡ total_internal m db +ℤ pos d
  unfolding sweep_surplus
  sweep_total d =
      let b = k.balance +ℤ pos d in
      rw (h, sweep_surplus)
        (omega (int_laws, parts_of_eq _ _ (total_internal-set_matrix m b db k h)))

  correct_above :
      (d : Cents) → 1 < d → d ≤ auto_correction_max → correct m (pos d) true db ≡ absorb m d db
  unfolding correct
  correct_above d lo hi = ground arith

  correct_below : (d : ℕ) → 0 < d → correct m (negsuc d) true db ≡ sweep_surplus m (suc d) db
  unfolding correct
  correct_below d lo = ground arith

  audit_lem :
      (a x : ℤ)
      → total_internal m db -ℤ a ≡ x
      → (run_single_audit m (some a) db db).0 ≡ (correct m x true db).0
  unfolding run_single_audit
  audit_lem a x e = rw (e, run_single_audit) (rw h refl)

  -- What the matrix account cannot cover stays as the difference.
  pub audit_absorbs :
      (a : ℤ) (d : Cents)
      → total_internal m db ≡ a +ℤ pos d
      → 1 < d
      → d ≤ auto_correction_max
      → total_internal m (run_single_audit m (some a) db db).0
        ≡ a +ℤ pos (d - min d (pos_part k.balance))
  audit_absorbs a d e lo hi =
      let moved =
        audit_lem a (pos d) (difference_above (total_internal m db) a d e)
        ∙ ap (λ (x : Db × AuditStatus × Option Correction). x.0) (correct_above d lo hi) in
      rw moved (omega (int_laws, parts_of_eq _ _ (absorb_total d), parts_of_eq _ _ e))

  pub audit_sweeps :
      (a : ℤ) (d : ℕ)
      → total_internal m db +ℤ pos (suc d) ≡ a
      → 0 < d
      → total_internal m (run_single_audit m (some a) db db).0 ≡ a
  audit_sweeps a d e lo =
      let moved =
        audit_lem a (negsuc d) (difference_below (total_internal m db) a d e)
        ∙ ap (λ (x : Db × AuditStatus × Option Correction). x.0) (correct_below d lo) in
      rw moved (sweep_total (suc d) ∙ e)

-- A difference that the audit corrects in full: more than a cent below the gateway, or more than a
-- cent above it and at most R$20.00 and what the matrix account has.
abbrev pub Correctable : ℤ → ℤ → User → Type 0
Correctable total a k =
    ((d : ℕ) × (total +ℤ pos (suc d) ≡ a) × (0 < d))
    ⊎ ((d : ℕ) × (total ≡ a +ℤ pos d)
        × (1 < d)
        × (d ≤ auto_correction_max)
        × (d ≤ pos_part k.balance))

settled :
    (m : Text) (a : ℤ) (db : Db) (k : User)
    → get_matrix_user m db ≡ some k
    → Correctable (total_internal m db) a k
    → total_internal m (run_single_audit m (some a) db db).0 ≡ a
settled m a db k h (inl (d, e, lo)) = audit_sweeps m db k h a d e lo
settled m a db k h (inr (d, e, lo, hi, covered)) =
    audit_absorbs m db k h a d e lo hi ∙ omega (int_laws, covered)

quiet :
    (m : Text) (a : ℤ) (db : Db)
    → total_internal m db ≡ a
    → run_single_audit m (some a) db db ≡ (db, report m db (some a) audit_ok none)
unfolding run_single_audit correct
quiet m a db e =
    let zero_difference : total_internal m db -ℤ a ≡ pos 0 = rw e (omega int_laws) in
    rw (zero_difference, run_single_audit) refl

-- Where no other program touches the database meanwhile, an audit of a difference that it corrects
-- leaves the platform with exactly what the gateway has, and the next audit finds nothing to
-- correct.
pub audit_settles :
    (m : Text) (a : ℤ) (db : Db) (k : User)
    → get_matrix_user m db ≡ some k
    → Correctable (total_internal m db) a k
    → let db' = (run_single_audit m (some a) db db).0 in
      (total_internal m db' ≡ a)
      × (run_single_audit m (some a) db' db' ≡ (db', report m db' (some a) audit_ok none))
audit_settles m a db k h c =
    let e = settled m a db k h c in (e, quiet m a (run_single_audit m (some a) db db).0 e)
