-- ===== src/Reconcile/Tests.antt =====
-- Audits of a small bank, and the theorems at inputs that meet their hypotheses.
use biocodetechpay.Prelude.{
  ◌≡◌, ◌⊎◌, ◌≤◌, refl, inr, pos, ◌+ℤ◌, ◌-ℤ◌, none, some, Text, codes, [], ◌∷◌, List, true, false,
  arith, any,
}
use biocodetechpay.Store.{Db, User, set_balance}
use biocodetechpay.Pix.Samples.{matrix_email, ana, bia, matrix, bank}
use biocodetechpay.Reconcile.Sums.{total_internal}
use biocodetechpay.Reconcile.Worker.{run_single_audit, report, audit_ok}
use biocodetechpay.Reconcile.Daily.{Round, balance_audit_loop}
use biocodetechpay.Reconcile.Endpoint.{matrix_audit}
use biocodetechpay.Reconcile.Matches.{audit_settles}
use biocodetechpay.Reconcile.Agreement.{audits_agree}
use biocodetechpay.Reconcile.Days.{day_ends_once, started, days_ended, in_window}

abbrev owner_email : Text
owner_email = codes "owner@biocodetechpay.internal"

-- The matrix account has R$8.00.
abbrev treasury : User
treasury = set_balance (pos 800) matrix

abbrev funded : Db
funded = record bank { users = ana ∷ bia ∷ treasury ∷ [] }

-- The gateway has R$5.00 less than the platform.
settles :
    total_internal matrix_email (run_single_audit matrix_email (some (pos 10800)) funded funded).0
    ≡ pos 10800
unfolding run_single_audit total_internal ◌+ℤ◌ ◌-ℤ◌
settles = refl

abbrev at_three : Round
at_three = record {
  date = 7;
  hour = 3;
  minute = 1;
  change = λ db. db;
  is_reachable = true;
  asaas = some (pos 11300);
}

abbrev night : List Round
night = record at_three { is_reachable = false } ∷ at_three ∷ record at_three { minute = 2 } ∷ []

ends_once : days_ended 7 (balance_audit_loop matrix_email night (started funded)) ≡ 1
unfolding balance_audit_loop run_single_audit total_internal
ends_once = refl

audit_settles_example :
    let db' = (run_single_audit matrix_email (some (pos 10800)) funded funded).0 in
    (total_internal matrix_email db' ≡ pos 10800)
    × (run_single_audit matrix_email (some (pos 10800)) db' db'
        ≡ (db', report matrix_email db' (some (pos 10800)) audit_ok none))
unfolding total_internal ◌+ℤ◌
audit_settles_example =
    audit_settles matrix_email (pos 10800) funded treasury refl
      (inr (500, refl, omega arith, omega arith, omega arith))

audits_agree_example :
    (run_single_audit matrix_email (some (pos 10800)) funded funded).0
    ≡ (matrix_audit matrix_email owner_email (some (pos 10800)) funded).0
unfolding total_internal ◌+ℤ◌
audits_agree_example =
    audits_agree matrix_email owner_email (pos 10800) 500 funded refl (omega arith)

day_ends_once_example :
    let n = days_ended 7 (balance_audit_loop matrix_email night (started funded)) in
    (n ≤ 1) × ((any (in_window 7) night ≡ false) ⊎ (n ≡ 1))
day_ends_once_example = day_ends_once matrix_email 7 night funded (omega arith)
