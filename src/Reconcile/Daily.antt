-- ===== src/Reconcile/Daily.antt =====
-- `_run_end_of_day_reconciliation` and `balance_audit_loop` of app/core/audit_worker.py. Each round
-- of the loop finds a clock, and the database as the rest of the program has left it.
use biocodetechpay.Prelude.{
  ℕ, ℤ, Bool, true, false, ◌&&◌, not, ltb, Option, none, some, List, [], ◌∷◌, Text, ◌==◌,
  if◌then◌else◌,
}
use biocodetechpay.Store.{Db}
use biocodetechpay.Reconcile.Worker.{run_single_audit}

-- A round: the date, the hour and the minute in UTC, what the program has done to the database since
-- the round before, whether the sessions of the audit can be opened, and the balance at the gateway.
pub record Round : Type 0 where
  pub date : ℕ
  pub hour : ℕ
  pub minute : ℕ
  pub change : Db → Db
  pub is_reachable : Bool
  pub asaas : Option ℤ

pub data Cycle : Type 0 where
  single_audit end_of_day failed_end_of_day : ℕ → Cycle

pub record Worker : Type 0 where
  pub db : Db
  pub last_eod_date : Option ℕ
  pub cycles : List Cycle

-- An unreachable database is reported, and nothing is written.
unfoldable pub audit_cycle : Text → Round → Db → Db
audit_cycle matrix_email r db =
    if r.is_reachable then (run_single_audit matrix_email r.asaas db db).0 else db

abbrev pub is_date : Option ℕ → ℕ → Bool
is_date none date = false
is_date (some last) date = last == date

-- From 03:00 to 03:04, unless the date was reconciled.
abbrev pub is_eod_due : Round → Option ℕ → Bool
is_eod_due r last_eod_date = r.hour == 3 && ltb r.minute 5 && not (is_date last_eod_date r.date)

-- The reconciliation of the day. Its first step rounds balances that whole cents leave as they are.
-- The result of an audit that failed lacks the fields that the summary reads, which raises.
unfoldable pub run_end_of_day_reconciliation : Text → Round → Db → Db × Bool
unfolding audit_cycle
run_end_of_day_reconciliation matrix_email r db = (audit_cycle matrix_email r db, r.is_reachable)

abbrev pub end_day : Round → Worker → Db × Bool → Worker
end_day r w (db, true) = record {
  db = db;
  last_eod_date = some r.date;
  cycles = end_of_day r.date ∷ w.cycles;
}
end_day r w (db, false) = record {
  db = db;
  last_eod_date = w.last_eod_date;
  cycles = failed_end_of_day r.date ∷ w.cycles;
}

-- One round of the loop.
unfoldable pub round : Text → Round → Worker → Worker
unfolding run_end_of_day_reconciliation
round matrix_email r w =
    if is_eod_due r w.last_eod_date
    then end_day r w (run_end_of_day_reconciliation matrix_email r (r.change w.db))
    else record {
      db = audit_cycle matrix_email r (r.change w.db);
      last_eod_date = w.last_eod_date;
      cycles = single_audit r.date ∷ w.cycles;
    }

-- `balance_audit_loop`
unfoldable pub balance_audit_loop : Text → List Round → Worker → Worker
unfolding round
balance_audit_loop matrix_email [] w = w
balance_audit_loop matrix_email (r ∷ rounds) w =
    balance_audit_loop matrix_email rounds (round matrix_email r w)
