-- ===== src/Pix/Lifecycle.antt =====
-- Confirmation, cancellation and reading of a transaction, app/pix/service.py.
use biocodetechpay.Prelude.{
  ℕ, Bool, ◌&&◌, Option, none, some, first, update_first, ◌==◌, if◌then◌else◌,
}
use biocodetechpay.Store.{
  Db, PixTransaction, confirmed, canceled, scheduled, status_eq, set_status, find_transaction,
  update_transaction,
}
use biocodetechpay.Pix.Outcome.{Outcome, ok, err, not_scheduled}

-- `none` is the `None` that the source returns for an unknown transaction.
unfoldable pub confirm_pix : ℕ → Db → Db × Option PixTransaction
confirm_pix pix_id db = elim (find_transaction pix_id db) [
  | none ↦ (db, none)
  | some pix ↦
      if status_eq pix.status confirmed
      then (db, some pix)
      else (update_transaction pix_id (set_status confirmed) db, some (set_status confirmed pix))
]

abbrev pub is_owned : ℕ → ℕ → PixTransaction → Bool
is_owned pix_id user_id t = t.id == pix_id && t.user_id == user_id

unfoldable pub cancel_pix : ℕ → ℕ → Db → Outcome (Option PixTransaction)
cancel_pix pix_id user_id db = elim (first (is_owned pix_id user_id) db.transactions) [
  | none ↦ (db, ok none)
  | some pix ↦
      if status_eq pix.status scheduled
      then (
        record db {
          transactions =
              update_first (is_owned pix_id user_id) (set_status canceled) db.transactions;
        },
        ok (some (set_status canceled pix)),
      )
      else (db, err not_scheduled)
]

unfoldable pub get_pix : ℕ → ℕ → Db → Option PixTransaction
get_pix pix_id user_id db = first (is_owned pix_id user_id) db.transactions
