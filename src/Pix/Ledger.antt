-- ===== src/Pix/Ledger.antt =====
-- Balances and ledger entries, app/pix/service.py.
use biocodetechpay.Prelude.{
  ℕ, ◌+◌, ℤ, pos, ◌-ℤ◌, Bool, ◌&&◌, ◌∷◌, none, some, sum_where, update_all, count_where, ◌==◌,
}
use biocodetechpay.Money.{Cents}
use biocodetechpay.Store.{
  fee_of, Db, PixTransaction, LedgerEntry, LedgerEntryType, LedgerEntryStatus, sent, processing,
  pending, settled, reversed, type_eq, status_eq, is_pending, find_user,
}
use biocodetechpay.Pix.Outcome.{Result, ok, err, user_not_found}

unfoldable pub get_balance : Db → ℕ → Result ℤ
get_balance db user_id = elim (find_user user_id db) [
  | none ↦ err user_not_found
  | some user ↦ ok user.balance
]

-- The outbound transactions of a user that wait for the gateway's answer.
abbrev pub is_outbound_pending : ℕ → PixTransaction → Bool
is_outbound_pending user_id t =
    t.user_id == user_id && type_eq t.type sent && status_eq t.status processing

abbrev pub charged : PixTransaction → Cents
charged t = t.value + fee_of t

unfoldable pub pending_outbound : Db → ℕ → Cents
pending_outbound db user_id = sum_where (is_outbound_pending user_id) charged db.transactions

unfoldable pub get_available_balance : Db → ℕ → Result ℤ
unfolding pending_outbound
get_available_balance db user_id = elim (find_user user_id db) [
  | none ↦ err user_not_found
  | some user ↦ ok (user.balance -ℤ pos (pending_outbound db user_id))
]

-- The entry is added as pending, the default of the source, which every caller leaves.
unfoldable pub create_ledger_entry : ℕ → ℕ → LedgerEntryType → Cents → ℕ → Db → Db
create_ledger_entry new_id account_id entry_type amount tx_id db = record db {
  ledger_entries =
      record {
        id = new_id;
        account_id = account_id;
        entry_type = entry_type;
        amount = amount;
        status = pending;
        tx_id = tx_id;
        settled_at = none;
      }
      ∷ db.ledger_entries;
}

abbrev pub is_pending_of : ℕ → LedgerEntry → Bool
is_pending_of tx_id e = e.tx_id == tx_id && is_pending e.status

abbrev pub close_entry : LedgerEntryStatus → ℕ → LedgerEntry → LedgerEntry
close_entry status now e = record e { status = status; settled_at = some now }

-- The count that the source returns, and the database.
unfoldable pub settle_ledger_entries : ℕ → ℕ → Db → ℕ × Db
settle_ledger_entries tx_id now db = (
  count_where (is_pending_of tx_id) db.ledger_entries,
  record db {
    ledger_entries = update_all (is_pending_of tx_id) (close_entry settled now) db.ledger_entries;
  },
)

unfoldable pub reverse_ledger_entries : ℕ → ℕ → Db → ℕ × Db
reverse_ledger_entries tx_id now db = (
  count_where (is_pending_of tx_id) db.ledger_entries,
  record db {
    ledger_entries = update_all (is_pending_of tx_id) (close_entry reversed now) db.ledger_entries;
  },
)
