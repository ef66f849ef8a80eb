-- ===== src/Pix/Deferred.antt =====
-- The deferred debit: what a transfer event does to the transaction, the balance, the pending sum and
-- the ledger, and that every later event for the transfer is ignored.
use biocodetechpay.Prelude.{
  ℕ, ◌+◌, ◌≡◌, refl, sym, ◌∙◌, ap, pos, ◌-ℤ◌, ◌+ℤ◌, int_laws, false, Option, none, some, arith,
  Text, text_eq, update_first, first-passes, first-update_first_self, first-update_first_other,
  sum_where, sum_where-update_first, Option-cases, Bool-cases, inl, inr, ◌==◌,
}
use biocodetechpay.Money.{Cents}
use biocodetechpay.Store.{
  Db, User, PixTransaction, TransactionType-cases, sent, processing, confirmed, has_id, find_user,
  set_balance, update_user, set_status, has_tx_id, find_transaction, update_transaction,
}
use biocodetechpay.Pix.Outcome.{ok}
use biocodetechpay.Pix.Ledger.{
  pending_outbound, is_outbound_pending, charged, get_available_balance, settle_ledger_entries,
}
use biocodetechpay.Pix.Matrix.{credit_fee, has_email, get_matrix_user}
use biocodetechpay.Pix.Solvency.{available_lem}
use biocodetechpay.Pix.Webhook.{
  transfer_updated, debit_sender, service_margin, enrich, transfer_done, transfer_event, done,
}

-- A fee credit touches neither the transactions nor a user who is not the matrix account.
credit_fee-transactions :
    (m : Text) (a : Cents) (db : Db) → (credit_fee m a db).transactions ≡ db.transactions
unfolding credit_fee
credit_fee-transactions m a db = ground arith

pub credit_fee_other :
    (m : Text) (a : Cents) (db : Db) (i : ℕ) (u : User)
    → find_user i db ≡ some u
    → text_eq u.email m ≡ false
    → find_user i (credit_fee m a db) ≡ some u
unfolding credit_fee
credit_fee_other m a db i u h k = elim (Bool-cases (a == 0)) [
  | inl zero_fee ↦ rw zero_fee h
  | inr positive ↦ elim (Option-cases (get_matrix_user m db)) [
    | inl missing ↦ rw (positive, missing, credit_fee) h
    | inr (x, e) ↦
        rw (positive, e, credit_fee)
          (first-update_first_other (has_id i) (has_email m) (set_balance (x.balance +ℤ pos a))
            db.users u h k (λ y. refl))
  ]
]

pub enrich-fields :
    (name : Option Text) (t : PixTransaction)
    → ((enrich name t).status ≡ t.status) × ((enrich name t).id ≡ t.id)
enrich-fields none t = (refl, refl)
enrich-fields (some name) t = ground arith

-- A row that leaves the pending state takes exactly its charge out of its user's pending sum.
pub release :
    (f : PixTransaction → PixTransaction) (db : Db) (t : PixTransaction)
    → find_transaction t.id db ≡ some t
    → t.type ≡ sent
    → t.status ≡ processing
    → is_outbound_pending t.user_id (f t) ≡ false
    → sum_where
          (is_outbound_pending t.user_id)
          charged
          (update_first (has_tx_id t.id) f db.transactions)
        + charged t
      ≡ pending_outbound db t.user_id
unfolding pending_outbound
release f db t h ht hs hf = ground (
  arith,
  sum_where-update_first (is_outbound_pending t.user_id) (has_tx_id t.id) charged f db.transactions
      t h,
)

pub own_id : (i : ℕ) (db : Db) (t : PixTransaction) → find_transaction i db ≡ some t → i ≡ t.id
own_id i db t h = ground (arith, first-passes (has_tx_id i) db.transactions t h)

pub debit_sender-transactions :
    (m : Text) (t : PixTransaction) (db : Db) → (debit_sender m t db).transactions ≡ db.transactions
unfolding debit_sender
debit_sender-transactions m t db = elim (TransactionType-cases t.type) [
  | inr incoming ↦ rw (incoming, debit_sender)
  | inl outgoing ↦ elim (Option-cases (find_user t.user_id db)) [
    | inl unknown ↦ rw (outgoing, unknown, debit_sender)
    | inr (s, e) ↦ rw (outgoing, e, debit_sender) (credit_fee-transactions m (service_margin t) _)
  ]
]

-- The sender's balance after the debit, unless the sender is the matrix account itself.
debit_sender-find :
    (m : Text) (t : PixTransaction) (db : Db) (s : User)
    → t.type ≡ sent
    → find_user t.user_id db ≡ some s
    → text_eq s.email m ≡ false
    → find_user t.user_id (debit_sender m t db)
      ≡ some (set_balance (s.balance -ℤ pos (charged t)) s)
unfolding debit_sender
debit_sender-find m t db s ht hs hm =
    let debited = set_balance (s.balance -ℤ pos (charged t)) in
    rw (ht, hs, debit_sender)
      (credit_fee_other m (service_margin t) (update_user t.user_id debited db) t.user_id
        (debited s)
        (first-update_first_self (has_id t.user_id) debited db.users s hs
          (first-passes (has_id t.user_id) db.users s hs))
        hm)

-- The database after a done event, and after a failed one, for a transfer in processing.
abbrev pub confirm : Option Text → PixTransaction → PixTransaction
confirm name u = enrich name (set_status confirmed u)

unfoldable pub done_db : Text → Option Text → ℕ → PixTransaction → Db → Db
done_db m name now t db =
    update_transaction t.id (confirm name) (settle_ledger_entries t.id now (debit_sender m t db)).1

pub done_event :
    (m : Text) (name : Option Text) (now i : ℕ) (db : Db) (t : PixTransaction)
    → find_transaction i db ≡ some t
    → t.status ≡ processing
    → transfer_event m name now done i db ≡ (done_db m name now t db, transfer_updated)
unfolding transfer_event done_db
done_event m name now i db t h hs = rw (h, transfer_event) (rw (hs, transfer_done))

done_db-find :
    (m : Text) (name : Option Text) (now : ℕ) (t : PixTransaction) (db : Db) (s : User)
    → t.type ≡ sent
    → find_user t.user_id db ≡ some s
    → text_eq s.email m ≡ false
    → find_user t.user_id (done_db m name now t db)
      ≡ some (set_balance (s.balance -ℤ pos (charged t)) s)
unfolding done_db settle_ledger_entries
done_db-find m name now t db s ht hu hm = debit_sender-find m t db s ht hu hm

done_db-pending :
    (m : Text) (name : Option Text) (now : ℕ) (t : PixTransaction) (db : Db)
    → find_transaction t.id db ≡ some t
    → t.type ≡ sent
    → t.status ≡ processing
    → pending_outbound (done_db m name now t db) t.user_id + charged t
      ≡ pending_outbound db t.user_id
unfolding done_db settle_ledger_entries pending_outbound
done_db-pending m name now t db h ht hs = rw (debit_sender-transactions m t db) (
    release (confirm name) db t h ht hs
      (ground (arith, enrich-fields name (set_status confirmed t))))

-- A done event for a sent transfer in processing debits the sender by exactly value and fee, and
-- takes as much out of the pending sum, so the available balance stays. The sender is not the matrix
-- account.
pub done_debits :
    (m : Text) (name : Option Text) (now i : ℕ) (db : Db) (t : PixTransaction) (s : User)
    → find_transaction i db ≡ some t
    → t.type ≡ sent
    → t.status ≡ processing
    → find_user t.user_id db ≡ some s
    → text_eq s.email m ≡ false
    → let (db', action) = transfer_event m name now done i db in
      (action ≡ transfer_updated)
      × (find_user t.user_id db' ≡ some (set_balance (s.balance -ℤ pos (charged t)) s))
      × (pending_outbound db' t.user_id + charged t ≡ pending_outbound db t.user_id)
      × (get_available_balance db' t.user_id ≡ get_available_balance db t.user_id)
done_debits m name now i db t s h ht hs hu hm =
    let own : find_transaction t.id db ≡ some t = rw (own_id i db t h) at h in
    let after = done_db m name now t db in
    let found = done_db-find m name now t db s ht hu hm in
    let less = done_db-pending m name now t db own ht hs in
    rw (done_event m name now i db t h hs) (
      refl,
      found,
      less,
      available_lem after t.user_id _ found
          ∙ ap ok (omega int_laws)
          ∙ sym (available_lem db t.user_id s hu),
    )
