-- ===== src/Pix/Deviations.antt =====
-- Where the payment flow does not keep the promise of the available balance: a confirmation by
-- request, an internal transfer beside a pending one, and an event under the gateway's identifier.
use biocodetechpay.Prelude.{
  ℕ, ◌+◌, ◌≡◌, ◌≢◌, refl, ℤ, pos, ◌-ℤ◌, ◌+ℤ◌, ◌≤ℤ◌, int_laws, Option, none, some, arith, Text,
  update_first, first-update_first_self, first-update_first_other,
}
use biocodetechpay.Money.{Cents}
use biocodetechpay.Store.{
  Db, User, PixTransaction, sent, processing, confirmed, has_id, find_user, set_balance,
  update_user, set_status, has_tx_id, find_transaction, add_transaction,
}
use biocodetechpay.Pix.Outcome.{ok}
use biocodetechpay.Pix.Ledger.{
  pending_outbound, charged, get_available_balance, create_ledger_entry,
}
use biocodetechpay.Pix.Transfer.{TransferCall, execute_internal_transfer, sent_tx, received_tx}
use biocodetechpay.Pix.Create.{CreateCall, dispatch}
use biocodetechpay.Pix.Lifecycle.{confirm_pix}
use biocodetechpay.Pix.Solvency.{available_lem}
use biocodetechpay.Pix.Deferred.{own_id, release}
use biocodetechpay.Pix.Webhook.{
  already_confirmed, transfer_updated, transfer_event, TransferEvent, done,
}

-- A sent transfer in processing that is confirmed by request is never debited: the confirmation moves
-- no balance and releases value and fee from the pending sum, and the gateway's done event that
-- follows is taken for a repetition and changes nothing.
pub confirm_skips_debit :
    (m : Text) (name : Option Text) (now i : ℕ) (db : Db) (t : PixTransaction)
    → find_transaction i db ≡ some t
    → t.type ≡ sent
    → t.status ≡ processing
    → let db' = (confirm_pix i db).0 in
      (db'.users ≡ db.users)
      × (pending_outbound db' t.user_id + charged t ≡ pending_outbound db t.user_id)
      × (transfer_event m name now done i db' ≡ (db', already_confirmed))
unfolding confirm_pix transfer_event pending_outbound
confirm_skips_debit m name now i db t h ht hs =
    let own : find_transaction t.id db ≡ some t = rw (own_id i db t h) at h in
    let row =
      first-update_first_self (has_tx_id t.id) (set_status confirmed) db.transactions t own
        (ground arith) in
    rw (h, confirm_pix)
      (rw (hs, own_id i db t h)
        (
          refl,
          release (set_status confirmed) db t own ht hs (ground arith),
          rw (row, transfer_event),
        ))

-- The database after an internal transfer that is carried out.
accepted_db : Db → User → User → TransferCall → Db
accepted_db db s r c = add_transaction (received_tx c r) (
    add_transaction (sent_tx c s) (
      update_user r.id (set_balance (r.balance +ℤ pos c.amount))
        (update_user s.id (set_balance (s.balance -ℤ pos c.amount -ℤ pos 0)) db)))

transfer_accepted :
    (db : Db) (s r : User) (c : TransferCall)
    → s.id ≢ r.id
    → pos c.amount ≤ℤ s.balance
    → execute_internal_transfer db s r c ≡ (accepted_db db s r c, ok (sent_tx c s))
unfolding execute_internal_transfer accepted_db
transfer_accepted db s r c ne cover = ground arith

accepted_db-find :
    (db : Db) (s r : User) (c : TransferCall)
    → find_user s.id db ≡ some s
    → s.id ≢ r.id
    → find_user s.id (accepted_db db s r c)
      ≡ some (set_balance (s.balance -ℤ pos c.amount -ℤ pos 0) s)
unfolding accepted_db
accepted_db-find db s r c hs ne =
    let paid = set_balance (s.balance -ℤ pos c.amount -ℤ pos 0) in
    first-update_first_other (has_id s.id) (has_id r.id) (set_balance (r.balance +ℤ pos c.amount))
      (update_first (has_id s.id) paid db.users) (paid s)
      (first-update_first_self (has_id s.id) paid db.users s hs (ground arith)) (ground arith)
      (λ u. refl)

accepted_db-pending :
    (db : Db) (s r : User) (c : TransferCall) (i : ℕ)
    → pending_outbound (accepted_db db s r c) i ≡ pending_outbound db i
unfolding accepted_db pending_outbound
accepted_db-pending db s r c i = ground arith

-- An internal transfer looks at the balance alone: where the amount is covered by the balance but not
-- by the balance less what is pending, the transfer goes through and leaves the sender's available
-- balance negative.
pub internal_ignores_pending :
    (db : Db) (s r : User) (c : TransferCall)
    → find_user s.id db ≡ some s
    → s.id ≢ r.id
    → pos c.amount ≤ℤ s.balance
    → ¬ (pos (c.amount + pending_outbound db s.id) ≤ℤ s.balance)
    → let (db', result) = execute_internal_transfer db s r c in
      (result ≡ ok (sent_tx c s))
      × (available : ℤ) × (get_available_balance db' s.id ≡ ok available)
      × ¬ (pos 0 ≤ℤ available)
internal_ignores_pending db s r c hs ne cover short =
    let after = accepted_db db s r c in
    let left = s.balance -ℤ pos c.amount -ℤ pos 0 in
    rw (transfer_accepted db s r c ne cover) (
      refl,
      left -ℤ pos (pending_outbound after s.id),
      available_lem after s.id (set_balance left s) (accepted_db-find db s r c hs ne),
      rw (accepted_db-pending db s r c s.id) (omega int_laws),
    )

-- The row of a dispatched transfer carries an identifier of the program's own, so an event under any
-- other identifier that the database does not hold, such as the gateway's, changes nothing.
pub foreign_event_ignored :
    (m : Text) (name : Option Text) (now j : ℕ) (event : TransferEvent) (db : Db) (c : CreateCall)
    (fee : Cents)
    → find_transaction j db ≡ none
    → j ≢ c.new_id
    → let db' = (dispatch c fee db).0 in
      transfer_event m name now event j db' ≡ (db', transfer_updated)
unfolding transfer_event dispatch create_ledger_entry
foreign_event_ignored m name now j event db c fee h ne = ground arith
