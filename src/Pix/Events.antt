-- ===== src/Pix/Events.antt =====
-- Transfer events in sequence: the first one for a transfer in processing decides, the ledger is
-- closed with it, and repeated or contradicting events change nothing.
use biocodetechpay.Prelude.{
  ℕ, ◌≡◌, ◌≢◌, refl, Option, some, arith, Text, first-update_first_self, count_where,
  count_where-update_all, ◌+◌, List, [], ◌∷◌,
}
use biocodetechpay.Store.{
  Db, PixTransaction, sent, processing, confirmed, failed, set_status, has_tx_id, find_transaction,
  update_transaction, settled, reversed,
}
use biocodetechpay.Pix.Ledger.{
  pending_outbound, charged, settle_ledger_entries, reverse_ledger_entries, is_pending_of,
  close_entry,
}
use biocodetechpay.Pix.Deferred.{
  own_id, done_db, done_event, confirm, enrich-fields, release, debit_sender-transactions,
}
use biocodetechpay.Pix.Webhook.{
  transfer_updated, transfer_failed, transfer_event, TransferEvent, done, failed_event,
  debit_sender,
}

unfoldable pub failed_db : ℕ → PixTransaction → Db → Db
failed_db now t db =
    update_transaction t.id (set_status failed) (reverse_ledger_entries t.id now db).1

pub failed_event_lem :
    (m : Text) (name : Option Text) (now i : ℕ) (db : Db) (t : PixTransaction)
    → find_transaction i db ≡ some t
    → t.status ≡ processing
    → transfer_event m name now failed_event i db ≡ (failed_db now t db, transfer_updated)
unfolding transfer_event failed_db
failed_event_lem m name now i db t h hs = rw (h, transfer_event) (rw (hs, transfer_failed))

-- A failed event for a sent transfer in processing moves no balance and takes value and fee out of
-- the pending sum.
pub failed_releases :
    (m : Text) (name : Option Text) (now i : ℕ) (db : Db) (t : PixTransaction)
    → find_transaction i db ≡ some t
    → t.type ≡ sent
    → t.status ≡ processing
    → let (db', action) = transfer_event m name now failed_event i db in
      (action ≡ transfer_updated)
      × (db'.users ≡ db.users)
      × (pending_outbound db' t.user_id + charged t ≡ pending_outbound db t.user_id)
unfolding failed_db reverse_ledger_entries pending_outbound
failed_releases m name now i db t h ht hs =
    let own : find_transaction t.id db ≡ some t = rw (own_id i db t h) at h in
    rw (failed_event_lem m name now i db t h hs)
      (refl, refl, release (set_status failed) db t own ht hs (ground arith))

-- The row of the transfer after either event.
done_db-row :
    (m : Text) (name : Option Text) (now : ℕ) (t : PixTransaction) (db : Db)
    → find_transaction t.id db ≡ some t
    → find_transaction t.id (done_db m name now t db) ≡ some (confirm name t)
unfolding done_db settle_ledger_entries
done_db-row m name now t db h = rw (debit_sender-transactions m t db) (
    first-update_first_self (has_tx_id t.id) (confirm name) db.transactions t h
      (ground (arith, enrich-fields name (set_status confirmed t))))

failed_db-row :
    (now : ℕ) (t : PixTransaction) (db : Db)
    → find_transaction t.id db ≡ some t
    → find_transaction t.id (failed_db now t db) ≡ some (set_status failed t)
unfolding failed_db reverse_ledger_entries
failed_db-row now t db h =
    first-update_first_self (has_tx_id t.id) (set_status failed) db.transactions t h (ground arith)

-- A final status, and that no event moves a transfer out of it.
pub event_final :
    (m : Text) (name : Option Text) (now i : ℕ) (event : TransferEvent) (db : Db)
    (t : PixTransaction)
    → find_transaction i db ≡ some t
    → t.status ≢ processing
    → (transfer_event m name now event i db).0 ≡ db
unfolding transfer_event
event_final m name now i done db t h hs = rw (h, transfer_event) (ground arith)
event_final m name now i failed_event db t h hs = rw (h, transfer_event) (ground arith)

-- One delivery of the webhook: the event, the name that the gateway then gives, and the clock.
pub record Delivery : Type 0 where
  pub event : TransferEvent
  pub name : Option Text
  pub now : ℕ

abbrev pub deliver : Text → ℕ → Delivery → Db → Db
deliver m i d db = (transfer_event m d.name d.now d.event i db).0

-- Deliveries for one transfer, in the order in which they arrive.
abbrev pub deliver_all : Text → ℕ → List Delivery → Db → Db
deliver_all m i [] db = db
deliver_all m i (d ∷ deliveries) db = deliver_all m i deliveries (deliver m i d db)

deliveries_final :
    (m : Text) (i : ℕ) (deliveries : List Delivery) (db : Db) (t : PixTransaction)
    → find_transaction i db ≡ some t
    → t.status ≢ processing
    → deliver_all m i deliveries db ≡ db
deliveries_final m i [] db t h hs = refl
deliveries_final m i (d ∷ deliveries) db t h hs =
    rw (event_final m d.name d.now i d.event db t h hs) (deliveries_final m i deliveries db t h hs)

after_event :
    (m : Text) (name : Option Text) (now i : ℕ) (event : TransferEvent) (db : Db)
    (t : PixTransaction) (later : List Delivery)
    → find_transaction i db ≡ some t
    → t.status ≡ processing
    → let db' = (transfer_event m name now event i db).0 in deliver_all m i later db' ≡ db'
after_event m name now i done db t later h hs =
    let own : find_transaction t.id db ≡ some t = rw (own_id i db t h) at h in
    rw (done_event m name now i db t h hs) (
      deliveries_final m i later (done_db m name now t db) (confirm name t)
        (rw (own_id i db t h) (done_db-row m name now t db own))
        (ground (arith, enrich-fields name (set_status confirmed t))))
after_event m name now i failed_event db t later h hs =
    let own : find_transaction t.id db ≡ some t = rw (own_id i db t h) at h in
    rw (failed_event_lem m name now i db t h hs) (
      deliveries_final m i later (failed_db now t db) (set_status failed t)
        (rw (own_id i db t h) (failed_db-row now t db own)) (cc))

-- The first event for a transfer in processing decides: whatever further events for the same transfer
-- follow, done or failed, in any number and order, the whole database stays as the first one left it.
pub first_event_decides :
    (m : Text) (i : ℕ) (d : Delivery) (later : List Delivery) (db : Db) (t : PixTransaction)
    → find_transaction i db ≡ some t
    → t.status ≡ processing
    → deliver_all m i (d ∷ later) db ≡ deliver m i d db
first_event_decides m i d later db t h hs = after_event m d.name d.now i d.event db t later h hs

-- Either event for a transfer in processing leaves no pending ledger entry of that transfer.
pub event_closes_ledger :
    (m : Text) (name : Option Text) (now i : ℕ) (event : TransferEvent) (db : Db)
    (t : PixTransaction)
    → find_transaction i db ≡ some t
    → t.status ≡ processing
    → count_where (is_pending_of i) (transfer_event m name now event i db).0.ledger_entries ≡ 0
unfolding done_db failed_db settle_ledger_entries reverse_ledger_entries
event_closes_ledger m name now i done db t h hs = rw (done_event m name now i db t h hs) (
    rw (own_id i db t h) (
      count_where-update_all (is_pending_of t.id) (close_entry settled now)
        (debit_sender m t db).ledger_entries (λ e. ground arith)))
event_closes_ledger m name now i failed_event db t h hs =
    rw (failed_event_lem m name now i db t h hs) (
      rw (own_id i db t h) (
        count_where-update_all (is_pending_of t.id) (close_entry reversed now) db.ledger_entries
          (λ e. ground arith)))
