-- ===== src/Charge/Settle.antt =====
-- What one payment event does: to a payment without a row, and to a charge.
use biocodetechpay.Prelude.{
  true, false, ℕ, ◌≡◌, ◌≢◌, refl, pos, ◌+ℤ◌, none, some, Text, arith, first-update_first_self, [],
  ◌∷◌, ◌<◌, lt→ltb, ◌∙◌,
}
use biocodetechpay.Store.{
  Db, User, PixTransaction, find_user, find_transaction, update_transaction, confirmed, set_status,
  has_tx_id,
}
use biocodetechpay.Store.Total.{total_balance}
use biocodetechpay.Pix.Deferred.{own_id}
use biocodetechpay.Charge.Confirm.{credit_receiver}
use biocodetechpay.Charge.Credits.{
  free_credit, credit_pix_receipt_free, free_credit-total, credit_receiver_free,
  credit_receiver-transactions,
}
use biocodetechpay.Charge.Inbound.{
  Payment, inbound_key_credited, charge_confirmed, receive_payment, receive_row, receive_unknown,
  receive_charge, key_taken, insert_raises, credit_inbound, inbound_tx, resolve_recipient,
  fill_name,
}

fill_name-fields :
    (name : Text) (t : PixTransaction)
    → ((fill_name name t).id ≡ t.id) × ((fill_name name t).status ≡ t.status)
fill_name-fields [] t = (refl, refl)
fill_name-fields (c ∷ name) t = ground arith

pub credit_inbound_lem :
    (m : Text) (i : ℕ) (p : Payment) (r : User) (db : Db)
    → key_taken i db ≡ false
    → let (db', action) = credit_inbound m i p r db in
      (db'.transactions ≡ inbound_tx i p r.id p.value 0 ∷ db.transactions)
      × (db'.users ≡ (free_credit r p.value db).users)
      × (action ≡ inbound_key_credited)
unfolding credit_inbound free_credit
credit_inbound_lem m i p r db new =
    rw new (rw (credit_pix_receipt_free m db r p.value) (refl, refl, refl))

pub credit_inbound_refused :
    (m : Text) (i : ℕ) (p : Payment) (r : User) (db : Db)
    → key_taken i db ≡ true
    → credit_inbound m i p r db ≡ (db, insert_raises)
unfolding credit_inbound
credit_inbound_refused m i p r db taken = rw taken refl

pub inbound_row :
    (m : Text) (i : ℕ) (p : Payment) (r : User) (db : Db)
    → key_taken i db ≡ false
    → find_transaction i (credit_inbound m i p r db).0 ≡ some (inbound_tx i p r.id p.value 0)
inbound_row m i p r db new = rw ((credit_inbound_lem m i p r db new).0) (ground arith)

-- A payment that no row knows, of a positive value and with a receiver, under a key that no row has,
-- is credited to the receiver
-- with exactly its value, and a confirmed row under its identifier is added.
pub inbound_credits :
    (m key : Text) (i : ℕ) (p : Payment) (db : Db) (r : User)
    → p.payment_id ≡ some i
    → find_transaction i db ≡ none
    → 0 < p.value
    → resolve_recipient key p db ≡ some r
    → find_user r.id db ≡ some r
    → key_taken i db ≡ false
    → let (db', action) = receive_payment m key p db in
      (action ≡ inbound_key_credited)
      × (total_balance db'.users ≡ total_balance db.users +ℤ pos p.value)
      × (db'.transactions ≡ inbound_tx i p r.id p.value 0 ∷ db.transactions)
unfolding receive_payment
inbound_credits m key i p db r hp hi hv hr hu new =
    let row = credit_inbound_lem m i p r db new in
    rw (hp, receive_payment)
      (rw (hi, receive_row)
        (rw (lt→ltb _ _ hv, receive_unknown)
          (rw hr (row.2, rw row.1 (free_credit-total r p.value db hu), row.0))))

unfoldable pub settle_row : Payment → PixTransaction → PixTransaction
settle_row p t = fill_name p.customer_name (set_status confirmed t)

pub settle_row-fields :
    (p : Payment) (t : PixTransaction)
    → ((settle_row p t).id ≡ t.id) × ((settle_row p t).status ≡ confirmed)
unfolding settle_row
settle_row-fields p t = fill_name-fields p.customer_name (set_status confirmed t)

pub receive_charge_lem :
    (m : Text) (p : Payment) (t : PixTransaction) (db : Db)
    → t.status ≢ confirmed
    → receive_charge m p t db
      ≡ (credit_receiver m t (update_transaction t.id (settle_row p) db), charge_confirmed)
unfolding receive_charge settle_row
receive_charge_lem m p t db h = ground arith

pub receive_known :
    (m key : Text) (i : ℕ) (p : Payment) (db : Db) (t : PixTransaction)
    → p.payment_id ≡ some i
    → find_transaction i db ≡ some t
    → receive_payment m key p db ≡ receive_charge m p t db
unfolding receive_payment
receive_known m key i p db t hp hi = rw (hp, receive_payment) (rw (hi, receive_row) refl)

pub settled_row :
    (m : Text) (i : ℕ) (p : Payment) (t : PixTransaction) (db : Db)
    → find_transaction i db ≡ some t
    → find_transaction i (credit_receiver m t (update_transaction t.id (settle_row p) db))
      ≡ some (settle_row p t)
settled_row m i p t db h =
    let own : find_transaction t.id db ≡ some t = rw (own_id i db t h) at h in
    rw (credit_receiver-transactions m t (update_transaction t.id (settle_row p) db)) (
      rw (own_id i db t h) (
        first-update_first_self (has_tx_id t.id) (settle_row p) db.transactions t own
          (ground (arith, settle_row-fields p t))))

-- A payment of a charge that is not confirmed credits the receiver of the charge with exactly the
-- value of the charge, whatever the event says of the value, and confirms the row.
pub charge_credits :
    (m key : Text) (i : ℕ) (p : Payment) (db : Db) (t : PixTransaction) (r : User)
    → p.payment_id ≡ some i
    → find_transaction i db ≡ some t
    → t.status ≢ confirmed
    → find_user t.user_id db ≡ some r
    → find_user r.id db ≡ some r
    → let (db', action) = receive_payment m key p db in
      (action ≡ charge_confirmed)
      × (total_balance db'.users ≡ total_balance db.users +ℤ pos t.value)
      × ((t' : PixTransaction) × (find_transaction i db' ≡ some t') × (t'.status ≡ confirmed))
charge_credits m key i p db t r hp hi hs hu own =
    let after = update_transaction t.id (settle_row p) db in
    rw (receive_known m key i p db t hp hi ∙ receive_charge_lem m p t db hs) (
      refl,
      rw (credit_receiver_free m t after r hu) (free_credit-total r t.value after own),
      (settle_row p t, settled_row m i p t db hi, (settle_row-fields p t).1),
    )

pub receive_new :
    (m key : Text) (i : ℕ) (p : Payment) (db : Db)
    → p.payment_id ≡ some i
    → find_transaction i db ≡ none
    → receive_payment m key p db ≡ receive_unknown m key i p db
unfolding receive_payment
receive_new m key i p db hp hi = rw (hp, receive_payment) (rw (hi, receive_row) refl)
