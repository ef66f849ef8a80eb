-- ===== src/Api/Read.antt =====
-- What the reading of an open charge credits, `get_pix_transaction` of app/pix/router.py.
use biocodetechpay.Prelude.{
  ℕ, ◌≡◌, refl, ◌∙◌, ap, ◌+ℤ◌, pos, Bool, true, ◌&&◌, ◌==◌, List, [], ◌∷◌, some, Text, arith, first,
  update_first, first-passes, first-update_first_both, ==_iff,
}
use biocodetechpay.Store.{
  Db, User, PixTransaction, created, confirmed, received, find_user, find_transaction, has_id,
  has_tx_id, update_transaction,
}
use biocodetechpay.Store.Total.{total_balance}
use biocodetechpay.Pix.Lifecycle.{get_pix}
use biocodetechpay.Http.{success}
use biocodetechpay.Charge.Confirm.{StatusGateway, reports, confirmed_status, credit_receiver}
use biocodetechpay.Charge.Credits.{
  paid_in, free_credit, credit_receiver_free, free_credit-total, credit_receiver-transactions,
}
use biocodetechpay.Charge.Inbound.{
  Payment, receive_payment, charge_already_confirmed, receive_charge,
}
use biocodetechpay.Charge.Settle.{receive_known}
use biocodetechpay.Api.Refresh.{get_pix_transaction, lazy_refresh, refreshed}

first-and {ℓ} :
    {A : Type ℓ} (p q : A → Bool) (xs : List A) (x : A)
    → first p xs ≡ some x
    → q x ≡ true
    → first (λ y. p y && q y) xs ≡ some x
first-and p q [] x h k = ground arith
first-and p q (y ∷ xs) x h k = ground (arith, first-and p q xs x, h, k)

refreshed-fields :
    (name : Text) (t : PixTransaction)
    → ((refreshed name t).id ≡ t.id)
      × ((refreshed name t).user_id ≡ t.user_id)
      × ((refreshed name t).status ≡ confirmed)
      × ((refreshed name t).type ≡ t.type)
unfolding refreshed
refreshed-fields [] t = (refl, refl, refl, refl)
refreshed-fields (c ∷ s) t = ground arith

module _ (m key name : Text) (i : ℕ) (db : Db) (t : PixTransaction) (r : User)
    (found : find_transaction i db ≡ some t) (kind : t.type ≡ received)
    (open_charge : t.status ≡ created) (receiver : find_user t.user_id db ≡ some r)
    (own : find_user r.id db ≡ some r) where
  abbrev after : Db
  after = credit_receiver m t (update_transaction t.id (refreshed name) db)

  own_row : (t.id == i) ≡ true
  own_row = first-passes (has_tx_id i) db.transactions t found

  reads : get_pix i t.user_id db ≡ some t
  unfolding get_pix
  reads =
      first-and (has_tx_id i) (λ y. y.user_id == t.user_id) db.transactions t found (ground arith)

  refresh_lem :
      get_pix_transaction m i t.user_id (reports confirmed_status) name db
      ≡ (after, success (refreshed name t))
  unfolding get_pix_transaction lazy_refresh
  refresh_lem = rw (reads, get_pix_transaction) (rw (kind, open_charge) refl)

  found_after : find_transaction i after ≡ some (refreshed name t)
  found_after =
      let e : t.id ≡ i = (==_iff t.id i).0 own_row in
      rw (credit_receiver-transactions m t (update_transaction t.id (refreshed name) db)) (
        first-update_first_both (has_tx_id i) (has_tx_id t.id) (refreshed name) db.transactions t
          found (ap (λ k. first (has_tx_id k) db.transactions) e ∙ found)
          (ap (λ x. x == i) (refreshed-fields name t).0 ∙ own_row))

  get_after : get_pix i t.user_id after ≡ some (refreshed name t)
  unfolding get_pix
  get_after =
      first-and (has_tx_id i) (λ y. y.user_id == t.user_id) after.transactions (refreshed name t)
        found_after (ground (arith, (refreshed-fields name t).1))

  -- The reading, by its user, of an open received charge that the gateway reports as paid credits
  -- that user with exactly the value of the charge: no other balance moves, so the sum of all rises
  -- by it, and of the user only the credit limit changes besides. Every further reading by the user,
  -- whatever the gateway then says, and every payment event for the charge changes nothing.
  pub read_credits_once :
      (gateway : StatusGateway) (name' : Text) (p : Payment)
      → p.payment_id ≡ some i
      → let db' = (get_pix_transaction m i t.user_id (reports confirmed_status) name db).0 in
        (db'.users ≡ update_first (has_id r.id) (paid_in r t.value) db.users)
        × (total_balance db'.users ≡ total_balance db.users +ℤ pos t.value)
        × (get_pix_transaction m i t.user_id gateway name' db' ≡ (db', success (refreshed name t)))
        × (receive_payment m key p db' ≡ (db', charge_already_confirmed))
  unfolding get_pix_transaction receive_charge free_credit
  read_credits_once later name' p e = rw refresh_lem (
    ap (λ (d : Db). d.users)
        (credit_receiver_free m t (update_transaction t.id (refreshed name) db) r receiver),
    rw (credit_receiver_free m t (update_transaction t.id (refreshed name) db) r receiver)
        (free_credit-total r t.value (update_transaction t.id (refreshed name) db) own),
    rw (get_after, get_pix_transaction) (rw ((refreshed-fields name t).2) (ground arith)),
    receive_known m key i p after (refreshed name t) e found_after
        ∙ rw ((refreshed-fields name t).2) refl,
  )
