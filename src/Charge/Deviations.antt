-- ===== src/Charge/Deviations.antt =====
-- Where the confirmation of a charge departs from what it is for: a confirmation that no payment
-- stands behind, and a status taken from the gateway that loses or repeats the credit.
use biocodetechpay.Prelude.{
  true, false, ℕ, ◌≡◌, ◌≢◌, refl, pos, ◌+ℤ◌, some, Text, arith, first, update_first,
  first-update_first_self, false, ◌∙◌, Bool-cases, inl, inr, ap, ◌==◌, first-passes, List, [], ◌∷◌,
}
use biocodetechpay.Store.{
  Db, User, PixTransaction, PixStatus, received, created, processing, failed, canceled, scheduled,
  confirmed, has_id, find_user, find_transaction, has_tx_id, set_status, status_eq, type_eq,
  update_transaction,
}
use biocodetechpay.Store.Total.{total_balance}
use biocodetechpay.Http.{success}
use biocodetechpay.Charge.Confirm.{
  process_pix_receipt, confirm_charge, sync_pix_charge_status, ChargeStatus, confirmed_status,
  reports, mapped_status, is_received_charge,
}
use biocodetechpay.Charge.Credits.{paid_in, free_credit, free_credit-total, credit_receiver_free}
use biocodetechpay.Charge.Inbound.{
  Payment, receive_payment, charge_already_confirmed, receive_charge,
}
use biocodetechpay.Charge.Settle.{charge_credits, receive_known}

-- A charge that was created is confirmed on request: nothing is asked of the gateway or of the
-- caller. The receiver's balance gets the value, and his credit limit may rise; no account pays it:
-- every other row of the users stays, and the sum of all balances rises by the value.
pub receipt_mints :
    (m : Text) (i : ℕ) (db : Db) (t : PixTransaction) (r : User)
    → find_transaction i db ≡ some t
    → t.status ≡ created
    → find_user t.user_id db ≡ some r
    → find_user r.id db ≡ some r
    → let (db', response) = process_pix_receipt m i db in
      (response ≡ success (set_status confirmed t))
      × (db'.users ≡ update_first (has_id r.id) (paid_in r t.value) db.users)
      × (total_balance db'.users ≡ total_balance db.users +ℤ pos t.value)
unfolding process_pix_receipt confirm_charge free_credit
receipt_mints m i db t r h hs hu own =
    let after = update_transaction t.id (set_status confirmed) db in
    rw (h, process_pix_receipt)
      (rw hs (
        refl,
        ap (λ (d : Db). d.users) (credit_receiver_free m t after r hu),
        rw (credit_receiver_free m t after r hu) (free_credit-total r t.value after own),
      ))

unsome : (x t : PixTransaction) → some x ≡ some t → x ≡ t
unsome x t h = cc

status_ne : (a b : PixStatus) → a ≢ b → status_eq a b ≡ false
status_ne created b h = ground arith
status_ne processing b h = ground arith
status_ne confirmed b h = ground arith
status_ne failed b h = ground arith
status_ne canceled b h = ground arith
status_ne scheduled b h = ground arith

-- A received row, found by its identifier, is the one that the synchronisation finds.
first-is_received :
    (i : ℕ) (rows : List PixTransaction) (t : PixTransaction)
    → first (has_tx_id i) rows ≡ some t
    → t.type ≡ received
    → (first (is_received_charge i) rows ≡ some t)
      × ((f : PixTransaction → PixTransaction)
          → update_first (is_received_charge i) f rows ≡ update_first (has_tx_id i) f rows)
first-is_received i [] t h ht = absurd (cc)
first-is_received i (x ∷ rows) t h ht =
    let ih = first-is_received i rows t in
    elim (Bool-cases (x.id == i)) [
      | inl hit ↦
          let e : x ≡ t = unsome x t (rw hit at h) in
          let incoming : type_eq x.type received ≡ true =
            ap (λ (y : PixTransaction). type_eq y.type received) e
            ∙ ap (λ k. type_eq k received) ht in
          rw hit (rw incoming (ap some e, λ f. refl))
      | inr miss ↦
          let rest : first (has_tx_id i) rows ≡ some t = rw miss at h in
          rw miss ((ih rest ht).0, λ f. ap (◌∷◌ x) ((ih rest ht).1 f))
    ]

-- The synchronisation with a status that the row does not have writes that status, to the row alone.
sync_lem :
    (i : ℕ) (s : ChargeStatus) (db : Db) (t : PixTransaction)
    → find_transaction i db ≡ some t
    → t.type ≡ received
    → t.status ≢ mapped_status s
    → (sync_pix_charge_status i (reports s) db).0
      ≡ update_transaction i (set_status (mapped_status s)) db
unfolding sync_pix_charge_status
sync_lem i s db t h ht hs =
    let (found, same) = first-is_received i db.transactions t h ht in
    rw (found, sync_pix_charge_status)
      (rw (status_ne t.status (mapped_status s) hs) (rw (same (set_status (mapped_status s))) refl))

synced_row :
    (i : ℕ) (s : PixStatus) (db : Db) (t : PixTransaction)
    → find_transaction i db ≡ some t
    → find_transaction i (update_transaction i (set_status s) db) ≡ some (set_status s t)
synced_row i s db t h =
    first-update_first_self (has_tx_id i) (set_status s) db.transactions t h
      (ground (arith, first-passes (has_tx_id i) db.transactions t h))

-- A charge that the synchronisation has confirmed is never credited: the synchronisation moves no
-- balance, and the payment event that follows finds the charge confirmed and changes nothing.
pub synced_charge_uncredited :
    (m key : Text) (i : ℕ) (p : Payment) (db : Db) (t : PixTransaction)
    → p.payment_id ≡ some i
    → find_transaction i db ≡ some t
    → t.type ≡ received
    → t.status ≢ confirmed
    → let db' = (sync_pix_charge_status i (reports confirmed_status) db).0 in
      (db'.users ≡ db.users) × (receive_payment m key p db' ≡ (db', charge_already_confirmed))
unfolding receive_charge
synced_charge_uncredited m key i p db t hp h ht hs =
    let after = update_transaction i (set_status confirmed) db in
    rw (sync_lem i confirmed_status db t h ht hs) (
      refl,
      rw (receive_known m key i p after (set_status confirmed t) hp (synced_row i confirmed db t h))
          refl,
    )

-- A charge that is confirmed, and credited, is open again once the gateway reports it as pending, or
-- with a status that the table of the synchronisation lacks, and the next payment event credits it
-- again.
pub reopened_charge_credited_again :
    (m key : Text) (i : ℕ) (s : ChargeStatus) (p : Payment) (db : Db) (t : PixTransaction)
    (r : User)
    → p.payment_id ≡ some i
    → find_transaction i db ≡ some t
    → t.type ≡ received
    → t.status ≡ confirmed
    → mapped_status s ≡ created
    → find_user t.user_id db ≡ some r
    → find_user r.id db ≡ some r
    → let db' = (sync_pix_charge_status i (reports s) db).0 in
      total_balance (receive_payment m key p db').0.users ≡ total_balance db.users +ℤ pos t.value
reopened_charge_credited_again m key i s p db t r hp h ht hs hm hu own =
    let after = update_transaction i (set_status (mapped_status s)) db in
    rw (sync_lem i s db t h ht (cc)) (
      (charge_credits m key i p after (set_status (mapped_status s) t) r hp
        (synced_row i (mapped_status s) db t h) (cc) hu own).1)
