-- ===== src/Qrcode/External.antt =====
-- The second route of the payment of a code, and the repetition of a payment.
use biocodetechpay.Prelude.{
  ℕ, ◌+◌, ◌≡◌, refl, pos, ◌≤ℤ◌, ◌-ℤ◌, int_laws, ltb_ℤ, ltb_ℤ-false, some, arith, inl, inr,
  Bool-cases, any, ◌==◌,
}
use biocodetechpay.Store.{
  fee_of, Db, User, PixTransaction, find_user, find_transaction, sent, add_transaction, set_status,
  processing, failed, has_tx_id,
}
use biocodetechpay.Pix.Ledger.{pending_outbound, create_ledger_entry}
use biocodetechpay.Pix.Solvency.{available_lem}
use biocodetechpay.Http.{Response, success, failure}
use biocodetechpay.Qrcode.Rows.{can_insert}
use biocodetechpay.Qrcode.Call.{
  QrCall, QrGateway, no_gateway, sandbox, raises, pays, QrAnswer, provisional_row, dispatched_row,
  payment_value,
}
use biocodetechpay.Qrcode.Pay.{
  pay_by_gateway, dispatch_qr, accept_payment, commit_dispatched, lacks_balance,
}

-- What the second route does to the pending sums: a success adds value and fee of the row that it
-- returns, which is a sent one of the user in processing and stands under its identifier, and keeps
-- the sum within the balance; a failure adds nothing.
abbrev pub QrCovered : Db → User → ℕ → Db × Response PixTransaction → Type 0
QrCovered db s i (db', success t) =
    (pending_outbound db' i ≡ pending_outbound db i + (t.value + fee_of t))
    × (pos (pending_outbound db' i) ≤ℤ s.balance)
    × (t.status ≡ processing)
    × (t.type ≡ sent)
    × (t.user_id ≡ i)
    × (find_transaction t.id db' ≡ some t)
QrCovered db s i (db', failure e) =
    (user : ℕ) → pending_outbound db' user ≡ pending_outbound db user

commit_dispatched-QrCovered :
    (s : User) (c : QrCall) (answer : QrAnswer) (db : Db)
    → let row = dispatched_row s c answer in
      pos (pending_outbound db c.user_id + (row.value + fee_of row)) ≤ℤ s.balance
      → QrCovered db s c.user_id (commit_dispatched c row db)
unfolding commit_dispatched create_ledger_entry pending_outbound
commit_dispatched-QrCovered s c answer db h =
    let row = dispatched_row s c answer in
    elim (Bool-cases (any (has_tx_id row.id) db.transactions)) [
      | inl taken ↦ rw (taken, commit_dispatched) (λ user. refl)
      | inr free ↦ rw (free, commit_dispatched) (ground arith)
    ]

pub failed_row-pending :
    (s : User) (c : QrCall) (db : Db) (user : ℕ)
    → pending_outbound (add_transaction (set_status failed (provisional_row s c)) db) user
      ≡ pending_outbound db user
unfolding pending_outbound
failed_row-pending s c db user = ground arith

accept_payment-QrCovered :
    (s : User) (c : QrCall) (answer : QrAnswer) (db : Db)
    → find_user c.user_id db ≡ some s
    → QrCovered db s c.user_id (accept_payment s c answer db)
unfolding accept_payment
accept_payment-QrCovered s c answer db h =
    let row = dispatched_row s c answer in
    let free = s.balance -ℤ pos (pending_outbound db c.user_id) in
    elim (Bool-cases (payment_value c answer == 0)) [
      | inl unknown ↦ rw (unknown, accept_payment) (λ user. refl)
      | inr known ↦ elim (Bool-cases (ltb_ℤ free (pos (row.value + fee_of row)))) [
        | inl short ↦
            rw (known, available_lem db c.user_id s h, accept_payment)
              (rw short (failed_row-pending s c db))
        | inr enough ↦
            let room = ltb_ℤ-false free (pos (row.value + fee_of row)) enough in
            rw (known, available_lem db c.user_id s h, accept_payment)
              (rw enough (commit_dispatched-QrCovered s c answer db (omega int_laws)))
      ]
    ]

dispatch_qr-QrCovered :
    (s : User) (c : QrCall) (gateway : QrGateway) (db : Db)
    → find_user c.user_id db ≡ some s
    → QrCovered db s c.user_id (dispatch_qr s c gateway db)
dispatch_qr-QrCovered s c no_gateway db h = λ user. refl
dispatch_qr-QrCovered s c sandbox db h = λ user. refl
dispatch_qr-QrCovered s c raises db h = elim (Bool-cases (can_insert (provisional_row s c) db)) [
  | inl new ↦ rw new (failed_row-pending s c db)
  | inr old ↦ rw old (λ user. refl)
]
dispatch_qr-QrCovered s c (pays answer) db h =
    elim (Bool-cases (can_insert (provisional_row s c) db)) [
      | inl new ↦ rw new (accept_payment-QrCovered s c answer db h)
      | inr old ↦ rw old (λ user. refl)
    ]

-- The external payment of a code by a known user succeeds only with a row in processing whose value
-- and fee are added to the pending sum of the user, which stays within the balance; a failure
-- changes no pending sum.
pub pay_by_gateway-QrCovered :
    (s : User) (c : QrCall) (db : Db)
    → find_user c.user_id db ≡ some s
    → QrCovered db s c.user_id (pay_by_gateway s c db)
unfolding pay_by_gateway
pay_by_gateway-QrCovered s c db h =
    let free = s.balance -ℤ pos (pending_outbound db c.user_id) in
    elim (Bool-cases (lacks_balance s c free)) [
      | inl lacks ↦ rw (available_lem db c.user_id s h, pay_by_gateway) (rw lacks (λ user. refl))
      | inr enough ↦
          rw (available_lem db c.user_id s h, pay_by_gateway)
            (rw enough (dispatch_qr-QrCovered s c (c.gateway c.value) db h))
    ]
