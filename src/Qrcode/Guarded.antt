-- ===== src/Qrcode/Guarded.antt =====
-- What a payment of a code leaves for its repetition: the row that it returned, which the guards of
-- the endpoint find.
use biocodetechpay.Prelude.{
  ◌≡◌, ◌≢◌, refl, ◌∙◌, ap, none, some, Text, text_eq, arith, inl, inr, ◌⊎◌, true, false,
  text_eq_refl, first, any, ltb_ℤ, pos, ◌+◌, ◌-ℤ◌, ◌==◌, List, ◌∷◌, Option-cases, Bool-cases, ◌||◌,
}
use biocodetechpay.Fees.{pix_maintenance_fee}
use biocodetechpay.Store.{
  fee_of, Db, User, PixTransaction, find_user, confirmed, processing, has_tx_id, status_eq, created,
  debit, add_transaction,
}
use biocodetechpay.Pix.Outcome.{Result-cases}
use biocodetechpay.Pix.Ledger.{get_available_balance, create_ledger_entry}
use biocodetechpay.Http.{Response, success, failure}
use biocodetechpay.Qrcode.Rows.{can_insert, same_hash}
use biocodetechpay.Qrcode.Call.{
  QrCall, QrGateway, no_gateway, sandbox, raises, pays, QrAnswer, header_key, find_by_header,
  is_paid_before, idempotency_key_of, charge_payment, dispatched_row, provisional_row,
  payment_value,
}
use biocodetechpay.Qrcode.Pay.{
  pay_internal, pay_other, commit_payment, settle_charge, debit_payer, pay_by_gateway, dispatch_qr,
  accept_payment, commit_dispatched, lacks_balance,
}

-- The guards of a later call find the row that this one returned.
abbrev pub Found : QrCall → PixTransaction → Db → Type 0
Found c t db =
    (find_by_header c db ≡ some t)
    ⊎ ((find_by_header c db ≡ none) × (first (is_paid_before c) db.transactions ≡ some t))

abbrev pub Repeats : QrCall → Db × Response PixTransaction → Type 0
Repeats c (db, success t) = Found c t db
Repeats c (db, failure e) = Unit

idempotency_key_lem :
    (c : QrCall) (k : Text) → header_key c.x_idempotency_key ≡ some k → idempotency_key_of c ≡ k
idempotency_key_lem c k e = rw (e, idempotency_key_of) refl

-- A new row at the head of the table, with the key, the payer and the digest of the call.
new_row-Found :
    (c : QrCall) (t : PixTransaction) (db : Db) (rows : List PixTransaction)
    → db.transactions ≡ t ∷ rows
    → t.idempotency_key ≡ idempotency_key_of c
    → t.user_id ≡ c.user_id
    → t.payload_hash ≡ some c.payload_hash
    → (status_eq t.status confirmed || status_eq t.status processing) ≡ true
    → Found c t db
new_row-Found c t db rows head key user hash status =
    elim (Option-cases (header_key c.x_idempotency_key)) [
      | inr (k, e) ↦
          let same : text_eq t.idempotency_key k ≡ true =
            rw (key ∙ idempotency_key_lem c k e) (text_eq_refl k) in
          inl (rw (e, find_by_header) (rw head (rw same refl)))
      | inl e ↦
          let same : same_hash t.payload_hash (some c.payload_hash) ≡ true =
            ap (λ h. same_hash h (some c.payload_hash)) hash ∙ text_eq_refl c.payload_hash in
          inr (rw (e, find_by_header) refl, rw head (ground (arith, same, user, status)))
    ]

commit_payment-Repeats :
    (c : QrCall) (charge : PixTransaction) (r : User) (before db : Db)
    → Repeats c (commit_payment (charge_payment c charge r) before db)
unfolding commit_payment
commit_payment-Repeats c charge r before db =
    let row = charge_payment c charge r in
    elim (Bool-cases (can_insert row before)) [
      | inr old ↦ rw (old, commit_payment) tt
      | inl new ↦
          rw (new, commit_payment)
            (new_row-Found c row (add_transaction row db) db.transactions refl refl refl refl refl)
    ]

commit_dispatched-Repeats :
    (s : User) (c : QrCall) (answer : QrAnswer) (db : Db)
    → Repeats c (commit_dispatched c (dispatched_row s c answer) db)
unfolding commit_dispatched create_ledger_entry
commit_dispatched-Repeats s c answer db =
    let row = dispatched_row s c answer in
    elim (Bool-cases (any (has_tx_id row.id) db.transactions)) [
      | inl taken ↦ rw (taken, commit_dispatched) tt
      | inr free ↦
          rw (free, commit_dispatched)
            (new_row-Found c row
              (create_ledger_entry c.entry_id c.user_id debit (row.value + fee_of row) row.id
                (add_transaction row db))
              db.transactions refl refl refl refl refl)
    ]

accept_payment-Repeats :
    (s : User) (c : QrCall) (answer : QrAnswer) (db : Db) → Repeats c (accept_payment s c answer db)
unfolding accept_payment
accept_payment-Repeats s c answer db =
    let row = dispatched_row s c answer in
    elim (Bool-cases (payment_value c answer == 0)) [
      | inl unknown ↦ rw (unknown, accept_payment) tt
      | inr known ↦ elim (Result-cases (get_available_balance db c.user_id)) [
        | inr (e, h) ↦ rw (known, h, accept_payment) tt
        | inl (a, h) ↦ elim (Bool-cases (ltb_ℤ a (pos (row.value + fee_of row)))) [
          | inl short ↦ rw (known, h, accept_payment) (rw short tt)
          | inr enough ↦
              rw (known, h, accept_payment) (rw enough (commit_dispatched-Repeats s c answer db))
        ]
      ]
    ]

dispatch_qr-Repeats :
    (s : User) (c : QrCall) (gateway : QrGateway) (db : Db) → Repeats c (dispatch_qr s c gateway db)
dispatch_qr-Repeats s c no_gateway db = tt
dispatch_qr-Repeats s c sandbox db = tt
dispatch_qr-Repeats s c raises db = elim (Bool-cases (can_insert (provisional_row s c) db)) [
  | inl new ↦ rw new tt
  | inr old ↦ rw old tt
]
dispatch_qr-Repeats s c (pays answer) db = elim (Bool-cases (can_insert (provisional_row s c) db)) [
  | inl new ↦ rw new (accept_payment-Repeats s c answer db)
  | inr old ↦ rw old tt
]

pub pay_by_gateway-Repeats : (s : User) (c : QrCall) (db : Db) → Repeats c (pay_by_gateway s c db)
unfolding pay_by_gateway
pay_by_gateway-Repeats s c db = elim (Result-cases (get_available_balance db c.user_id)) [
  | inr (e, h) ↦ rw (h, pay_by_gateway) tt
  | inl (a, h) ↦ elim (Bool-cases (lacks_balance s c a)) [
    | inl lacks ↦ rw (h, pay_by_gateway) (rw lacks tt)
    | inr enough ↦
        rw (h, pay_by_gateway) (rw enough (dispatch_qr-Repeats s c (c.gateway c.value) db))
  ]
]

pay_other-Repeats :
    (m : Text) (c : QrCall) (s r : User) (charge : PixTransaction) (db : Db)
    → Repeats c (pay_other m c s r charge db)
unfolding pay_other
pay_other-Repeats m c s r charge db =
    let total = charge.value + pix_maintenance_fee in
    let balance = s.balance -ℤ pos total in
    elim (Bool-cases (ltb_ℤ s.balance (pos total))) [
      | inl short ↦ rw (short, pay_other) tt
      | inr enough ↦ elim (Bool-cases (ltb_ℤ balance (pos 0))) [
        | inl below ↦ rw (enough, pay_other) (rw below tt)
        | inr above ↦
            rw (enough, pay_other)
              (rw above (
                commit_payment-Repeats c charge r db
                  (settle_charge m charge (debit_payer m c balance db))))
      ]
    ]

pub pay_internal-Repeats :
    (m : Text) (c : QrCall) (s : User) (charge : PixTransaction) (db : Db)
    → charge.user_id ≢ c.user_id
    → Repeats c (pay_internal m c s charge db)
unfolding pay_internal
pay_internal-Repeats m c s charge db other = elim (Option-cases (find_user charge.user_id db)) [
  | inl nobody ↦ rw (nobody, pay_internal) tt
  | inr (r, hr) ↦ elim (Bool-cases (status_eq charge.status created)) [
    | inr settled ↦ rw (hr, pay_internal) (rw settled tt)
    | inl unpaid ↦
        let apart : (charge.user_id == c.user_id) ≡ false = ground (arith, other) in
        rw (hr, pay_internal) (rw (unpaid, apart) (pay_other-Repeats m c s r charge db))
  ]
]
