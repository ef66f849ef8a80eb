-- ===== src/Qrcode/Internal.antt =====
-- The payment of a code moves money between accounts and creates none.
use biocodetechpay.Prelude.{
  ℕ, ◌+◌, ◌≡◌, ◌≢◌, refl, sym, ◌∙◌, ap, pos, ◌+ℤ◌, ◌-ℤ◌, int_laws, parts_of_eq, none, some, Text,
  arith, inl, inr, Option-cases, Bool-cases, ◌==◌, first-none-before-update_first, first,
  update_first,
}
use biocodetechpay.Money.{Cents}
use biocodetechpay.Fees.{pix_maintenance_fee}
use biocodetechpay.Store.{
  Db, User, PixTransaction, find_user, has_id, update_user, set_balance, update_transaction,
  set_status, confirmed,
}
use biocodetechpay.Store.Total.{total_balance, total-set_balance}
use biocodetechpay.Emv.Parse.{validate_pix_crc}
use biocodetechpay.Pix.Matrix.{credit_fee, get_matrix_user, has_email}
use biocodetechpay.Pix.Receipt.{credit_pix_receipt}
use biocodetechpay.Pix.Credit.{credit_fee-total}
use biocodetechpay.Pix.Outcome.{Result-cases}
use biocodetechpay.Pix.Ledger.{get_available_balance, create_ledger_entry}
use biocodetechpay.Charge.Credits.{paid_in, free_credit, free_credit-total}
use biocodetechpay.Charge.Marks.{own_user}
use biocodetechpay.Qrcode.Lookup.{find_internal_qrcode_charge}
use biocodetechpay.Qrcode.Call.{
  NotOwn, QrCall, QrGateway, no_gateway, sandbox, raises, pays, QrAnswer, find_by_header,
  is_paid_before,
}
use biocodetechpay.Qrcode.Pay.{
  pay_pix_qrcode, screened_route, route_payment, pay_internal, pay_other, settle_charge,
  debit_payer, commit_payment, pay_by_gateway, dispatch_qr, accept_payment, commit_dispatched,
  lacks_balance,
}

some_ne : (u : User) → some u ≡ none → ⊥
some_ne u h = cc

credit_free_override :
    (m : Text) (db : Db) (r : User) (gross : Cents)
    → (credit_pix_receipt m db r gross (some 0)).0 ≡ free_credit r gross db
unfolding credit_pix_receipt free_credit
credit_free_override m db r gross = ground arith

pub settle_charge-users :
    (m : Text) (charge : PixTransaction) (db : Db) (r : User)
    → find_user charge.user_id db ≡ some r
    → (settle_charge m charge db).users
      ≡ update_first (has_id charge.user_id) (paid_in r charge.value) db.users
unfolding settle_charge free_credit
settle_charge-users m charge db r h =
    let settled = update_transaction charge.id (set_status confirmed) db in
    let receiver : settle_charge m charge db ≡ free_credit r charge.value settled =
      rw (h, settle_charge) (credit_free_override m settled r charge.value) in
    ap (λ (d : Db). d.users) receiver
    ∙ ap (λ i. update_first (has_id i) (paid_in r charge.value) db.users)
        (own_user charge.user_id db r h)

pub settle_charge-total :
    (m : Text) (charge : PixTransaction) (db : Db) (r : User)
    → find_user charge.user_id db ≡ some r
    → total_balance (settle_charge m charge db).users ≡ total_balance db.users +ℤ pos charge.value
unfolding settle_charge
settle_charge-total m charge db r h =
    let settled = update_transaction charge.id (set_status confirmed) db in
    let own : find_user r.id settled ≡ some r = rw (sym (own_user charge.user_id db r h)) at h in
    rw (h, settle_charge)
      (rw (credit_free_override m settled r charge.value)
        (free_credit-total r charge.value settled own))

-- A credited fee leaves every row findable.
find_user-credit_fee :
    (m : Text) (a : Cents) (i : ℕ) (db : Db)
    → find_user i (credit_fee m a db) ≡ none
    → find_user i db ≡ none
unfolding credit_fee
find_user-credit_fee m a i db h = elim (Bool-cases (a == 0)) [
  | inl zero_fee ↦ rw (zero_fee, credit_fee) at h
  | inr positive ↦ elim (Option-cases (get_matrix_user m db)) [
    | inl missing ↦ rw (positive, missing, credit_fee) at h
    | inr (k, e) ↦
        first-none-before-update_first (has_id i) (has_email m) (set_balance (k.balance +ℤ pos a))
          db.users (rw (positive, e, credit_fee) at h) (λ y. refl)
  ]
]

-- The payer is debited, the matrix account takes the maintenance fee, the receiver the value.
pay_other-total :
    (m : Text) (c : QrCall) (s r k : User) (charge : PixTransaction) (db : Db)
    → find_user c.user_id db ≡ some s
    → find_user charge.user_id db ≡ some r
    → get_matrix_user m db ≡ some k
    → let balance = s.balance -ℤ pos (charge.value + pix_maintenance_fee) in
      total_balance (settle_charge m charge (debit_payer m c balance db)).users
      ≡ total_balance db.users
unfolding debit_payer
pay_other-total m c s r k charge db hs hr hk =
    let b = s.balance -ℤ pos (charge.value + pix_maintenance_fee) in
    let db1 = update_user c.user_id (set_balance b) db in
    let db2 = credit_fee m pix_maintenance_fee db1 in
    elim (Option-cases (get_matrix_user m db1)) [
      | inl gone ↦
          let missing : get_matrix_user m db ≡ none =
            first-none-before-update_first (has_email m) (has_id c.user_id) (set_balance b) db.users
              gone (λ y. refl) in
          absurd (some_ne k (sym hk ∙ missing))
      | inr (k', ek) ↦ elim (Option-cases (find_user charge.user_id db2)) [
        | inl gone ↦
            let before = find_user-credit_fee m pix_maintenance_fee charge.user_id db1 gone in
            let missing : find_user charge.user_id db ≡ none =
              first-none-before-update_first (has_id charge.user_id) (has_id c.user_id)
                (set_balance b) db.users before (λ y. refl) in
            absurd (some_ne r (sym hr ∙ missing))
        | inr (r', er) ↦ omega (
          int_laws,
          parts_of_eq _ _ (total-set_balance c.user_id b db.users s hs),
          parts_of_eq _ _ (credit_fee-total m pix_maintenance_fee db1 k' ek),
          parts_of_eq _ _ (settle_charge-total m charge db2 r' er),
        )
      ]
    ]

module _ (m : Text) (c : QrCall) (s k : User) (db : Db) (hs : find_user c.user_id db ≡ some s)
    (hk : get_matrix_user m db ≡ some k) where
  pay_internal-total :
      (charge : PixTransaction)
      → charge.user_id ≢ c.user_id
      → total_balance (pay_internal m c s charge db).0.users ≡ total_balance db.users
  unfolding pay_internal pay_other commit_payment
  pay_internal-total charge other = elim (Option-cases (find_user charge.user_id db)) [
    | inl nobody ↦ rw (nobody, pay_internal) refl
    | inr (r, hr) ↦
        rw (hr, pay_internal) (ground (arith, pay_other-total m c s r k charge db hs hr hk))
  ]

accept_payment-users :
    (s : User) (c : QrCall) (answer : QrAnswer) (db : Db)
    → (accept_payment s c answer db).0.users ≡ db.users
unfolding accept_payment commit_dispatched create_ledger_entry
accept_payment-users s c answer db = ground arith

dispatch_qr-users :
    (s : User) (c : QrCall) (gateway : QrGateway) (db : Db)
    → (dispatch_qr s c gateway db).0.users ≡ db.users
dispatch_qr-users s c no_gateway db = refl
dispatch_qr-users s c sandbox db = refl
dispatch_qr-users s c raises db = ground arith
dispatch_qr-users s c (pays answer) db = ground (arith, accept_payment-users s c answer db)

pub pay_by_gateway-users :
    (s : User) (c : QrCall) (db : Db) → (pay_by_gateway s c db).0.users ≡ db.users
unfolding pay_by_gateway
pay_by_gateway-users s c db = elim (Result-cases (get_available_balance db c.user_id)) [
  | inr (e, h) ↦ rw (h, pay_by_gateway) refl
  | inl (a, h) ↦ elim (Bool-cases (lacks_balance s c a)) [
    | inl lacks ↦ rw (h, pay_by_gateway) (rw lacks refl)
    | inr enough ↦ rw (h, pay_by_gateway) (rw enough (dispatch_qr-users s c (c.gateway c.value) db))
  ]
]

module _ (m : Text) (c : QrCall) (s k : User) (db : Db) (hs : find_user c.user_id db ≡ some s)
    (hk : get_matrix_user m db ≡ some k) where
  route_payment-total :
      NotOwn c db → total_balance (route_payment m s c db).0.users ≡ total_balance db.users
  unfolding route_payment
  route_payment-total other = elim (Bool-cases (find_internal_qrcode_charge c.code db).1) [
    | inl paid ↦ rw (paid, route_payment) refl
    | inr unpaid ↦ elim (Option-cases (find_internal_qrcode_charge c.code db).0) [
      | inl external ↦
          rw (unpaid, external, route_payment) (ap total_balance (pay_by_gateway-users s c db))
      | inr (charge, h) ↦
          rw (unpaid, h, route_payment)
            (pay_internal-total m c s k db hs hk charge (other charge h))
    ]
  ]

  screened_route-total :
      NotOwn c db → total_balance (screened_route m s c db).0.users ≡ total_balance db.users
  screened_route-total other = elim (Option-cases c.value) [
    | inl absent ↦ ground (arith, absent, route_payment-total other)
    | inr (v, h) ↦ ground (arith, h, route_payment-total other)
  ]

-- Whatever is asked and however the gateway answers, the payment of a code that does not stand for an
-- open charge of the payer himself leaves the sum of all balances as it was.
pub qr_payment_conserves :
    (m : Text) (c : QrCall) (k : User) (db : Db)
    → get_matrix_user m db ≡ some k
    → NotOwn c db
    → total_balance (pay_pix_qrcode m c db).0.users ≡ total_balance db.users
unfolding pay_pix_qrcode
qr_payment_conserves m c k db hk other = elim (Bool-cases (validate_pix_crc c.code.payload)) [
  | inr damaged ↦ rw (damaged, pay_pix_qrcode) refl
  | inl intact ↦ elim (Option-cases (find_by_header c db)) [
    | inr (t, e) ↦ rw (intact, e, pay_pix_qrcode) refl
    | inl new ↦ elim (Option-cases (first (is_paid_before c) db.transactions)) [
      | inr (t, e) ↦ rw (intact, new, e, pay_pix_qrcode) refl
      | inl unpaid ↦ elim (Option-cases (find_user c.user_id db)) [
        | inl unknown ↦ rw (intact, new, unpaid, unknown, pay_pix_qrcode) refl
        | inr (s, hs) ↦
            rw (intact, new, unpaid, hs, pay_pix_qrcode)
              (screened_route-total m c s k db hs hk other)
      ]
    ]
  ]
]
