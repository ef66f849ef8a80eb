-- ===== src/Pix/Credit.antt =====
-- What the credit of an incoming payment adds, and the bounds of the credit limit.
use biocodetechpay.Prelude.{
  ◌+◌, ◌-◌, ◌*◌, ◌≡◌, ◌≤◌, refl, pos, ◌+ℤ◌, int_laws, parts_of_eq, none, some, Text, Option, max,
  arith, inl, inr, first-none-before-update_first, ◌==◌, if◌then◌else◌, Option-cases, Bool-cases,
}
use biocodetechpay.Money.{Cents, quantize}
use biocodetechpay.Fees.{calculate_pix_fee}
use biocodetechpay.Store.{Db, User, find_user, has_id, update_user}
use biocodetechpay.Store.Total.{total_balance, total-update_with, total-update_first}
use biocodetechpay.Pix.Matrix.{credit_fee, get_matrix_user, has_email}
use biocodetechpay.Pix.Receipt.{credit_pix_receipt, raised_limit, receive_fee_of, credit_limit_cap}

-- The credit limit never falls while it is within R$50000.00, never passes it, and otherwise grows
-- by half of the gross value to the nearest cent.
pub raised_limit_bounds :
    (current gross : Cents)
    → (raised_limit current gross ≤ credit_limit_cap)
      × (current ≤ credit_limit_cap → current ≤ raised_limit current gross)
      × (current * 2 + gross ≤ credit_limit_cap * 2
          → raised_limit current gross ≡ quantize (current * 10000 + gross * 5000))
unfolding quantize
raised_limit_bounds current gross = ground arith

-- A credited fee adds to the total, if there is an account to take it.
pub credit_fee-total :
    (m : Text) (fee : Cents) (db : Db) (k : User)
    → get_matrix_user m db ≡ some k
    → total_balance (credit_fee m fee db).users ≡ total_balance db.users +ℤ pos fee
unfolding credit_fee
credit_fee-total m fee db k h = elim (Bool-cases (fee == 0)) [
  | inl free ↦ rw (free, credit_fee) (grind int_laws)
  | inr paid ↦
      rw (paid, h, credit_fee)
        (omega (
          int_laws,
          parts_of_eq _ _ (total-update_first (has_email m) (k.balance +ℤ pos fee) db.users k h),
        ))
]

credit_receipt-total :
    (m : Text) (db : Db) (r k : User) (net limit fee : Cents)
    → find_user r.id db ≡ some r
    → get_matrix_user m db ≡ some k
    → total_balance
        (credit_fee m fee (
          update_user r.id
            (λ u. record u { balance = r.balance +ℤ pos net; credit_limit = limit })
            db)).users
      ≡ total_balance db.users +ℤ pos (net + fee)
credit_receipt-total m db r k net limit fee hr hk =
    let f : User → User = λ u. record u { balance = r.balance +ℤ pos net; credit_limit = limit } in
    let after = update_user r.id f db in
    elim (Option-cases (get_matrix_user m after)) [
      | inl gone ↦ ground (
        arith,
        hk,
        first-none-before-update_first (has_email m) (has_id r.id) f db.users gone (λ y. refl),
      )
      | inr (k', e) ↦ omega (
        int_laws,
        parts_of_eq _ _ (credit_fee-total m fee after k' e),
        parts_of_eq _ _
            (total-update_with (has_id r.id) f (r.balance +ℤ pos net) db.users r (λ v. refl) hr),
      )
    ]

-- The guard on the fee is the one that `credit_fee` has itself.
guard_credit_fee :
    (m : Text) (fee : Cents) (db : Db)
    → (if fee == 0 then db else credit_fee m fee db) ≡ credit_fee m fee db
unfolding credit_fee
guard_credit_fee m fee db = elim (Bool-cases (fee == 0)) [
  | inl e ↦ rw (e, credit_fee) refl
  | inr e ↦ rw (e, credit_fee) refl
]

-- The credit of a payment to a known user, where the matrix account exists, adds net credit and fee
-- to the sum of all balances, which together are the gross value unless a given fee is larger;
-- without a given fee the deposit is free.
pub receipt_credits :
    (m : Text) (db : Db) (r k : User) (gross : Cents) (fee_override : Option Cents)
    → find_user r.id db ≡ some r
    → get_matrix_user m db ≡ some k
    → let (db', net, fee) = credit_pix_receipt m db r gross fee_override in
      (total_balance db'.users ≡ total_balance db.users +ℤ pos (net + fee))
      × (net + fee ≡ max gross fee)
      × (fee_override ≡ none → (fee ≡ 0) × (net ≡ gross))
unfolding credit_pix_receipt calculate_pix_fee
receipt_credits m db r k gross fee_override hr hk =
    let fee = receive_fee_of r gross fee_override in
    let total =
      credit_receipt-total m db r k (gross - fee) (raised_limit r.credit_limit gross) fee hr hk in
    (rw (guard_credit_fee m fee _) total, omega arith, λ e. rw e (refl, omega arith))
