-- ===== src/Charge/Credits.antt =====
-- What the credit of a charge or of a deposit moves. A deposit is free, so the matrix account takes
-- no part in it.
use biocodetechpay.Prelude.{
  ◌≡◌, refl, pos, ◌+ℤ◌, int_laws, parts_of_eq, none, some, Text, arith, first-update_first_self,
  Option-cases, inl, inr,
}
use biocodetechpay.Money.{Cents}
use biocodetechpay.Fees.{calculate_pix_fee}
use biocodetechpay.Store.{Db, User, PixTransaction, find_user, has_id, update_user}
use biocodetechpay.Store.Total.{total_balance, total-update_with}
use biocodetechpay.Pix.Receipt.{credit_pix_receipt, raised_limit}
use biocodetechpay.Charge.Confirm.{credit_receiver}

unfoldable pub paid_in : User → Cents → User → User
paid_in r gross u = record u {
  balance = r.balance +ℤ pos gross;
  credit_limit = raised_limit r.credit_limit gross;
}

unfoldable pub free_credit : User → Cents → Db → Db
unfolding paid_in
free_credit r gross db = update_user r.id (paid_in r gross) db

pub credit_pix_receipt_free :
    (m : Text) (db : Db) (r : User) (gross : Cents)
    → credit_pix_receipt m db r gross none ≡ (free_credit r gross db, gross, 0)
unfolding credit_pix_receipt calculate_pix_fee free_credit
credit_pix_receipt_free m db r gross = ground arith

pub find_user-free_credit :
    (r : User) (gross : Cents) (db : Db)
    → find_user r.id db ≡ some r
    → find_user r.id (free_credit r gross db) ≡ some (paid_in r gross r)
unfolding free_credit
find_user-free_credit r gross db h =
    first-update_first_self (has_id r.id) (paid_in r gross) db.users r h (ground arith)

pub free_credit-total :
    (r : User) (gross : Cents) (db : Db)
    → find_user r.id db ≡ some r
    → total_balance (free_credit r gross db).users ≡ total_balance db.users +ℤ pos gross
unfolding free_credit
free_credit-total r gross db h = omega (
  int_laws,
  parts_of_eq _ _ (
      total-update_with (has_id r.id) (paid_in r gross) (r.balance +ℤ pos gross) db.users r
        (λ v. refl) h),
)

pub credit_receiver_free :
    (m : Text) (pix : PixTransaction) (db : Db) (r : User)
    → find_user pix.user_id db ≡ some r
    → credit_receiver m pix db ≡ free_credit r pix.value db
unfolding credit_receiver
credit_receiver_free m pix db r h =
    rw (h, credit_receiver) (rw (credit_pix_receipt_free m db r pix.value) refl)

pub credit_receiver-transactions :
    (m : Text) (pix : PixTransaction) (db : Db)
    → (credit_receiver m pix db).transactions ≡ db.transactions
unfolding credit_receiver free_credit
credit_receiver-transactions m pix db = elim (Option-cases (find_user pix.user_id db)) [
  | inl e ↦ rw (e, credit_receiver) refl
  | inr (r, e) ↦ rw (credit_receiver_free m pix db r e) refl
]
