-- ===== src/Charge/Book.antt =====
-- The abstract book that the payment events implement: which payments are settled, and how much money
-- there is. The order of rows, the accounts and the other columns are forgotten.
use biocodetechpay.Prelude.{
  ℕ, ◌≡◌, ◌<◌, refl, sym, ◌∙◌, ap, ℤ, pos, ◌+ℤ◌, none, some, Option, Text, arith, Bool, true, false,
  ◌||◌, ◌==◌, if◌then◌else◌, inl, inr, Bool-cases, Option-cases, ==_iff, first-update_first_apart,
  first, List, ◌∷◌,
}
use biocodetechpay.Money.{Cents}
use biocodetechpay.Store.{
  Db, User, PixTransaction, find_user, find_transaction, update_transaction, confirmed, status_eq,
  has_tx_id,
}
use biocodetechpay.Store.Total.{total_balance}
use biocodetechpay.Pix.Deferred.{own_id}
use biocodetechpay.Charge.Confirm.{credit_receiver}
use biocodetechpay.Charge.Credits.{credit_receiver-transactions}
use biocodetechpay.Charge.Inbound.{
  Payment, receive_payment, receive_charge, inbound_tx, resolve_recipient, key_taken, PaymentAction,
  charge_already_confirmed,
}
use biocodetechpay.Charge.Settle.{
  inbound_credits, receive_new, charge_credits, receive_known, receive_charge_lem, settle_row,
  settle_row-fields, settled_row,
}
use biocodetechpay.Charge.Once.{receive_unknown_refused}

pub record Book : Type 0 where
  pub settled : ℕ → Bool
  pub total : ℤ

abbrev pub is_settled : Option PixTransaction → Bool
is_settled none = false
is_settled (some t) = status_eq t.status confirmed

-- The abstraction of a database.
abbrev pub book : Db → Book
book db = record {
  settled = λ i. is_settled (find_transaction i db);
  total = total_balance db.users;
}

-- What a payment event is to do: settle the payment and add its amount, once.
abbrev pub settle_once : ℕ → Cents → Book → Book
settle_once i amount b =
    if b.settled i
    then b
    else record { settled = λ j. i == j || b.settled j; total = b.total +ℤ pos amount }

-- The amount of a payment: the value of the charge, or that of the event where there is none.
abbrev pub amount_due : Option PixTransaction → Payment → Cents
amount_due none p = p.value
amount_due (some t) p = t.value

-- No row has the identifier of the payment, and another row has the key that its row would have.
abbrev pub is_blocked : ℕ → Db → Option PixTransaction → Bool
is_blocked i db none = key_taken i db
is_blocked i db (some t) = false

-- There is somebody to credit.
abbrev pub HasReceiver : Text → Payment → Db → Option PixTransaction → Type 0
HasReceiver key p db none =
    (r : User) × (resolve_recipient key p db ≡ some r)
    × (find_user r.id db ≡ some r)
    × (0 < p.value)
HasReceiver key p db (some t) =
    (r : User) × (find_user t.user_id db ≡ some r) × (find_user r.id db ≡ some r)

book_eq : (a b : Book) → ((i : ℕ) → a.settled i ≡ b.settled i) → a.total ≡ b.total → a ≡ b
book_eq a b s t k = record { settled = λ i. s i k; total = t k }

pub other_row :
    (j : ℕ) (f : PixTransaction → PixTransaction) (k : ℕ) (db : Db)
    → ((t : PixTransaction) → (f t).id ≡ t.id)
    → (k == j) ≡ false
    → find_transaction j (update_transaction k f db) ≡ find_transaction j db
other_row j f k db same other =
    first-update_first_apart (has_tx_id j) (has_tx_id k) f db.transactions
      (λ y h. ground (arith, other, h)) (λ y. ap (λ x. x == j) (same y))

settled_again :
    (m : Text) (p : Payment) (t : PixTransaction) (db : Db)
    → status_eq t.status confirmed ≡ true
    → receive_charge m p t db ≡ (db, charge_already_confirmed)
unfolding receive_charge
settled_again m p t db paid = rw (paid, receive_charge) refl

new_settled :
    (i j : ℕ) (t : PixTransaction) (rows : List PixTransaction)
    → t.id ≡ i
    → t.status ≡ confirmed
    → is_settled (first (has_tx_id j) (t ∷ rows))
      ≡ (i == j || is_settled (first (has_tx_id j) rows))
new_settled i j t rows own paid = elim (Bool-cases (t.id == j)) [
  | inl hit ↦ ground (arith, hit, own, paid)
  | inr miss ↦ ground (arith, miss, own)
]

charge_rows :
    (m : Text) (i j : ℕ) (p : Payment) (t : PixTransaction) (db : Db)
    → find_transaction i db ≡ some t
    → is_settled
        (find_transaction j (credit_receiver m t (update_transaction t.id (settle_row p) db)))
      ≡ (i == j || is_settled (find_transaction j db))
charge_rows m i j p t db h =
    let after = update_transaction t.id (settle_row p) db in
    elim (Bool-cases (i == j)) [
      | inl hit ↦
          let e : i ≡ j = (==_iff i j).0 hit in
          rw hit (
            ap is_settled (
              ap (λ k. find_transaction k (credit_receiver m t after)) (sym e)
              ∙ settled_row m i p t db h)
            ∙ ap (λ s. status_eq s confirmed) (settle_row-fields p t).1)
      | inr miss ↦
          let apart : (t.id == j) ≡ false = rw (own_id i db t h) at miss in
          rw miss (
            ap (λ rows. is_settled (first (has_tx_id j) rows))
              (credit_receiver-transactions m t after)
            ∙ ap is_settled
                (other_row j (settle_row p) t.id db (λ y. (settle_row-fields p y).0) apart))
    ]

-- A payment event that finds somebody to credit does to the book exactly what the abstract operation
-- does: a settled payment changes nothing, any other is settled and adds its amount to the money
-- there is; but a payment without a row, whose key another row has, changes nothing.
pub receive_payment_refines :
    (m key : Text) (i : ℕ) (p : Payment) (db : Db)
    → p.payment_id ≡ some i
    → HasReceiver key p db (find_transaction i db)
    → book (receive_payment m key p db).0 ≡ (
        if is_blocked i db (find_transaction i db)
        then book db
        else settle_once i (amount_due (find_transaction i db) p) (book db))
receive_payment_refines m key i p db hp h = elim (Option-cases (find_transaction i db)) [
  | inl e ↦
      let (r, res, own, positive) = rw e at h in
      elim (Bool-cases (key_taken i db)) [
        | inl taken ↦ rw e (
            rw taken (
              ap book (
                ap (λ (x : Db × PaymentAction). x.0) (receive_new m key i p db hp e)
                ∙ receive_unknown_refused m key i p db taken)))
        | inr new ↦
            let credits = inbound_credits m key i p db r hp e positive res own new in
            rw e (
              rw new (
                book_eq _ _
                  (λ j.
                    rw (credits.2)
                      (new_settled i j (inbound_tx i p r.id p.value 0) db.transactions refl refl))
                  credits.1))
      ]
  | inr (t, e) ↦
      let (r, found, own) = rw e at h in
      elim (Bool-cases (status_eq t.status confirmed)) [
        | inl paid ↦ rw e (
            rw paid (
              ap book (
                ap (λ (x : Db × PaymentAction). x.0)
                  (receive_known m key i p db t hp e ∙ settled_again m p t db paid))))
        | inr unpaid ↦
            let credits = charge_credits m key i p db t r hp e (ground arith) found own in
            rw e (
              rw unpaid (
                book_eq _ _
                  (λ j.
                    rw
                      (receive_known m key i p db t hp e
                        ∙ receive_charge_lem m p t db (ground arith))
                      (charge_rows m i j p t db e))
                  credits.1))
      ]
]
