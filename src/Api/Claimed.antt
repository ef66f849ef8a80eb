-- ===== src/Api/Claimed.antt =====
-- From the issue of a charge to its payment: `generate_pix_charge` and the payment event of the
-- gateway.
use mathlib.Core.Path.{subst}
use biocodetechpay.Prelude.{
  ℕ, ◌≡◌, ◌⊎◌, refl, ◌∙◌, ap, ◌+ℤ◌, pos, Bool, true, false, Option, List, [], ◌∷◌, none, some, Text,
  arith, first-passes, update_first, first-update_first_self, ==_iff, ◌==◌, Option-cases,
  Bool-cases, inl, inr, if◌then◌else◌,
}
use biocodetechpay.Store.{
  Db, User, PixTransaction, created, has_id, find_user, find_transaction, update_user,
  add_transaction,
}
use biocodetechpay.Store.Total.{total_balance}
use biocodetechpay.Http.{Http, Response, success, failure}
use biocodetechpay.Charge.Inbound.{Payment, receive_payment, charge_confirmed}
use biocodetechpay.Charge.Settle.{charge_credits}
use biocodetechpay.Qrcode.Rows.{can_insert}
use biocodetechpay.Api.Issue.{
  IssueCall, IssueGateway, ChargeData, generate_pix_charge, attempt_charge, simulate,
  ensure_asaas_customer, real_row, real_charge, simulated_charge, charge_row, set_customer,
  create_customer, customer_of,
}

total-update_same :
    (p : User → Bool) (f : User → User) (users : List User)
    → ((v : User) → (f v).balance ≡ v.balance)
    → total_balance (update_first p f users) ≡ total_balance users
total-update_same p f [] same = refl
total-update_same p f (x ∷ users) same = ground (arith, same x, total-update_same p f users same)

-- The database has as much money, and still holds the user.
abbrev Kept : Db → ℕ → Db → Type 0
Kept db i db' =
    (total_balance db'.users ≡ total_balance db.users) × ((r : User) × (find_user i db' ≡ some r))

customer-Kept :
    (customer_id : Text) (i : ℕ) (db : Db) (u : User)
    → find_user i db ≡ some u
    → Kept db i (update_user i (set_customer customer_id) db)
customer-Kept customer_id i db u h = (
  total-update_same (has_id i) (set_customer customer_id) db.users (λ v. refl),
  (
    set_customer customer_id u,
    first-update_first_self (has_id i) (set_customer customer_id) db.users u h
        (first-passes (has_id i) db.users u h),
  ),
)

create_customer-Kept :
    (g : IssueGateway) (i : ℕ) (db : Db) (u : User)
    → find_user i db ≡ some u
    → Kept db i (create_customer g i db).0
create_customer-Kept g i db u h = elim (Option-cases g.new_customer) [
  | inl e ↦ rw e (refl, (u, h))
  | inr (customer_id, e) ↦ rw e (customer-Kept customer_id i db u h)
]

List-cases : {A : Type 0} (xs : List A) → (xs ≡ []) ⊎ ((x : A) × (rest : List A) × (xs ≡ x ∷ rest))
List-cases [] = inl refl
List-cases (x ∷ rest) = inr (x, rest, refl)

ensure_asaas_customer-Kept :
    (g : IssueGateway) (i : ℕ) (db : Db) (u : User)
    → find_user i db ≡ some u
    → Kept db i (ensure_asaas_customer g i db).0
unfolding ensure_asaas_customer
ensure_asaas_customer-Kept g i db u h = elim (Bool-cases g.is_configured) [
  | inr off ↦ rw (off, ensure_asaas_customer) (refl, (u, h))
  | inl on ↦ elim (List-cases (customer_of u)) [
    | inl e ↦ rw (on, ensure_asaas_customer) (rw h (rw e (create_customer-Kept g i db u h)))
    | inr (x, rest, e) ↦ rw (on, ensure_asaas_customer) (rw h (rw e (refl, (u, h))))
  ]
]

-- An answer with a row stands for an open charge of the caller, and no money has moved.
abbrev IsIssued : IssueCall → Db → Http PixTransaction → Type 0
IsIssued c db (db', failure code) = Unit
IsIssued c db (db', success t) =
    Kept db c.user_id db'
    × (find_transaction t.id db' ≡ some t)
    × (t.status ≡ created)
    × (t.user_id ≡ c.user_id)
    × (t.value ≡ c.value)

added-IsIssued :
    (c : IssueCall) (db db' : Db) (id : ℕ) (k i : Text) (code : Option Text) (expires : Option ℕ)
    → Kept db c.user_id db'
    → IsIssued c db (
      add_transaction (charge_row c id k i code expires) db',
      success (charge_row c id k i code expires),
    )
added-IsIssued c db db' id k i code expires kept =
    let (total, user) = kept in
    let row = charge_row c id k i code expires in
    ((total, user), rw ((==_iff id id).1 refl) refl, refl, refl, refl)

simulate-IsIssued :
    (c : IssueCall) (db db' : Db) → Kept db c.user_id db' → IsIssued c db (simulate c db')
simulate-IsIssued c db db' kept = elim (Bool-cases (can_insert (simulated_charge c) db')) [
  | inl free ↦ rw free (added-IsIssued c db db' _ _ _ _ _ kept)
  | inr clash ↦ rw clash tt
]

real_row-charge :
    (c : IssueCall) (r : Response (Option Text)) (row : PixTransaction)
    → real_row c r ≡ some row
    → (d : ChargeData) × (row ≡ real_charge c d)
real_row-charge c (failure code) row e = absurd (cc)
real_row-charge c (success none) row e = absurd (cc)
real_row-charge c (success (some [])) row e = absurd (cc)
real_row-charge c (success (some (x ∷ s))) row e = elim (Option-cases c.gateway.new_charge) [
  | inl gone ↦ absurd (ground (arith, gone, e))
  | inr (d, h) ↦ (d, ground (arith, h, e))
]

attempt_charge-IsIssued :
    (c : IssueCall) (db : Db) (u : User)
    → find_user c.user_id db ≡ some u
    → IsIssued c db (attempt_charge c db)
unfolding attempt_charge
attempt_charge-IsIssued c db u h =
    let o = ensure_asaas_customer c.gateway c.user_id db in
    let kept = ensure_asaas_customer-Kept c.gateway c.user_id db u h in
    elim (Option-cases (real_row c o.1)) [
      | inl e ↦ rw (e, attempt_charge) (simulate-IsIssued c db o.0 kept)
      | inr (row, e) ↦
          let (d, row_eq) = real_row-charge c o.1 row e in
          elim (Bool-cases (can_insert (real_charge c d) o.0)) [
            | inl free ↦
                rw (e, attempt_charge)
                  (rw row_eq (rw free (added-IsIssued c db o.0 _ _ _ _ _ kept)))
            | inr clash ↦
                rw (e, attempt_charge) (rw row_eq (rw clash (simulate-IsIssued c db o.0 kept)))
          ]
    ]

either-IsIssued :
    (c : IssueCall) (db : Db) (b : Bool) (x y : Http PixTransaction)
    → IsIssued c db x
    → IsIssued c db y
    → IsIssued c db (if b then x else y)
either-IsIssued c db true x y hx hy = hx
either-IsIssued c db false x y hx hy = hy

generate_pix_charge-IsIssued :
    (c : IssueCall) (db : Db) (u : User)
    → find_user c.user_id db ≡ some u
    → IsIssued c db (generate_pix_charge c db)
unfolding generate_pix_charge
generate_pix_charge-IsIssued c db u h =
    let local = simulate-IsIssued c db db (refl, (u, h)) in
    let attempted = attempt_charge-IsIssued c db u h in
    either-IsIssued c db c.gateway.is_configured _ _
      (either-IsIssued c db (c.value == 0) _ _ local attempted) local

-- A charge that a user of the database was issued, by the gateway or by the fallback, is confirmed
-- by the payment event for its identifier, and the issue and the event together raise the sum of all
-- balances by exactly the value that the user asked for.
pub issued_charge_pays :
    (m key : Text) (c : IssueCall) (p : Payment) (db db' : Db) (u : User) (t : PixTransaction)
    → find_user c.user_id db ≡ some u
    → generate_pix_charge c db ≡ (db', success t)
    → p.payment_id ≡ some t.id
    → let (paid, action) = receive_payment m key p db' in
      (action ≡ charge_confirmed)
      × (total_balance paid.users ≡ total_balance db.users +ℤ pos c.value)
issued_charge_pays m key c p db db' u t h e hp =
    let ((total, (r, user)), found, open_charge, owner, value) =
      subst (IsIssued c db) e (generate_pix_charge-IsIssued c db u h) in
    let receiver : find_user t.user_id db' ≡ some r = rw owner user in
    let same : r.id ≡ c.user_id =
      (==_iff r.id c.user_id).0 (first-passes (has_id c.user_id) db'.users r user) in
    let own : find_user r.id db' ≡ some r = ap (λ k. find_user k db') same ∙ user in
    let credits = charge_credits m key t.id p db' t r hp found (ground arith) receiver own in
    (credits.0, credits.1 ∙ rw (total, value) refl)
