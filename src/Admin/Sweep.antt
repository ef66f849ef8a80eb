-- ===== src/Admin/Sweep.antt =====
-- What the administrator's movements of money do to the sum of all balances.
use biocodetechpay.Prelude.{
  ◌≡◌, refl, sym, ◌∙◌, ℤ, pos, ◌+ℤ◌, ◌-ℤ◌, int_laws, parts_of_eq, none, some, Text, inl, inr,
  Option-cases, Bool-cases, ltb_ℤ, if◌then◌else◌, first-none-before-update_first,
}
use biocodetechpay.Money.{Cents}
use biocodetechpay.Store.{
  Db, User, PixKeyType, cpf, cnpj, email, phone, random, find_user, set_balance,
}
use biocodetechpay.Store.Total.{total_balance, total-update_first}
use biocodetechpay.Store.Unique.{UniqueIds, first-has_id}
use biocodetechpay.Pix.Matrix.{get_matrix_user, has_email}
use biocodetechpay.Pix.Outcome.{Result-cases}
use biocodetechpay.Pix.Transfer.{TransferCall, execute_internal_transfer}
use biocodetechpay.Pix.Conservation.{transfer_conserves, recipient_found}
use biocodetechpay.Http.{Http, Response, success}
use biocodetechpay.Admin.Treasury.{
  PaymentGateway, unavailable, refuses, accepts, Movement, external_local, external,
  set_email_balance, pay_out, sweep_to, internal_recipient, matrix_transfer, matrix_to_owner,
  credit_owner,
}

apart : (u : User) → some u ≡ none → ⊥
apart u h = cc

set_email_balance-total :
    (mail : Text) (b : ℤ) (db : Db) (u : User)
    → get_matrix_user mail db ≡ some u
    → total_balance (set_email_balance mail b db).users +ℤ u.balance ≡ total_balance db.users +ℤ b
set_email_balance-total mail b db u h = total-update_first (has_email mail) b db.users u h

-- The matrix account's sweep to the owner, carried out or refused, leaves the sum of all balances,
-- also where the two are one account.
pub to_owner_conserves :
    (matrix_email admin_email : Text) (amount : Cents) (db : Db)
    → total_balance (matrix_to_owner matrix_email admin_email amount db).0.users
      ≡ total_balance db.users
unfolding matrix_to_owner credit_owner
to_owner_conserves m a amount db = elim (Option-cases (get_matrix_user m db)) [
  | inl missing ↦ rw (missing, matrix_to_owner) refl
  | inr (k, hk) ↦ elim (Bool-cases (ltb_ℤ k.balance (pos amount))) [
    | inl short ↦ rw (hk, matrix_to_owner) (rw short refl)
    | inr enough ↦ elim (Option-cases (get_matrix_user a db)) [
      | inl nobody ↦ rw (hk, matrix_to_owner) (rw enough (rw nobody refl))
      | inr (o, ho) ↦
          let db1 = set_email_balance m (k.balance -ℤ pos amount) db in
          rw (hk, matrix_to_owner)
            (rw enough (
              rw ho (elim (Option-cases (get_matrix_user a db1)) [
                | inl gone ↦
                    let before : get_matrix_user a db ≡ none =
                      first-none-before-update_first (has_email a) (has_email m)
                        (set_balance (k.balance -ℤ pos amount)) db.users gone (λ y. refl) in
                    absurd (apart o (sym ho ∙ before))
                | inr (o', ho') ↦
                    rw (ho', credit_owner)
                      (omega (
                        int_laws,
                        parts_of_eq _ _
                            (set_email_balance-total m (k.balance -ℤ pos amount) db k hk),
                        parts_of_eq _ _
                            (set_email_balance-total a (o'.balance +ℤ pos amount) db1 o' ho'),
                      ))
              ])))
    ]
  ]
]

-- What leaves the platform with the answer.
abbrev pub paid_out : Cents → Response Movement → Cents
paid_out amount (success external_local) = amount
paid_out amount (success external) = amount
paid_out amount _ = 0

-- What the gateway takes out of the platform; without one the payment is taken as carried out.
abbrev pub leaves : PaymentGateway → Cents → Cents
leaves unavailable amount = amount
leaves refuses amount = 0
leaves accepts amount = amount

-- What leaves the platform: only a transfer that the matrix account can pay goes to the gateway, and
-- only where the recipient is no account of the platform.
abbrev pub leaving : Text → TransferCall → PaymentGateway → Db → Cents
leaving m c gateway db = elim (get_matrix_user m db) [
  | none ↦ 0
  | some k ↦
      if ltb_ℤ k.balance (pos c.amount)
      then 0
      else elim (internal_recipient db c.pix_key c.key_type) [
        | none ↦ leaves gateway c.amount
        | some r ↦ 0
      ]
]

-- The sum of all balances falls by an amount, which the answer tells too.
abbrev pub Leaves : Cents → Cents → Db → Http Movement → Type 0
Leaves amount out db (db', response) =
    (total_balance db'.users +ℤ pos out ≡ total_balance db.users) × (paid_out amount response ≡ out)

pay_out-total :
    (m : Text) (k : User) (amount : Cents) (gateway : PaymentGateway) (db : Db)
    → get_matrix_user m db ≡ some k
    → Leaves amount (leaves gateway amount) db (pay_out m k amount gateway db)
pay_out-total m k amount unavailable db h = (
  omega (int_laws, parts_of_eq _ _ (set_email_balance-total m (k.balance -ℤ pos amount) db k h)),
  refl,
)
pay_out-total m k amount refuses db h = (omega int_laws, refl)
pay_out-total m k amount accepts db h = (
  omega (int_laws, parts_of_eq _ _ (set_email_balance-total m (k.balance -ℤ pos amount) db k h)),
  refl,
)

internal_found :
    (db : Db) (key : Text) (k : PixKeyType) (r : User)
    → UniqueIds db.users
    → internal_recipient db key k ≡ some r
    → find_user r.id db ≡ some r
internal_found db key cpf r u e = recipient_found db key cpf r u e
internal_found db key cnpj r u e = recipient_found db key cnpj r u e
internal_found db key email r u e = recipient_found db key email r u e
internal_found db key phone r u e = absurd (cc)
internal_found db key random r u e = absurd (cc)

sweep_to-total :
    (db : Db) (k r : User) (c : TransferCall)
    → find_user k.id db ≡ some k
    → find_user r.id db ≡ some r
    → Leaves c.amount 0 db (sweep_to db k r c)
unfolding sweep_to
sweep_to-total db k r c hk hr =
    let run = execute_internal_transfer db k r c in
    elim (Result-cases run.1) [
      | inl (t, e) ↦
          rw (e, sweep_to)
            (omega (int_laws, parts_of_eq _ _ (transfer_conserves db k r c hk hr)), refl)
      | inr (x, e) ↦ rw (e, sweep_to) (omega int_laws, refl)
    ]

-- In a database whose users have distinct identifiers: a transfer of the matrix account to a
-- recipient outside the platform, whose amount the account has, lowers the sum of all balances by
-- exactly the amount where the gateway accepts it or where there is no gateway, and is then answered
-- as paid out; every other transfer leaves the sum, and is not answered as paid out.
pub matrix_transfer_pays :
    (m : Text) (c : TransferCall) (gateway : PaymentGateway) (db : Db)
    → UniqueIds db.users
    → let (db', response) = matrix_transfer m c gateway db in
      (total_balance db'.users +ℤ pos (leaving m c gateway db) ≡ total_balance db.users)
      × (paid_out c.amount response ≡ leaving m c gateway db)
unfolding matrix_transfer
matrix_transfer_pays m c gateway db unique = elim (Option-cases (get_matrix_user m db)) [
  | inl missing ↦ rw (missing, matrix_transfer, leaving) (omega int_laws, refl)
  | inr (k, hk) ↦ elim (Bool-cases (ltb_ℤ k.balance (pos c.amount))) [
    | inl short ↦ rw (hk, matrix_transfer, leaving) (rw short (omega int_laws, refl))
    | inr enough ↦ elim (Option-cases (internal_recipient db c.pix_key c.key_type)) [
      | inl abroad ↦
          rw (hk, abroad, matrix_transfer, leaving)
            (rw enough (pay_out-total m k c.amount gateway db hk))
      | inr (r, hr) ↦
          rw (hk, hr, matrix_transfer, leaving)
            (rw enough (
              sweep_to-total db k r c (first-has_id (has_email m) db.users k unique hk)
                (internal_found db c.pix_key c.key_type r unique hr)))
    ]
  ]
]
