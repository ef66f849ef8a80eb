-- ===== src/Boleto/Balance.antt =====
-- Where the money of a boleto payment goes.
use biocodetechpay.Prelude.{
  ℕ, ◌+◌, ◌≡◌, refl, inl, inr, pos, ◌+ℤ◌, ◌-ℤ◌, ◌≤ℤ◌, ltb_ℤ, int_laws, parts_of_eq, some, Text,
  text_eq, false, sym, arith, first-update_first_self, first-passes, first-none-before-update_first,
  if◌then◌else◌, Option-cases, Bool-cases,
}
use biocodetechpay.Fees.{calculate_boleto_fee}
use biocodetechpay.Store.{Db, User, find_user, set_balance, has_id, update_user}
use biocodetechpay.Store.Total.{total_balance, total-set_balance}
use biocodetechpay.Pix.Outcome.{ok, err, insufficient_balance}
use biocodetechpay.Pix.Ledger.{get_balance}
use biocodetechpay.Pix.Matrix.{get_matrix_user, has_email}
use biocodetechpay.Pix.Credit.{credit_fee-total}
use biocodetechpay.Pix.Deferred.{credit_fee_other}
use biocodetechpay.Boleto.Payment.{
  PaymentCall, process_payment, settle_boleto, total_required, paid_boleto,
}

settle_boleto-total :
    (m : Text) (db : Db) (s k : User) (c : PaymentCall)
    → find_user c.user_id db ≡ some s
    → get_matrix_user m db ≡ some k
    → total_balance (settle_boleto m db s c).users +ℤ c.value ≡ total_balance db.users
unfolding settle_boleto
settle_boleto-total m db s k c hs hk =
    let left = s.balance -ℤ total_required s c in
    let after = update_user c.user_id (set_balance left) db in
    let fee = calculate_boleto_fee s.cpf_cnpj in
    elim (Option-cases (get_matrix_user m after)) [
      | inl gone ↦ ground (
        arith,
        hk,
        first-none-before-update_first (has_email m) (has_id c.user_id) (set_balance left) db.users
            gone (λ y. refl),
      )
      | inr (k', e) ↦ omega (
        int_laws,
        parts_of_eq _ _ (credit_fee-total m fee after k' e),
        parts_of_eq _ _ (total-set_balance c.user_id left db.users s hs),
      )
    ]

balance_lem :
    (db : Db) (i : ℕ) (s : User) → find_user i db ≡ some s → get_balance db i ≡ ok s.balance
unfolding get_balance
balance_lem db i s h = rw (h, get_balance)

process_payment_lem :
    (m : Text) (db : Db) (s : User) (c : PaymentCall)
    → find_user c.user_id db ≡ some s
    → process_payment m db c ≡ (
        if ltb_ℤ s.balance (total_required s c)
        then (db, err insufficient_balance)
        else (settle_boleto m db s c, ok (paid_boleto s c)))
unfolding process_payment
process_payment_lem m db s c h =
    rw (h, process_payment) (rw (balance_lem db c.user_id s h, process_payment))

-- What a payment of a known user leads to, where the matrix account exists: a refusal that changes
-- nothing if the balance is short of value and fee, and otherwise a paid boleto, for which the sum of
-- all balances falls by exactly the value, since the fee goes to the matrix account.
pub payment_moves :
    (m : Text) (db : Db) (s k : User) (c : PaymentCall)
    → find_user c.user_id db ≡ some s
    → get_matrix_user m db ≡ some k
    → let (db', result) = process_payment m db c in
      (¬ (total_required s c ≤ℤ s.balance) → (db' ≡ db) × (result ≡ err insufficient_balance))
      × (total_required s c ≤ℤ s.balance
          → (result ≡ ok (paid_boleto s c))
            × (total_balance db'.users +ℤ c.value ≡ total_balance db.users))
payment_moves m db s k c hs hk = elim (Bool-cases (ltb_ℤ s.balance (total_required s c))) [
  | inl short ↦
      rw (process_payment_lem m db s c hs)
        (rw short (λ _. (refl, refl), λ le. ground (arith, short)))
  | inr covered ↦ rw (process_payment_lem m db s c hs) (
      rw covered (λ gt. ground (arith, covered), λ _. (refl, settle_boleto-total m db s k c hs hk)))
]

-- The request's value has no lower bound: a user other than the matrix account, with a balance that
-- is not negative, who pays minus the fee and minus `n` cents more, is credited with `n`.
pub negative_value_credits :
    (m : Text) (db : Db) (s : User) (c : PaymentCall) (n : ℕ)
    → find_user c.user_id db ≡ some s
    → text_eq s.email m ≡ false
    → pos 0 ≤ℤ s.balance
    → c.value ≡ pos 0 -ℤ pos (n + calculate_boleto_fee s.cpf_cnpj)
    → let (db', result) = process_payment m db c in
      (result ≡ ok (paid_boleto s c))
      × (find_user c.user_id db' ≡ some (set_balance (s.balance +ℤ pos n) s))
unfolding settle_boleto
negative_value_credits m db s c n hs hm h e =
    let gain : s.balance -ℤ total_required s c ≡ s.balance +ℤ pos n =
      omega (int_laws, parts_of_eq _ _ e) in
    let le : total_required s c ≤ℤ s.balance = omega (int_laws, parts_of_eq _ _ e) in
    let accepted : ltb_ℤ s.balance (total_required s c) ≡ false = ground (arith, le) in
    let debited = set_balance (s.balance -ℤ total_required s c) in
    rw (process_payment_lem m db s c hs) (
      rw accepted (
        refl,
        rw (sym gain) (
            credit_fee_other m (calculate_boleto_fee s.cpf_cnpj) (update_user c.user_id debited db)
              c.user_id (debited s)
              (first-update_first_self (has_id c.user_id) debited db.users s hs
                (first-passes (has_id c.user_id) db.users s hs))
              hm),
      ))
