-- ===== src/Pix/Conservation.antt =====
-- Money is neither made nor lost: a transfer between users moves it, and a request to send or
-- receive moves none before its confirmation.
use biocodetechpay.Prelude.{
  ℕ, ◌≡◌, refl, ◌∙◌, ◌≢◌, ℤ, pos, ◌+ℤ◌, ◌-ℤ◌, int_laws, parts_of_eq, ltb_ℤ, some, Text, text_eq,
  lower, strip, ap, arith, first, update_first, first-update_first_other, ◌==◌, Option-cases,
  Bool-cases, inl, inr,
}
use biocodetechpay.Store.{
  Db, User, TransactionType, sent, received, has_id, find_user, set_balance, update_user, cpf, cnpj,
  email, phone, random, PixKeyType,
}
use biocodetechpay.Pix.Outcome.{Result-cases}
use biocodetechpay.Store.Total.{total_balance, total-set_balance}
use biocodetechpay.Store.Unique.{UniqueIds, first-has_id}
use biocodetechpay.Pix.Transfer.{execute_internal_transfer, TransferCall, find_recipient_user}
use biocodetechpay.Pix.Create.{
  CreateCall, create_pix, create_new, send_now, send_external, pay_external, dispatch,
  transfer_call, outbound_fee,
}
use biocodetechpay.Pix.Ledger.{get_available_balance, get_available_balance, create_ledger_entry}

-- Two assignments to two different users, each of whom the database holds.
total_moved :
    (db : Db) (s r : User) (x y : ℤ)
    → find_user s.id db ≡ some s
    → find_user r.id db ≡ some r
    → s.id ≢ r.id
    → total_balance (update_user r.id (set_balance y) (update_user s.id (set_balance x) db)).users
        +ℤ s.balance
        +ℤ r.balance
      ≡ total_balance db.users +ℤ x +ℤ y
total_moved db s r x y hs hr ne =
    let mid = update_first (has_id s.id) (set_balance x) db.users in
    let kept : first (has_id r.id) mid ≡ some r =
      first-update_first_other (has_id r.id) (has_id s.id) (set_balance x) db.users r hr
        (ground arith) (λ u. refl) in
    omega (
      int_laws,
      parts_of_eq _ _ (total-set_balance s.id x db.users s hs),
      parts_of_eq _ _ (total-set_balance r.id y mid r kept),
    )

-- A transfer between two users of the database leaves the sum of all balances as it was, whether it
-- is carried out or refused.
pub transfer_conserves :
    (db : Db) (s r : User) (c : TransferCall)
    → find_user s.id db ≡ some s
    → find_user r.id db ≡ some r
    → total_balance (execute_internal_transfer db s r c).0.users ≡ total_balance db.users
unfolding execute_internal_transfer
transfer_conserves db s r c hs hr = elim (Bool-cases (s.id == r.id)) [
  | inl same ↦ rw same
  | inr other ↦ elim (Bool-cases (ltb_ℤ s.balance (pos c.amount))) [
    | inl short ↦ rw (other, short)
    | inr covered ↦
        rw (other, covered)
          (omega (
            int_laws,
            parts_of_eq _ _ (
                total_moved db s r (s.balance -ℤ pos c.amount -ℤ pos 0) (r.balance +ℤ pos c.amount)
                  hs hr (ground arith)),
          ))
  ]
]

-- What finds the recipient is a query, so by the primary key it is the user of that identifier.
pub recipient_found :
    (db : Db) (key : Text) (k : PixKeyType) (r : User)
    → UniqueIds db.users
    → find_recipient_user db key k ≡ some r
    → find_user r.id db ≡ some r
unfolding find_recipient_user
recipient_found db key cpf r u e = first-has_id _ db.users r u e
recipient_found db key cnpj r u e = first-has_id _ db.users r u e
recipient_found db key email r u e =
    let login = λ (v : User). text_eq (lower v.email) (lower (strip key)) in
    elim (Option-cases (first login db.users)) [
      | inl none_yet ↦ first-has_id _ db.users r u (rw (none_yet, find_recipient_user) at e)
      | inr (v, found) ↦
          first-has_id login db.users r u (found ∙ (rw (found, find_recipient_user) at e))
    ]
recipient_found db key random r u e = first-has_id _ db.users r u e
recipient_found db key phone r u e = cc

dispatch-users : (c : CreateCall) (fee : ℕ) (db : Db) → (dispatch c fee db).0.users ≡ db.users
unfolding dispatch create_ledger_entry
dispatch-users c fee db = ground arith

pay_external-users :
    (db : Db) (a : ℤ) (fee : ℕ) (c : CreateCall) → (pay_external db a fee c).0.users ≡ db.users
unfolding pay_external
pay_external-users db a fee c = ground (arith, dispatch-users c fee db)

send_external-users :
    (db : Db) (s : User) (c : CreateCall) → (send_external db s c).0.users ≡ db.users
unfolding send_external
send_external-users db s c = elim (Result-cases (get_available_balance db c.user_id)) [
  | inl (a, e) ↦ rw (e, send_external) (pay_external-users db a (outbound_fee s c) c)
  | inr (x, e) ↦ rw (e, send_external)
]

send_now-total :
    (db : Db) (c : CreateCall)
    → UniqueIds db.users
    → total_balance (send_now db c).0.users ≡ total_balance db.users
unfolding send_now
send_now-total db c u = elim (Option-cases (find_user c.user_id db)) [
  | inl unknown ↦ rw (unknown, send_now)
  | inr (s, es) ↦ elim (Option-cases (find_recipient_user db c.pix_key c.key_type)) [
    | inl external ↦ rw (es, external, send_now) (ap total_balance (send_external-users db s c))
    | inr (r, er) ↦
        rw (es, er, send_now)
          (transfer_conserves db s r (transfer_call c) (first-has_id _ db.users s u es)
            (recipient_found db c.pix_key c.key_type r u er))
  ]
]

-- Whatever is asked of `create_pix`, and however the gateway answers, the sum of all balances stays:
-- internal transfers move money, and external ones are debited only on confirmation.
pub create_pix_conserves :
    (db : Db) (c : CreateCall) (type : TransactionType)
    → UniqueIds db.users
    → total_balance (create_pix db c type).0.users ≡ total_balance db.users
unfolding create_pix create_new
create_pix_conserves db c received u = ground arith
create_pix_conserves db c sent u = ground (arith, send_now-total db c u)
