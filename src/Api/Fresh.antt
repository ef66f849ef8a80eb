-- ===== src/Api/Fresh.antt =====
-- What `create_pix_transaction` adds to `create_pix`: the confirmation that follows the creation
-- acts on no row that the call has made, and moves no money.
use biocodetechpay.Prelude.{ℕ, ◌≡◌, refl, ℤ, true, false, none, arith, Option-cases, inl, inr}
use biocodetechpay.Fees.Bounds.{sent_fee_pos}
use biocodetechpay.Store.{Db, User, PixTransaction, created, status_eq, sent, find_user}
use biocodetechpay.Store.Total.{total_balance}
use biocodetechpay.Store.Unique.{UniqueIds}
use biocodetechpay.Pix.Outcome.{Outcome, ok, err, Result-cases}
use biocodetechpay.Pix.Ledger.{get_available_balance, create_ledger_entry}
use biocodetechpay.Pix.Transfer.{execute_internal_transfer, TransferCall, find_recipient_user}
use biocodetechpay.Pix.Lifecycle.{confirm_pix}
use biocodetechpay.Pix.Conservation.{create_pix_conserves}
use biocodetechpay.Pix.Create.{
  CreateCall, create_pix, create_new, send_now, send_external, pay_external, dispatch, find_by_key,
  transfer_call, outbound_fee,
}
use biocodetechpay.Pix.Screen.{Clock, screen_antifraud, passed}
use biocodetechpay.Http.{Http, success, failure}
use biocodetechpay.Api.Send.{create_pix_transaction, auto_confirm, account_is_active}

-- The row that was returned is past its creation.
abbrev Started : Outcome PixTransaction → Type 0
Started (db, ok t) = status_eq t.status created ≡ false
Started (db, err e) = Unit

-- What `create_pix` returned, as the endpoint answers it.
abbrev pub answered : Outcome PixTransaction → Http PixTransaction
answered (db, ok t) = (db, success t)
answered (db, err e) = (db, failure 400)

transfer-Started :
    (db : Db) (s r : User) (c : TransferCall) → Started (execute_internal_transfer db s r c)
unfolding execute_internal_transfer
transfer-Started db s r c = ground arith

dispatch-Started : (db : Db) (fee : ℕ) (c : CreateCall) → Started (dispatch c fee db)
unfolding dispatch create_ledger_entry
dispatch-Started db fee c = ground arith

pay_external-Started :
    (db : Db) (a : ℤ) (s : User) (c : CreateCall) → Started (pay_external db a (outbound_fee s c) c)
unfolding pay_external
pay_external-Started db a s c =
    ground (arith, dispatch-Started db (outbound_fee s c) c, sent_fee_pos s.cpf_cnpj c.value)

send_now-Started : (db : Db) (c : CreateCall) → Started (send_now db c)
unfolding send_now send_external
send_now-Started db c = elim (Option-cases (find_user c.user_id db)) [
  | inl unknown ↦ rw (unknown, send_now) tt
  | inr (s, es) ↦ elim (Option-cases (find_recipient_user db c.pix_key c.key_type)) [
    | inr (r, er) ↦ rw (es, er, send_now) (transfer-Started db s r (transfer_call c))
    | inl external ↦ elim (Result-cases (get_available_balance db c.user_id)) [
      | inl (a, e) ↦
          rw (es, external, send_now) (rw (e, send_external) (pay_external-Started db a s c))
      | inr (x, e) ↦ rw (es, external, send_now) (rw (e, send_external) tt)
    ]
  ]
]

fresh-Started :
    (db : Db) (c : CreateCall)
    → find_by_key c.idempotency_key db ≡ none
    → Started (create_pix db c sent)
unfolding create_pix create_new
fresh-Started db c h = ground (arith, h, send_now-Started db c)

auto_confirm-Started : (o : Outcome PixTransaction) → Started o → auto_confirm o ≡ answered o
unfolding auto_confirm
auto_confirm-Started (db, ok t) h = rw (h, auto_confirm) refl
auto_confirm-Started (db, err e) h = refl

auto_confirm-users : (o : Outcome PixTransaction) → (auto_confirm o).0.users ≡ o.0.users
unfolding auto_confirm confirm_pix
auto_confirm-users (db, ok t) = ground arith
auto_confirm-users (db, err e) = refl

-- An active account whose request passes the screening, under a key that no transaction has, is
-- answered with what `create_pix` returns: the confirmation that follows acts on nothing.
pub create_pix_transaction_fresh :
    (u : User) (c : CreateCall) (clock : Clock) (db : Db)
    → account_is_active u db ≡ true
    → screen_antifraud c.value u.id clock db ≡ passed
    → find_by_key c.idempotency_key db ≡ none
    → create_pix_transaction u c clock db
      ≡ answered (create_pix db (record c { user_id = u.id }) sent)
unfolding create_pix_transaction
create_pix_transaction_fresh u c clock db active screened fresh =
    rw (active, create_pix_transaction)
      (rw screened (auto_confirm-Started _ (fresh-Started db (record c { user_id = u.id }) fresh)))

-- Whatever is asked of the endpoint, the sum of all balances stays, in a database whose users have
-- distinct identifiers.
pub create_pix_transaction_conserves :
    (u : User) (c : CreateCall) (clock : Clock) (db : Db)
    → UniqueIds db.users
    → total_balance (create_pix_transaction u c clock db).0.users ≡ total_balance db.users
unfolding create_pix_transaction
create_pix_transaction_conserves u c clock db unique =
    let c' : CreateCall = record c { user_id = u.id } in
    ground
      (arith, auto_confirm-users (create_pix db c' sent), create_pix_conserves db c' sent unique)
