-- ===== src/Pix/Replay.antt =====
-- Idempotency of `create_pix`: a request whose key was used gets the stored transaction.
use biocodetechpay.Prelude.{
  ℕ, ◌≡◌, ap, false, some, arith, Text, text_eq, text_eq_refl, text_eq→eq, codes, length,
  length-append, Option-cases, Bool-cases, inl, inr, ℤ,
}
use mathlib.Core.Path.{subst}
use biocodetechpay.Store.{Db, User, PixTransaction, TransactionType, sent, received, find_user}
use biocodetechpay.Pix.Outcome.{Outcome, ok, err, Result-cases}
use biocodetechpay.Pix.Ledger.{get_available_balance, create_ledger_entry}
use biocodetechpay.Pix.Transfer.{
  execute_internal_transfer, TransferCall, find_recipient_user, received_key,
}
use biocodetechpay.Pix.Create.{
  CreateCall, create_pix, create_new, send_now, send_external, pay_external, dispatch, find_by_key,
  transfer_call, outbound_fee,
}

-- After an accepted call the key finds the transaction that the call returned.
abbrev Stored : Text → Outcome PixTransaction → Type 0
Stored key (db, ok t) = find_by_key key db ≡ some t
Stored key (db, err e) = Unit

-- The receiver's row has a longer key, so it is never mistaken for the sender's.
received_key_ne : (key : Text) → text_eq (received_key key) key ≡ false
received_key_ne key = elim (Bool-cases (text_eq (received_key key) key)) [
  | inl same ↦
      let e : length (received_key key) ≡ length key =
        ap length (text_eq→eq (received_key key) key same) in
      absurd (omega (arith, length-append (codes "internal-recv-") key))
  | inr other ↦ other
]

transfer-Stored :
    (db : Db) (s r : User) (c : TransferCall)
    → Stored c.idempotency_key (execute_internal_transfer db s r c)
unfolding execute_internal_transfer
transfer-Stored db s r c =
    ground (arith, received_key_ne c.idempotency_key, text_eq_refl c.idempotency_key)

dispatch-Stored :
    (db : Db) (fee : ℕ) (c : CreateCall) → Stored c.idempotency_key (dispatch c fee db)
unfolding dispatch create_ledger_entry
dispatch-Stored db fee c = ground (arith, text_eq_refl c.idempotency_key)

pay_external-Stored :
    (db : Db) (a : ℤ) (fee : ℕ) (c : CreateCall)
    → Stored c.idempotency_key (pay_external db a fee c)
unfolding pay_external
pay_external-Stored db a fee c =
    ground (arith, dispatch-Stored db fee c, text_eq_refl c.idempotency_key)

send_now-Stored : (db : Db) (c : CreateCall) → Stored c.idempotency_key (send_now db c)
unfolding send_now send_external
send_now-Stored db c = elim (Option-cases (find_user c.user_id db)) [
  | inl unknown ↦ rw (unknown, send_now) tt
  | inr (s, es) ↦ elim (Option-cases (find_recipient_user db c.pix_key c.key_type)) [
    | inr (r, er) ↦ rw (es, er, send_now) (transfer-Stored db s r (transfer_call c))
    | inl external ↦ elim (Result-cases (get_available_balance db c.user_id)) [
      | inl (a, e) ↦
          rw (es, external, send_now)
            (rw (e, send_external) (pay_external-Stored db a (outbound_fee s c) c))
      | inr (x, e) ↦ rw (es, external, send_now) (rw (e, send_external) tt)
    ]
  ]
]

create_pix-Stored :
    (db : Db) (c : CreateCall) (type : TransactionType)
    → Stored c.idempotency_key (create_pix db c type)
unfolding create_pix create_new
create_pix-Stored db c sent = ground (arith, send_now-Stored db c, text_eq_refl c.idempotency_key)
create_pix-Stored db c received = ground (arith, text_eq_refl c.idempotency_key)

-- Once a call has returned a transaction, every later call with its key, of whatever type, value and
-- recipient, returns the same transaction and changes nothing.
pub create_pix_replay :
    (db db' : Db) (c again : CreateCall) (type type' : TransactionType) (t : PixTransaction)
    → create_pix db c type ≡ (db', ok t)
    → again.idempotency_key ≡ c.idempotency_key
    → create_pix db' again type' ≡ (db', ok t)
unfolding create_pix
create_pix_replay db db' c again type type' t e k =
    let stored : find_by_key c.idempotency_key db' ≡ some t =
      subst (Stored c.idempotency_key) e (create_pix-Stored db c type) in
    let found : find_by_key again.idempotency_key db' ≡ some t = rw k stored in
    rw (found, create_pix)
