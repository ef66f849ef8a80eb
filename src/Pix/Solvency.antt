-- ===== src/Pix/Solvency.antt =====
-- No overdraft by external transfers: what waits for the gateway's answer is covered by the balance,
-- and a rejected request changes nothing that is counted.
use biocodetechpay.Prelude.{
  ℕ, ◌+◌, ◌≡◌, refl, pos, ◌-ℤ◌, ◌≤ℤ◌, int_laws, ltb_ℤ, ltb_ℤ-false, lt→ltb, inl, inr, some, arith,
  Bool-cases,
}
use biocodetechpay.Fees.Bounds.{sent_fee_pos}
use biocodetechpay.Store.{Db, find_user, User, PixTransaction, processing}
use biocodetechpay.Pix.Outcome.{Result, ok, err}
use biocodetechpay.Pix.Ledger.{pending_outbound, get_available_balance, create_ledger_entry}
use biocodetechpay.Pix.Create.{CreateCall, send_external, pay_external, dispatch, outbound_fee}

-- The external transfer of one user, as the pending sums of all users see it. It succeeds only with
-- the row in processing and the sum still within the balance; if it fails, no sum has changed.
abbrev pub Covered : Db → User → CreateCall → Db × Result PixTransaction → Type 0
Covered db s c (db', ok t) =
    (pending_outbound db' c.user_id ≡ pending_outbound db c.user_id + (c.value + outbound_fee s c))
    × (pos (pending_outbound db' c.user_id) ≤ℤ s.balance)
    × (t.status ≡ processing)
Covered db s c (db', err e) = (user : ℕ) → pending_outbound db' user ≡ pending_outbound db user

dispatch-Covered :
    (db : Db) (s : User) (c : CreateCall)
    → pos (pending_outbound db c.user_id + (c.value + outbound_fee s c)) ≤ℤ s.balance
    → Covered db s c (dispatch c (outbound_fee s c) db)
unfolding dispatch pending_outbound create_ledger_entry
dispatch-Covered db s c h = ground arith

pay_external-Covered :
    (db : Db) (s : User) (c : CreateCall)
    → Covered db s c
        (pay_external db (s.balance -ℤ pos (pending_outbound db c.user_id)) (outbound_fee s c) c)
unfolding pay_external
pay_external-Covered db s c =
    let fee = outbound_fee s c in
    let free = s.balance -ℤ pos (pending_outbound db c.user_id) in
    elim (Bool-cases (ltb_ℤ free (pos (c.value + fee)))) [
      | inl short ↦ rw (short, pay_external) (λ user. refl)
      | inr enough ↦
          let room = ltb_ℤ-false free (pos (c.value + fee)) enough in
          rw (enough, lt→ltb 0 fee (sent_fee_pos s.cpf_cnpj c.value), pay_external)
            (dispatch-Covered db s c (omega int_laws))
    ]

-- The available balance of a known user is the balance less what is pending.
pub available_lem :
    (db : Db) (i : ℕ) (s : User)
    → find_user i db ≡ some s
    → get_available_balance db i ≡ ok (s.balance -ℤ pos (pending_outbound db i))
unfolding get_available_balance
available_lem db i s h = rw (h, get_available_balance)

-- An external transfer of a known user that is accepted raises the user's pending sum by exactly
-- value and fee, and leaves it within the balance; one that is refused, for want of funds or by
-- the gateway, changes no user's pending sum.
pub send_external-Covered :
    (db : Db) (s : User) (c : CreateCall)
    → find_user c.user_id db ≡ some s
    → Covered db s c (send_external db s c)
unfolding send_external
send_external-Covered db s c h =
    rw (available_lem db c.user_id s h, send_external) (pay_external-Covered db s c)
