-- ===== src/Qrcode/Losses.antt =====
-- Where the payment of a code departs from what it is for.
use biocodetechpay.Prelude.{
  ℕ, ◌+◌, ◌≡◌, ◌<◌, refl, ◌∙◌, ap, sym, update_first, pos, ◌+ℤ◌, ◌-ℤ◌, ltb_ℤ, leb_ℤ, some, Text,
  arith, true, false, text_eq_refl, text_eq, ◌==◌,
}
use biocodetechpay.Store.{
  Db, User, PixTransaction, find_user, has_id, created, confirmed, failed, set_status,
  add_transaction,
}
use biocodetechpay.Store.Total.{total_balance}
use biocodetechpay.Pix.Ledger.{pending_outbound}
use biocodetechpay.Pix.Solvency.{available_lem}
use biocodetechpay.Money.{Cents}
use biocodetechpay.Charge.Credits.{paid_in}
use biocodetechpay.Http.{success, failure}
use biocodetechpay.Qrcode.Rows.{can_insert}
use biocodetechpay.Qrcode.Lookup.{find_internal_qrcode_charge}
use biocodetechpay.Qrcode.Call.{
  QrCall, fee_on, pays, raises, QrAnswer, provisional_row, payment_value,
}
use biocodetechpay.Qrcode.Pay.{
  lacks_balance, settle_charge, route_payment, pay_internal, pay_by_gateway, dispatch_qr,
  accept_payment,
}
use biocodetechpay.Qrcode.Internal.{settle_charge-total, settle_charge-users}
use biocodetechpay.Qrcode.External.{failed_row-pending}

own_charge :
    (m : Text) (s r : User) (c : QrCall) (charge : PixTransaction) (db : Db)
    → find_user charge.user_id db ≡ some r
    → charge.status ≡ created
    → charge.user_id ≡ c.user_id
    → pay_internal m c s charge db
      ≡ (settle_charge m charge db, success (set_status confirmed charge))
unfolding pay_internal
own_charge m s r c charge db hr hs own = rw (hr, pay_internal) (ground arith)

-- Whoever pays the open charge that he made himself is credited with its value: of all users only
-- his balance and his credit limit change, so no account is debited, and the sum of all balances
-- rises by the value.
pub self_payment_mints :
    (m : Text) (s r : User) (c : QrCall) (charge : PixTransaction) (db : Db)
    → find_internal_qrcode_charge c.code db ≡ (some charge, false)
    → find_user charge.user_id db ≡ some r
    → charge.status ≡ created
    → charge.user_id ≡ c.user_id
    → let (db', response) = route_payment m s c db in
      (response ≡ success (set_status confirmed charge))
      × (db'.users ≡ update_first (has_id c.user_id) (paid_in r charge.value) db.users)
      × (total_balance db'.users ≡ total_balance db.users +ℤ pos charge.value)
unfolding route_payment pay_internal
self_payment_mints m s r c charge db found hr hs own =
    let settled : route_payment m s c db
        ≡ (settle_charge m charge db, success (set_status confirmed charge)) =
      rw (found, route_payment) (own_charge m s r c charge db hr hs own) in
    rw settled (
      refl,
      settle_charge-users m charge db r hr
          ∙ ap (λ i. update_first (has_id i) (paid_in r charge.value) db.users) own,
      settle_charge-total m charge db r hr,
    )

-- For a code without an amount and a positive value of the client, whatever is available, as long
-- as it is positive, lets the payment go on to the gateway with that value. Where the gateway pays
-- it, and it is with the fee more than is available, the row ends as failed, the answer is an error,
-- and neither a balance nor a pending sum changes: nobody is charged for what the gateway paid.
pub paid_but_uncharged :
    (s : User) (c : QrCall) (v : Cents) (answer : QrAnswer) (db : Db)
    → find_user c.user_id db ≡ some s
    → c.emv_value ≡ 0
    → c.value ≡ some v
    → 0 < v
    → c.gateway (some v) ≡ pays answer
    → answer.value ≡ v
    → can_insert (provisional_row s c) db ≡ true
    → leb_ℤ (s.balance -ℤ pos (pending_outbound db c.user_id)) (pos 0) ≡ false
    → ltb_ℤ (s.balance -ℤ pos (pending_outbound db c.user_id)) (pos (v + fee_on s v)) ≡ true
    → let (db', response) = pay_by_gateway s c db in
      (pay_by_gateway s c db ≡ dispatch_qr s c (c.gateway (some v)) db)
      × (db' ≡ add_transaction (set_status failed (provisional_row s c)) db)
      × (response ≡ failure 400)
      × (db'.users ≡ db.users)
      × ((user : ℕ) → pending_outbound db' user ≡ pending_outbound db user)
unfolding pay_by_gateway accept_payment
paid_but_uncharged s c v answer db h he hv positive_value hg ha hi positive short =
    let free = s.balance -ℤ pos (pending_outbound db c.user_id) in
    let failed_row = set_status failed (provisional_row s c) in
    let lacks : lacks_balance s c free ≡ false = ground (arith, he, positive) in
    let known : (answer.value == 0) ≡ false = ground (arith, ha, positive_value) in
    let amount : payment_value c answer ≡ v = rw known ha in
    let told : (payment_value c answer == 0) ≡ false = ground (arith, amount, positive_value) in
    let over : ltb_ℤ free (pos (payment_value c answer + fee_on s (payment_value c answer)))
        ≡ true =
      ap (λ x. ltb_ℤ free (pos (x + fee_on s x))) amount ∙ short in
    let refused : accept_payment s c answer db ≡ (add_transaction failed_row db, failure 400) =
      rw (told, available_lem db c.user_id s h, accept_payment) (rw over refl) in
    let sent_out : dispatch_qr s c (c.gateway (some v)) db
        ≡ (add_transaction failed_row db, failure 400) =
      ap (λ g. dispatch_qr s c g db) hg ∙ rw hi refused in
    let dispatched : pay_by_gateway s c db ≡ dispatch_qr s c (c.gateway (some v)) db =
      rw (available_lem db c.user_id s h, pay_by_gateway)
        (rw lacks (ap (λ x. dispatch_qr s c (c.gateway x) db) hv)) in
    rw (dispatched ∙ sent_out) (sym sent_out, refl, refl, refl, failed_row-pending s c db)

-- After the gateway has refused a code, every further attempt of the same user to pay the code ends
-- in an internal error, whatever the gateway would answer, and changes nothing.
pub refused_code_blocked :
    (s : User) (c c' : QrCall) (answer : QrAnswer) (db : Db)
    → can_insert (provisional_row s c) db ≡ true
    → c'.user_id ≡ c.user_id
    → c'.payload_hash ≡ c.payload_hash
    → let db' = (dispatch_qr s c raises db).0 in
      dispatch_qr s c' (pays answer) db' ≡ (db', failure 500)
refused_code_blocked s c c' answer db hi hu hh =
    let same = ap (λ k. text_eq k c.payload_hash) hh ∙ text_eq_refl c.payload_hash in
    let failed_row = set_status failed (provisional_row s c) in
    let taken : can_insert (provisional_row s c') (add_transaction failed_row db) ≡ false =
      ground (arith, same, hu) in
    rw hi (rw taken refl)
