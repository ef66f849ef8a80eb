-- ===== src/Qrcode/Settled.antt =====
-- The payment of a code by the gateway, from the request to the event that settles it.
use biocodetechpay.Prelude.{
  ℕ, ◌+◌, ◌≡◌, sym, ◌∙◌, ap, pos, ◌-ℤ◌, Option, some, Text, arith, text_eq, false, first,
}
use biocodetechpay.Store.{fee_of, Db, User, PixTransaction, find_user, has_id, set_balance}
use biocodetechpay.Pix.Ledger.{pending_outbound}
use biocodetechpay.Pix.Deferred.{done_debits}
use biocodetechpay.Pix.Webhook.{transfer_event, transfer_updated, done}
use biocodetechpay.Http.{Response, success}
use biocodetechpay.Qrcode.Call.{QrCall}
use biocodetechpay.Qrcode.Pay.{pay_by_gateway}
use biocodetechpay.Qrcode.Internal.{pay_by_gateway-users}
use biocodetechpay.Qrcode.External.{QrCovered, pay_by_gateway-QrCovered}

-- Where the gateway has paid a code for a user who is not the matrix account, its done event under
-- the identifier of the row debits the user by exactly value and fee of the row, and brings the
-- pending sum back to what it was before the payment.
pub qr_done_debits :
    (m : Text) (name : Option Text) (now : ℕ) (s : User) (c : QrCall) (db db' : Db)
    (t : PixTransaction)
    → find_user c.user_id db ≡ some s
    → text_eq s.email m ≡ false
    → pay_by_gateway s c db ≡ (db', success t)
    → let (settled, action) = transfer_event m name now done t.id db' in
      (action ≡ transfer_updated)
      × (find_user c.user_id settled ≡ some (set_balance (s.balance -ℤ pos (t.value + fee_of t)) s))
      × (pending_outbound settled c.user_id ≡ pending_outbound db c.user_id)
qr_done_debits m name now s c db db' t hs hm h =
    let covered : QrCovered db s c.user_id (db', success t) =
      rw h at (pay_by_gateway-QrCovered s c db hs) in
    let (raised, within, status, type, owner, stored) = covered in
    let users : db'.users ≡ db.users =
      sym (ap (λ (x : Db × Response PixTransaction). x.0.users) h) ∙ pay_by_gateway-users s c db in
    let here : find_user t.user_id db' ≡ some s =
      ap (λ i. find_user i db') owner ∙ ap (first (has_id c.user_id)) users ∙ hs in
    let debited = done_debits m name now t.id db' t s stored type status here hm in
    let (updated, balance, released, available) = rw owner at debited in
    (updated, balance, omega (arith, released, raised))
