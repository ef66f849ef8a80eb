-- ===== src/Qrcode/Tests.antt =====
-- Payments of codes on a small database, and the theorems at inputs that meet their hypotheses.
use biocodetechpay.Prelude.{
  update_first, sym, ap, ◌∙◌, Bool, ℕ, ◌+◌, ◌≡◌, refl, pos, ◌+ℤ◌, ◌-ℤ◌, none, some, Option, codes,
  arith, [], ◌∷◌, false,
}
use biocodetechpay.Store.{
  fee_of, or_zero, has_id, failed, Db, PixTransaction, created, received, random, find_user,
  set_status, set_balance, confirmed, debit, add_transaction,
}
use biocodetechpay.Charge.Credits.{paid_in}
use biocodetechpay.Store.Total.{total_balance}
use biocodetechpay.Fees.{calculate_pix_fee, calculate_pix_outbound_fee, is_pj}
use biocodetechpay.Money.{quantize}
use biocodetechpay.Emv.Parse.{validate_pix_crc}
use biocodetechpay.Pix.Matrix.{credit_fee}
use biocodetechpay.Pix.Receipt.{credit_pix_receipt}
use biocodetechpay.Pix.Ledger.{pending_outbound, get_available_balance, create_ledger_entry}
use biocodetechpay.Pix.Webhook.{transfer_event, transfer_updated, done}
use biocodetechpay.Pix.Samples.{matrix_email, ana, bia, matrix, bank}
use biocodetechpay.Http.{success, failure}
use biocodetechpay.Qrcode.Lookup.{find_internal_qrcode_charge}
use biocodetechpay.Qrcode.Call.{
  provisional_row, QrCall, QrAnswer, no_gateway, pays, dispatched_row, charge_payment, NotOwn,
}
use biocodetechpay.Qrcode.Pay.{dispatch_qr, pay_pix_qrcode, route_payment, pay_by_gateway}
use biocodetechpay.Qrcode.Internal.{qr_payment_conserves}
use biocodetechpay.Qrcode.External.{QrCovered, pay_by_gateway-QrCovered}
use biocodetechpay.Qrcode.Settled.{qr_done_debits}
use biocodetechpay.Qrcode.Replay.{qr_payment_replays}
use biocodetechpay.Qrcode.Losses.{self_payment_mints, paid_but_uncharged}

-- A charge of R$30.00 that bia has made.
abbrev charge : PixTransaction
charge = record {
  id = 40;
  value = 3000;
  pix_key = codes "00020126580014br.gov.bcb.pix";
  key_type = random;
  type = received;
  status = created;
  user_id = 2;
  idempotency_key = codes "k40";
  correlation_id = codes "c40";
  scheduled_date = none;
  recipient_name = none;
  fee_amount = none;
  created_at = 1000;
  payload_hash = none;
  copy_paste_code = none;
  expires_at = none;
}

abbrev charged : Db
charged = record bank { transactions = charge ∷ [] }

-- The charge as ana's own.
abbrev own_charged : Db
own_charged = record bank { transactions = record charge { user_id = 1 } ∷ [] }

-- Ana pays the code of the charge.
abbrev scan : QrCall
scan = record {
  code = record { payload = codes "00020126580014br.gov.bcb.pix"; uuids = 40 ∷ []; asaas_ids = [] };
  payload_hash = codes "9f86d081";
  emv_value = 3000;
  value = none;
  x_idempotency_key = some (codes "tap-1");
  fresh_key = codes "fresh";
  correlation_id = codes "c1";
  user_id = 1;
  clock = record { now = 5000; hour = 12; minute = 0 };
  gateway = λ v. no_gateway;
  new_id = 90;
  entry_id = 91;
}

abbrev paid_out : QrAnswer
paid_out = record {
  value = 3000;
  payment_id = some 95;
  end_to_end_id = some (codes "E2E");
  receiver_name = none;
}

-- A code of another bank, without an amount.
abbrev scan_abroad : QrCall
scan_abroad = record scan {
  code = record { payload = codes "00020126330014br.gov.bcb.pix"; uuids = []; asaas_ids = [] };
  gateway = λ v. pays paid_out;
}

abbrev open_amount : QrCall
open_amount = record scan_abroad {
  emv_value = 0;
  value = some 20000;
  gateway = λ v. pays (record paid_out { value = or_zero v });
}

-- The payer has R$69.00 left of R$100.00, the matrix account R$1.00, and the receiver R$35.00.
pays_charge :
    (pay_pix_qrcode matrix_email scan charged).0.users
    ≡ set_balance (pos 6900) ana
      ∷ record bia { balance = pos 3500; credit_limit = 1001500 }
      ∷ set_balance (pos 100) matrix
      ∷ []
unfolding pay_pix_qrcode validate_pix_crc find_internal_qrcode_charge credit_fee credit_pix_receipt
    ◌-ℤ◌ ◌+ℤ◌ quantize
pays_charge = refl

scan_finds : find_internal_qrcode_charge scan.code charged ≡ (some charge, false)
unfolding find_internal_qrcode_charge
scan_finds = refl

scan-NotOwn : NotOwn scan charged
scan-NotOwn x h e =
    let same : some charge ≡ some x =
      sym (ap (λ (r : Option PixTransaction × Bool). r.0) scan_finds) ∙ h in
    ground (arith, same, e)

qr_payment_conserves_example :
    total_balance (pay_pix_qrcode matrix_email scan charged).0.users ≡ total_balance charged.users
qr_payment_conserves_example =
    qr_payment_conserves matrix_email scan matrix charged refl scan-NotOwn

pay_by_gateway-QrCovered_example : QrCovered bank ana 1 (pay_by_gateway ana scan_abroad bank)
pay_by_gateway-QrCovered_example = pay_by_gateway-QrCovered ana scan_abroad bank refl

-- The row and the database after ana has paid abroad.
abroad_paid : pay_by_gateway ana scan_abroad bank ≡ (
  create_ledger_entry 91 1 debit 3400 95
      (add_transaction (dispatched_row ana scan_abroad paid_out) bank),
  success (dispatched_row ana scan_abroad paid_out),
)
unfolding pay_by_gateway get_available_balance calculate_pix_fee calculate_pix_outbound_fee is_pj
    ◌-ℤ◌ create_ledger_entry
abroad_paid = refl

self_payment_mints_example :
    let (db', response) = route_payment matrix_email ana scan own_charged in
    (response ≡ success (set_status confirmed (record charge { user_id = 1 })))
    × (db'.users ≡ update_first (has_id scan.user_id) (paid_in ana 3000) own_charged.users)
    × (total_balance db'.users ≡ total_balance own_charged.users +ℤ pos 3000)
unfolding find_internal_qrcode_charge
self_payment_mints_example =
    self_payment_mints matrix_email ana ana scan (record charge { user_id = 1 }) own_charged refl
      refl refl refl

scan_paid :
    pay_pix_qrcode matrix_email scan charged
    ≡ ((pay_pix_qrcode matrix_email scan charged).0, success (charge_payment scan charge bia))
unfolding pay_pix_qrcode validate_pix_crc find_internal_qrcode_charge credit_fee credit_pix_receipt
    ◌-ℤ◌ ◌+ℤ◌ quantize
scan_paid = refl

qr_payment_replays_example :
    let db' = (pay_pix_qrcode matrix_email scan charged).0 in
    pay_pix_qrcode matrix_email scan db' ≡ (db', success (charge_payment scan charge bia))
qr_payment_replays_example =
    qr_payment_replays matrix_email scan charged (pay_pix_qrcode matrix_email scan charged).0
      (charge_payment scan charge bia) scan-NotOwn scan_paid

abbrev abroad_row : PixTransaction
abroad_row = dispatched_row ana scan_abroad paid_out

abbrev abroad_db : Db
abroad_db = create_ledger_entry 91 1 debit 3400 95 (add_transaction abroad_row bank)

qr_done_debits_example :
    let (settled, action) = transfer_event matrix_email none 9000 done 95 abroad_db in
    (action ≡ transfer_updated)
    × (find_user 1 settled ≡ some (set_balance (pos 10000 -ℤ pos (3000 + fee_of abroad_row)) ana))
    × (pending_outbound settled 1 ≡ pending_outbound bank 1)
qr_done_debits_example =
    qr_done_debits matrix_email none 9000 ana scan_abroad bank abroad_db abroad_row refl refl
      abroad_paid

paid_but_uncharged_example :
    let (db', response) = pay_by_gateway ana open_amount bank in
    (pay_by_gateway ana open_amount bank
      ≡ dispatch_qr ana open_amount (open_amount.gateway (some 20000)) bank)
    × (db' ≡ add_transaction (set_status failed (provisional_row ana open_amount)) bank)
    × (response ≡ failure 400)
    × (db'.users ≡ bank.users)
    × ((user : ℕ) → pending_outbound db' user ≡ pending_outbound bank user)
unfolding pending_outbound ◌-ℤ◌ calculate_pix_fee calculate_pix_outbound_fee is_pj
paid_but_uncharged_example =
    paid_but_uncharged ana open_amount 20000 (record paid_out { value = 20000 }) bank refl refl refl
      (omega arith) refl refl refl refl refl
