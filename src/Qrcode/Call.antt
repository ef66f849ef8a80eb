-- ===== src/Qrcode/Call.antt =====
-- The request of `pay_pix_qrcode`, app/pix/router.py, and the rows that it writes. The digest of the
-- code, the value of its field 54, and the gateway's answer are arguments; the code has 20 characters
-- or more, as the request demands.
use biocodetechpay.Prelude.{
  ◌≡◌, ◌≢◌, ℕ, ltb, Bool, true, false, not, ◌&&◌, ◌||◌, Option, none, some, [], ◌∷◌, ◌++◌, Text,
  codes, length, take, ◌==◌, if◌then◌else◌,
}
use biocodetechpay.Money.{Cents}
use biocodetechpay.Fees.{calculate_pix_fee}
use biocodetechpay.Store.{
  Db, User, PixTransaction, random, sent, created, confirmed, processing, status_eq,
}
use biocodetechpay.Pix.Create.{find_by_key}
use biocodetechpay.Pix.Screen.{Clock}
use biocodetechpay.Qrcode.Rows.{same_hash}
use biocodetechpay.Qrcode.Lookup.{find_internal_qrcode_charge, Code}

-- What `gateway.pay_qr_code` returns.
pub record QrAnswer : Type 0 where
  pub value : Cents
  pub payment_id : Option ℕ
  pub end_to_end_id : Option Text
  pub receiver_name : Option Text

-- There is no gateway, it is the sandbox, it raises, or it pays.
pub data QrGateway : Type 0 where
  no_gateway sandbox raises : QrGateway
  pays : QrAnswer → QrGateway

-- The request with the arguments of the call, the fresh identifiers and the clock. What the gateway
-- does depends on the value that it is sent.
pub record QrCall : Type 0 where
  pub code : Code
  pub payload_hash : Text
  pub emv_value : Cents
  pub value : Option Cents
  pub x_idempotency_key : Option Text
  pub fresh_key : Text
  pub correlation_id : Text
  pub user_id : ℕ
  pub clock : Clock
  pub gateway : Option Cents → QrGateway
  pub new_id : ℕ
  pub entry_id : ℕ

-- An empty header counts as none.
abbrev pub header_key : Option Text → Option Text
header_key none = none
header_key (some []) = none
header_key (some (ch ∷ key)) = some (ch ∷ key)

abbrev pub idempotency_key_of : QrCall → Text
idempotency_key_of c = elim (header_key c.x_idempotency_key) [ none ↦ c.fresh_key | some key ↦ key ]

abbrev pub find_by_header : QrCall → Db → Option PixTransaction
find_by_header c db = elim (header_key c.x_idempotency_key) [
  | none ↦ none
  | some key ↦ find_by_key key db
]

abbrev pub is_paid_before : QrCall → PixTransaction → Bool
is_paid_before c t =
    t.user_id == c.user_id
    && same_hash t.payload_hash (some c.payload_hash)
    && (status_eq t.status confirmed || status_eq t.status processing)

-- The payer's row for a charge of the platform.
abbrev pub charge_payment : QrCall → PixTransaction → User → PixTransaction
charge_payment c charge receiver = record {
  id = c.new_id;
  value = charge.value;
  pix_key = charge.pix_key;
  key_type = random;
  type = sent;
  status = confirmed;
  user_id = c.user_id;
  idempotency_key = idempotency_key_of c;
  correlation_id = charge.correlation_id;
  scheduled_date = none;
  recipient_name = some receiver.name;
  fee_amount = none;
  created_at = c.clock.now;
  payload_hash = some c.payload_hash;
  copy_paste_code = none;
  expires_at = none;
}

abbrev pub fee_on : User → Cents → Cents
fee_on sender value = calculate_pix_fee sender.cpf_cnpj value true false

-- `data.value or 0.01`
abbrev pub client_value : QrCall → Cents
client_value c = elim c.value [ none ↦ 1 | some v ↦ if v == 0 then 1 else v ]

abbrev pub has_client_value : QrCall → Bool
has_client_value c = elim c.value [ none ↦ false | some v ↦ not (v == 0) ]

abbrev pub provisional_value : QrCall → Cents
provisional_value c = if ltb 0 c.emv_value then c.emv_value else client_value c

abbrev pub provisional_fee : User → QrCall → Cents
provisional_fee sender c =
    if ltb 0 c.emv_value || has_client_value c then fee_on sender (provisional_value c) else 0

abbrev pub key_ref : Text → Text
key_ref payload = if ltb 200 (length payload) then take 197 payload ++ codes "..." else payload

abbrev pub provisional_row : User → QrCall → PixTransaction
provisional_row sender c = record {
  id = c.new_id;
  value = provisional_value c;
  pix_key = key_ref c.code.payload;
  key_type = random;
  type = sent;
  status = created;
  user_id = c.user_id;
  idempotency_key = idempotency_key_of c;
  correlation_id = c.correlation_id;
  scheduled_date = none;
  recipient_name = none;
  fee_amount = some (provisional_fee sender c);
  created_at = c.clock.now;
  payload_hash = some c.payload_hash;
  copy_paste_code = none;
  expires_at = none;
}

-- `asaas_value or emv_value`
abbrev pub payment_value : QrCall → QrAnswer → Cents
payment_value c answer = if answer.value == 0 then c.emv_value else answer.value

abbrev pub payment_id_of : QrCall → QrAnswer → ℕ
payment_id_of c answer = elim answer.payment_id [ none ↦ c.new_id | some payment_id ↦ payment_id ]

abbrev pub dispatched_row : User → QrCall → QrAnswer → PixTransaction
dispatched_row sender c answer = record (provisional_row sender c) {
  id = payment_id_of c answer;
  value = payment_value c answer;
  fee_amount = some (fee_on sender (payment_value c answer));
  status = processing;
  correlation_id = elim answer.end_to_end_id [ none ↦ c.correlation_id | some e ↦ e ];
  recipient_name = answer.receiver_name;
}

-- The code does not stand for an open charge of the payer himself.
abbrev pub NotOwn : QrCall → Db → Type 0
NotOwn c db =
    (charge : PixTransaction)
    → (find_internal_qrcode_charge c.code db).0 ≡ some charge
    → charge.user_id ≢ c.user_id
