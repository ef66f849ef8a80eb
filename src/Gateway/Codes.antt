-- ===== src/Gateway/Codes.antt =====
-- `pay_qr_code` of app/adapters/asaas_adapter.py. A code that the gateway cannot read is paid by the
-- key in it; one that names a payload location, by the code that the location gives, and failing
-- that by the key that it gives. `hexdigest()[:20]` of SHA-256 is a parameter, and amounts are not
-- negative.
use biocodetechpay.Prelude.{
  Bool, true, false, ◌&&◌, ◌||◌, not, List, [], ◌∷◌, ◌++◌, Option, none, some, Text, codes, text_eq,
  strip, take, length, leb, ltb, ◌==◌, if◌then◌else◌,
}
use biocodetechpay.Money.{Cents}
use biocodetechpay.Emv.Keys.{classify_key}
use biocodetechpay.Gateway.Wire.{
  Request, Body, GatewayError, http_status, value_error, Api, return, raise, attempt_else, ◌>>=◌,
  make_request, blank, post_qr_pay,
}
use biocodetechpay.Gateway.Settings.{Adapter, truthy, get_operation_key}
use biocodetechpay.Gateway.Payments.{
  GatewayPayment, text_or, non_empty, dated, in_processing, create_pix_payment,
}
use biocodetechpay.Gateway.Fields.{QrFields}
use biocodetechpay.Gateway.Psp.{
  Psp, PspCharge, AmountField, missing, bad_amount, amount, or_field, find_charge, text_of,
}

-- The arguments of `pay_qr_code`.
pub record PayCall : Type 0 where
  pub payload : Text
  pub description : Text
  pub idempotency_key : Option Text
  pub value : Option Cents

abbrev default_description : Text
default_description = codes "BioCodeTechPay QR Code Payment"

-- An amount that is missing or zero counts as false.
abbrev pub truthy_cents : Option Cents → Option Cents
truthy_cents none = none
truthy_cents (some v) = if ltb 0 v then some v else none

abbrev pub or_cents : Option Cents → Option Cents → Option Cents
or_cents none v = v
or_cents (some u) v = some u

unfoldable pub qr_request : Text → Text → Option Cents → Option Text → Option Text → Request
qr_request code description value operation_key idempotency_key = record (blank post_qr_pay) {
  target = code;
  description = take 140 (non_empty description default_description);
  value = value;
  operation_key = operation_key;
  idempotency_key = truthy idempotency_key;
}

abbrev pub qr_result : Option Cents → Body → GatewayPayment
qr_result value body = record {
  payment_id = body.id;
  status = in_processing (text_or body.status (codes "BANK_PROCESSING"));
  value = value;
  end_to_end_id = body.end_to_end_id;
  receiver_name = text_or body.receiver_name [];
}

-- The key that the caller gave, or one that the text determines.
abbrev pub key_or : (Text → Text) → Text → Text → Option Text → Option Text
key_or digest prefix text given = elim (truthy given) [
  | some k ↦ some k
  | none ↦ some (prefix ++ digest text)
]

-- `float` of a field that is there.
abbrev pub with_amount {ℓ} : {A : Type ℓ} → AmountField → Cents → (Cents → Api A) → Api A
with_amount missing default next = next default
with_amount bad_amount default next = raise value_error
with_amount (amount v) default next = next v

-- Attempt 2, with the code that the location gives; its amount is the answer's, the location's or
-- the code's.
abbrev pub canonical_by : Option Cents → PspCharge → Cents → Body → Api GatewayPayment
canonical_by (some v) d emv_amount body = dated body (qr_result (some v) body)
canonical_by none d emv_amount body =
    with_amount d.original emv_amount (λ v. dated body (qr_result (some v) body))

abbrev pub canonical_result : PspCharge → Cents → Body → Api GatewayPayment
canonical_result d emv_amount body =
    canonical_by (or_cents (truthy_cents body.value) (truthy_cents body.pix_value)) d emv_amount
      body

unfoldable pub pay_canonical :
    (Text → Text) → Adapter → PayCall → PspCharge → Cents → Text → Api GatewayPayment
unfolding make_request qr_request
pay_canonical digest a c d emv_amount psp_emv = get_operation_key a >>= λ operation_key.
    make_request (
      qr_request psp_emv c.description none operation_key
        (key_or digest (codes "qrcanon-") psp_emv c.idempotency_key))
    >>= canonical_result d emv_amount

-- The amount of the transfer: the original one, that of `modalidadeAlteracao`, or the code's.
abbrev pub transfer_field : PspCharge → AmountField
transfer_field d = or_field d.original d.modalidade_alteracao

abbrev pub is_no_text : Text → Bool
is_no_text [] = true
is_no_text (c ∷ s) = false

abbrev pub pay_amount : (Text → Text) → Adapter → PayCall → Text → Cents → Api GatewayPayment
pay_amount digest a c resolved_key resolved_amount =
    if resolved_amount == 0
    then raise value_error
    else create_pix_payment a resolved_amount resolved_key (classify_key resolved_key)
        (non_empty c.description default_description)
        (key_or digest (codes "qrfallback-") c.payload c.idempotency_key)

-- The last resort, a transfer to the key that the location gives.
unfoldable pub pay_resolved :
    (Text → Text) → Adapter → PayCall → PspCharge → Cents → Api GatewayPayment
pay_resolved digest a c d emv_amount =
    let resolved_key = strip (text_of d.chave) in
    if is_no_text resolved_key
    then raise value_error
    else with_amount (transfer_field d) emv_amount (pay_amount digest a c resolved_key)

-- Attempt 2 is made for a code of at least 20 characters; any exception of it leads to the transfer.
unfoldable pub pay_dynamic :
    (Text → Text) → Adapter → PayCall → PspCharge → Cents → Api GatewayPayment
unfolding pay_canonical pay_resolved
pay_dynamic digest a c d emv_amount =
    let psp_emv = strip (text_of d.pix_copia_e_cola) in
    if leb 20 (length psp_emv)
    then attempt_else (pay_canonical digest a c d emv_amount psp_emv) return
        (λ e. pay_resolved digest a c d emv_amount)
    else pay_resolved digest a c d emv_amount

abbrev pub pay_charge :
    (Text → Text) → Adapter → PayCall → Cents → Option PspCharge → Api GatewayPayment
pay_charge digest a c emv_amount none = raise value_error
pay_charge digest a c emv_amount (some d) = pay_dynamic digest a c d emv_amount

-- Path 2, where the payload names a location.
abbrev pub pay_at :
    (Text → Text)
    → Psp
    → Adapter
    → PayCall
    → Cents
    → GatewayError
    → Option Text
    → Api GatewayPayment
pay_at digest p a c emv_amount e none = raise e
pay_at digest p a c emv_amount e (some url) = pay_charge digest a c emv_amount (find_charge p url)

-- Path 1, a transfer to the key of a code that has a positive amount.
abbrev pub pay_static : (Text → Text) → Adapter → PayCall → Cents → Text × Text → Api GatewayPayment
pay_static digest a c emv_amount (pix_key, key_type) =
    create_pix_payment a emv_amount pix_key key_type (non_empty c.description default_description)
      (key_or digest (codes "qrstatic-") c.payload c.idempotency_key)

abbrev pub pay_by_key :
    (Text → Text)
    → Psp
    → Adapter
    → PayCall
    → QrFields
    → GatewayError
    → Option (Text × Text)
    → Api GatewayPayment
pay_by_key digest p a c q e none = pay_at digest p a c q.emv_amount e q.url
pay_by_key digest p a c q e (some key) =
    if not (is_no_text key.0) && ltb 0 q.emv_amount
    then pay_static digest a c q.emv_amount key
    else pay_at digest p a c q.emv_amount e q.url

-- `_FALLBACK_CODES`
abbrev is_fallback_code : Text → Bool
is_fallback_code t =
    text_eq t (codes "parse_error")
    || text_eq t (codes "invalid_action")
    || text_eq t (codes "invalid_qrCode")

abbrev pub has_parse_error : List Text → Bool
has_parse_error [] = false
has_parse_error (t ∷ ts) = is_fallback_code t || has_parse_error ts

-- What is done about an exception of the first attempt.
abbrev pub fall_back :
    (Text → Text) → Psp → Adapter → PayCall → QrFields → GatewayError → Api GatewayPayment
fall_back digest p a c q (http_status code codes) =
    if code == 400 && has_parse_error codes
    then pay_by_key digest p a c q (http_status code codes) q.key
    else raise (http_status code codes)
fall_back digest p a c q e = raise e

-- The amount of the first attempt.
abbrev first_value : PayCall → QrFields → Option Cents
first_value c q = or_cents (truthy_cents c.value) (truthy_cents (some q.emv_amount))

unfoldable pub first_request : PayCall → QrFields → Option Text → Request
unfolding qr_request
first_request c q operation_key =
    qr_request c.payload c.description (first_value c q) operation_key c.idempotency_key

abbrev pub first_result : Body → Api GatewayPayment
first_result body = dated body (qr_result (or_cents (truthy_cents body.value) body.pix_value) body)

unfoldable pub pay_first :
    (Text → Text) → Psp → Adapter → PayCall → QrFields → Option Text → Api GatewayPayment
unfolding make_request first_request pay_dynamic create_pix_payment find_charge
pay_first digest p a c q operation_key =
    attempt_else (make_request (first_request c q operation_key)) first_result
      (fall_back digest p a c q)

-- `pay_qr_code`, given what the readers find in the payload.
unfoldable pub pay_qr_code : (Text → Text) → Psp → Adapter → PayCall → QrFields → Api GatewayPayment
unfolding pay_first
pay_qr_code digest p a c q = get_operation_key a >>= pay_first digest p a c q
