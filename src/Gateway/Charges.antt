-- ===== src/Gateway/Charges.antt =====
-- `create_pix_charge`, `get_charge_status`, `cancel_charge`, `create_customer`, `create_subconta`
-- and `decode_qr_code` of app/adapters/asaas_adapter.py.
use biocodetechpay.Prelude.{
  ℕ, Bool, true, false, ◌||◌, [], ◌∷◌, Option, none, some, Text, codes, text_eq, is_digit, take,
  ltb, ◌==◌, if◌then◌else◌,
}
use biocodetechpay.Money.{Cents}
use biocodetechpay.Charge.Confirm.{
  ChargeStatus, pending_status, confirmed_status, expired_status, cancelled_status,
}
use biocodetechpay.Gateway.Wire.{
  Request, Body, GatewayError, http_status, value_error, Api, return, raise, attempt_else, ◌>>=◌,
  make_request, blank, post_payments, get_pix_qr_code, get_payment, delete_payment, post_customers,
  post_accounts, post_qr_decode,
}
use biocodetechpay.Gateway.Settings.{truthy}
use biocodetechpay.Gateway.Payments.{text_or, dated}

-- The wallet and the fee of a split: both are there, and the fee is positive.
abbrev pub split_of : Option Text → Option Cents → Option (Text × Cents)
split_of none fee = none
split_of (some wallet) none = none
split_of (some wallet) (some fee) = if ltb 0 fee then some (wallet, fee) else none

unfoldable pub charge_request :
    Cents → Text → Text → ℕ → Option Text → Option Text → Option Cents → Request
charge_request value description customer_id due_date idempotency_key wallet_id fee =
    record (blank post_payments) {
      value = some value;
      target = customer_id;
      description = take 500 description;
      due_date = some due_date;
      split = split_of (truthy wallet_id) fee;
      idempotency_key = truthy idempotency_key;
    }

pub record Charge : Type 0 where
  pub charge_id : Text
  pub qr_code : Text
  pub status : Text
  pub expires_at : ℕ

-- The code of the charge is asked for in a second request.
unfoldable pub with_code : Body → ℕ → Option Text → Api Charge
unfolding make_request
with_code body due_date none = raise value_error
with_code body due_date (some payment_id) =
    make_request (blank (get_pix_qr_code payment_id)) >>= λ code. return (record {
      charge_id = payment_id;
      qr_code = text_or code.payload [];
      status = text_or body.status (codes "PENDING");
      expires_at = due_date;
    })

abbrev due_or : ℕ → Option ℕ → ℕ
due_or today none = today
due_or today (some day) = day

-- `create_pix_charge`, where `today` is the due date that is not given.
unfoldable pub create_pix_charge :
    ℕ → Cents → Text → Text → Option ℕ → Option Text → Option Text → Option Cents → Api Charge
unfolding make_request charge_request with_code
create_pix_charge today value description customer_id due_date idempotency_key wallet_id fee =
    let due = due_or today due_date in
    make_request (charge_request value description customer_id due idempotency_key wallet_id fee)
    >>= λ body. with_code body due (truthy body.id)

-- `status_map` of a charge.
unfoldable pub charge_status : Option Text → ChargeStatus
charge_status none = pending_status
charge_status (some t) =
    if text_eq t (codes "RECEIVED") || text_eq t (codes "CONFIRMED")
    then confirmed_status
    else if text_eq t (codes "OVERDUE")
    then expired_status
    else if text_eq t (codes "REFUNDED")
    then cancelled_status
    else pending_status

-- `get_charge_status`, of which the status is kept.
unfoldable pub get_charge_status : Text → Api ChargeStatus
unfolding make_request charge_status
get_charge_status charge_id =
    make_request (blank (get_payment charge_id)) >>= λ body. dated body (charge_status body.status)

abbrev absent_charge : GatewayError → Api Bool
absent_charge (http_status code codes) =
    if code == 404 then return false else raise (http_status code codes)
absent_charge e = raise e

-- `cancel_charge`: false is a charge that the gateway does not know.
unfoldable pub cancel_charge : Text → Api Bool
unfolding make_request
cancel_charge charge_id =
    attempt_else (make_request (blank (delete_payment charge_id))) (λ body. return true)
      absent_charge

abbrev is_mark : ℕ → Bool
is_mark c = c == b'.' || c == b'-' || c == b'/'

-- Without the characters that a test picks.
abbrev dropping : (ℕ → Bool) → Text → Text
dropping test [] = []
dropping test (c ∷ s) = if test c then dropping test s else c ∷ dropping test s

abbrev is_no_digit : ℕ → Bool
is_no_digit c = if is_digit c then false else true

-- `create_customer`, with the document as the idempotency key; the name and the address are left out.
unfoldable pub create_gateway_customer : Text → Api (Option Text)
unfolding make_request
create_gateway_customer cpf_cnpj =
    make_request (record (blank post_customers) {
      target = dropping is_mark cpf_cnpj;
      idempotency_key = truthy (some cpf_cnpj);
    })
    >>= λ body. return body.id

abbrev or_document : Option Text → Text → Option Text
or_document none document = truthy (some document)
or_document (some k) document = some k

abbrev wallet_of : Option Text → Api Text
wallet_of none = raise value_error
wallet_of (some wallet) = return wallet

-- `create_subconta`, with the document of its payload.
unfoldable pub create_subconta : Text → Option Text → Api Text
unfolding make_request
create_subconta cpf_cnpj idempotency_key =
    make_request (record (blank post_accounts) {
      target = dropping is_no_digit cpf_cnpj;
      idempotency_key = or_document (truthy idempotency_key) (dropping is_no_digit cpf_cnpj);
    })
    >>= λ body. wallet_of (truthy body.wallet_id)

pub record Decoded : Type 0 where
  pub value : Option Cents
  pub beneficiary_name : Text

abbrev pub beneficiary_of : Body → Text
beneficiary_of body = elim (truthy body.receiver_name) [
  | some name ↦ name
  | none ↦ text_or (truthy body.name) (codes "Beneficiario")
]

-- An error status leaves `decode_qr_code`, any other exception does not.
abbrev pub undecoded : GatewayError → Api (Option Decoded)
undecoded (http_status code codes) = raise (http_status code codes)
undecoded _ = return none

-- `decode_qr_code`
unfoldable pub decode_qr_code : Text → Api (Option Decoded)
unfolding make_request
decode_qr_code payload =
    attempt_else (make_request (record (blank post_qr_decode) { target = payload }))
      (λ body. return (
        if body.is_empty
        then none
        else some (record { value = body.value; beneficiary_name = beneficiary_of body })))
      undecoded
