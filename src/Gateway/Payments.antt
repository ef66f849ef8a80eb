-- ===== src/Gateway/Payments.antt =====
-- `create_pix_payment`, `get_payment_status`, `pay_boleto`, `simulate_boleto_payment`,
-- `lookup_pix_key` and `list_pix_credits` of app/adapters/asaas_adapter.py.
use biocodetechpay.Prelude.{
  ℕ, ◌||◌, [], ◌∷◌, List, Option, none, some, Text, codes, text_eq, take, ◌==◌, if◌then◌else◌,
}
use biocodetechpay.Money.{Cents}
use biocodetechpay.Gateway.Wire.{
  Request, Body, DateField, GatewayError, http_status, value_error, Api, return, raise,
  attempt_else, ◌>>=◌, make_request, blank, post_transfers, get_transfer, post_bill,
  post_bill_simulate, get_address_key, get_pix_transactions, absent, readable, unreadable,
}
use biocodetechpay.Charge.Deposit.{ListedCredit}
use biocodetechpay.Gateway.Settings.{Adapter, truthy, get_operation_key, asaas_key_type}

-- What the payment of a code and a transfer come to.
pub record GatewayPayment : Type 0 where
  pub payment_id : Option Text
  pub status : Text
  pub value : Option Cents
  pub end_to_end_id : Option Text
  pub receiver_name : Text

abbrev pub text_or : Option Text → Text → Text
text_or none default = default
text_or (some s) default = s

-- `s or default`
abbrev pub non_empty : Text → Text → Text
non_empty [] default = default
non_empty (c ∷ s) default = c ∷ s

-- `datetime.fromisoformat` raises a `ValueError` on a date that it cannot read.
abbrev pub dated_by {ℓ} : {A : Type ℓ} → DateField → A → Api A
dated_by absent x = return x
dated_by readable x = return x
dated_by unreadable x = raise value_error

abbrev pub dated {ℓ} : {A : Type ℓ} → Body → A → Api A
dated body x = dated_by body.date x

abbrev pub in_processing : Text → Text
in_processing t =
    if text_eq t (codes "AWAITING_TRANSFER_AUTHORIZATION") then codes "BANK_PROCESSING" else t

unfoldable pub transfer_request : Cents → Text → Text → Text → Option Text → Option Text → Request
unfolding asaas_key_type
transfer_request value pix_key pix_key_type description idempotency_key operation_key =
    record (blank post_transfers) {
      value = some value;
      target = pix_key;
      key_type = asaas_key_type pix_key_type;
      description = take 140 description;
      operation_key = operation_key;
      idempotency_key = truthy idempotency_key;
    }

abbrev pub transfer_result : Cents → Body → GatewayPayment
transfer_result value body = record {
  payment_id = body.id;
  status = non_empty (in_processing (text_or body.status [])) (codes "BANK_PROCESSING");
  value = some value;
  end_to_end_id = body.end_to_end_id;
  receiver_name = [];
}

-- `create_pix_payment`
unfoldable pub create_pix_payment :
    Adapter → Cents → Text → Text → Text → Option Text → Api GatewayPayment
unfolding make_request transfer_request
create_pix_payment a value pix_key pix_key_type description idempotency_key =
    get_operation_key a >>= λ operation_key.
    make_request
      (transfer_request value pix_key pix_key_type description idempotency_key operation_key)
    >>= λ body. dated body (transfer_result value body)

-- The statuses of a transfer.
pub data TransferStatus : Type 0 where
  pending processing confirmed failed : TransferStatus

abbrev pub transfer_status : Option Text → TransferStatus
transfer_status none = pending
transfer_status (some t) =
    if text_eq t (codes "BANK_PROCESSING")
    then processing
    else if text_eq t (codes "DONE")
    then confirmed
    else if text_eq t (codes "CANCELLED") || text_eq t (codes "FAILED")
    then failed
    else pending

pub record StatusReport : Type 0 where
  pub payment_id : Option Text
  pub status : TransferStatus
  pub end_to_end_id : Option Text
  pub failure_reason : Option Text
  pub receiver_name : Option Text

-- The reason is read only where the gateway says `FAILED`.
abbrev pub reason_of : Body → Option Text
reason_of body =
    if text_eq (text_or body.status []) (codes "FAILED") then body.fail_reason else none

-- `get_payment_status`
unfoldable pub get_payment_status : Text → Api StatusReport
unfolding make_request
get_payment_status payment_id = make_request (blank (get_transfer payment_id)) >>= λ body.
    return (record {
      payment_id = body.id;
      status = transfer_status body.status;
      end_to_end_id = body.end_to_end_id;
      failure_reason = reason_of body;
      receiver_name = truthy body.receiver_name;
    })

abbrev or_zero : Option Cents → Cents
or_zero none = 0
or_zero (some v) = v

pub record Bill : Type 0 where
  pub bill_id : Option Text
  pub status : Text
  pub value : Cents
  pub beneficiary : Text

-- `pay_boleto`
unfoldable pub pay_boleto : Text → Text → Option ℕ → Option Text → Api Bill
unfolding make_request
pay_boleto barcode description due_date idempotency_key =
    make_request (record (blank post_bill) {
      target = barcode;
      description =
          take 200 (non_empty description (codes "Pagamento de boleto via BioCodeTechPay"));
      due_date = due_date;
      idempotency_key = truthy idempotency_key;
    })
    >>= λ body. return (record {
      bill_id = body.id;
      status = text_or body.status (codes "PENDING");
      value = or_zero body.value;
      beneficiary = text_or body.name (codes "Beneficiario");
    })

pub record Simulation : Type 0 where
  pub barcode : Text
  pub beneficiary : Text
  pub value : Cents

-- `simulate_boleto_payment`, whose discount, fine and interest are left out; no exception leaves it.
unfoldable pub simulate_boleto_payment : Text → Api (Option Simulation)
unfolding make_request
simulate_boleto_payment barcode =
    attempt_else (make_request (record (blank post_bill_simulate) { target = barcode }))
      (λ body. return (
        some (record {
          barcode = barcode;
          beneficiary = text_or body.name (codes "Beneficiario");
          value = or_zero body.value;
        })))
      (λ e. return none)

-- What the directory says of a key.
pub data KeyLookup : Type 0 where
  not_in_dict invalid_format unavailable : KeyLookup
  found : Option Text → Text → KeyLookup

abbrev pub refused_lookup : GatewayError → KeyLookup
refused_lookup (http_status code codes) =
    if code == 404
    then not_in_dict
    else if code == 400 || code == 422
    then invalid_format
    else unavailable
refused_lookup _ = unavailable

-- `lookup_pix_key`, with the document before it is masked.
unfoldable pub lookup_pix_key : Text → Text → Api KeyLookup
unfolding make_request asaas_key_type
lookup_pix_key pix_key key_type =
    attempt_else
      (make_request
        (record (blank get_address_key) { target = pix_key; key_type = asaas_key_type key_type }))
      (λ body. return (
        if body.is_empty
        then unavailable
        else found body.name (text_or (truthy body.document) pix_key)))
      (λ e. return (refused_lookup e))

-- `list_pix_credits`, from the first date to the second; no exception leaves it.
unfoldable pub list_pix_credits : ℕ → ℕ → Api (List ListedCredit)
unfolding make_request
list_pix_credits start_date end_date =
    attempt_else (make_request (blank (get_pix_transactions start_date end_date)))
      (λ body. return body.data_field) (λ e. return [])
