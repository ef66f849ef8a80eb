-- ===== src/Consult/Tests.antt =====
-- Consultations in a small bank, and the theorems at inputs that meet their hypotheses.
use biocodetechpay.Prelude.{
  ◌≡◌, refl, ℕ, zero, suc, true, false, [], Option, none, some, Text, codes, arith, ◌⊎◌, ◌&&◌, not,
  inl, inr, sym, Bool-cases, strip, text_eq, text_eq→eq, if◌then◌else◌,
}
use mathlib.Core.Path.{subst}
use biocodetechpay.Money.{Cents}
use biocodetechpay.Money.Format.{format_amount, two_digits, print_nat}
use biocodetechpay.Http.{failure}
use biocodetechpay.Pix.Samples.{bank}
use biocodetechpay.Pix.Transfer.{find_recipient_user}
use biocodetechpay.Breaker.{asaas_circuit_breaker, allow_request, read_state}
use biocodetechpay.Emv.Tlv.{tlv}
use biocodetechpay.Emv.Build.{build_pix_static_emv, merchant_account, additional, crc16_ccitt}
use biocodetechpay.Emv.Keys.{is_payload_url}
use biocodetechpay.Qrcode.Lookup.{Code, find_internal_qrcode_charge, open_charge, paid_charge}
use biocodetechpay.Api.Keys.{normalize_pix_key}
use biocodetechpay.Gateway.Wire.{
  status, World, Wire, replied, raised, value_error, make_request, retry, send_attempt,
}
use biocodetechpay.Gateway.Settings.{Adapter, asaas_key_type}
use biocodetechpay.Gateway.Payments.{lookup_pix_key}
use biocodetechpay.Gateway.Psp.{psp_answer, missing, amount}
use biocodetechpay.Gateway.Codes.{PayCall, pay_at}
use biocodetechpay.Consult.Location.{
  Provider, FetchedCharge, PspAttempt, psp_said, psp_timeout, expired, fetch_pix_charge_url,
  read_location, do_fetch,
}
use biocodetechpay.Consult.Answers.{CodeFields, read_code, consultar_pix_qrcode}
use biocodetechpay.Consult.Keys.{lookup_pix_key_endpoint, key_type_of, recipient_of_key}
use biocodetechpay.Consult.Same.{psp_of, expired_refused}
use biocodetechpay.Consult.Issued.{told, issued_code_consulted}
use biocodetechpay.Consult.Founded.{last_is_refusal}
use biocodetechpay.Consult.Refused.{refuses, is_bad_key, key_refused}

-- A gateway that finds every key badly formed.
abbrev strict : World
strict = record {
  answer = λ n req. status 400 [];
  asked_at = λ n. n;
  failed_at = λ n. n;
  totp_code = λ n secret. none;
}

abbrev new_wire : Wire
new_wire = record { breaker = asaas_circuit_breaker; attempts = 0; sent = [] }

-- A provider that has removed the charge, after two time-outs.
abbrev removed : ℕ → PspAttempt
removed zero = psp_timeout
removed (suc zero) = psp_timeout
removed (suc (suc n)) = psp_said (psp_answer 410 [] [])

abbrev plain : FetchedCharge
plain = record {
  charge = record {
    status = none;
    pix_copia_e_cola = none;
    chave = none;
    original = missing;
    modalidade_alteracao = missing;
  };
  txid = none;
  value_field = amount 1000;
  amount_field = missing;
  nome = none;
  name = none;
  valor_is_null = false;
  solicitacao_is_null = false;
  solicitacao = none;
  description = none;
}

-- It reads one text only, without white space.
abbrev load_one : Text → Option FetchedCharge
load_one text = if text_eq text (codes "{}") then some plain else none

load_one-strip : (text : Text) → (load_one text ≡ none) ⊎ (load_one text ≡ load_one (strip text))
load_one-strip text = elim (Bool-cases (text_eq text (codes "{}"))) [
  | inl same ↦
      inr (
        subst (λ t. load_one t ≡ load_one (strip t)) (sym (text_eq→eq text (codes "{}") same)) refl)
  | inr other ↦ inl (rw other refl)
]

abbrev provider : Provider
provider = record { get = λ url. removed; load = load_one; decode = λ text. none }

location_expired : fetch_pix_charge_url provider (codes "https://psp.example/1") ≡ expired
unfolding fetch_pix_charge_url read_location do_fetch
location_expired = refl

abbrev terminal : Code
terminal = record { payload = codes "000201"; uuids = []; asaas_ids = [] }

abbrev terminal_fields : CodeFields
terminal_fields = record {
  url = some (codes "https://psp.example/1");
  txid = none;
  emv_value = 2500;
  merchant = codes "Loja";
}

abbrev adapter : Adapter
adapter = record { api_key = []; use_sandbox = false; operation_key = none; totp_secret = none }

abbrev call : PayCall
call = record { payload = codes "000201"; description = []; idempotency_key = none; value = none }

unknown_code : find_internal_qrcode_charge terminal bank ≡ (none, false)
unfolding find_internal_qrcode_charge open_charge paid_charge
unknown_code = refl

expired_refused_example :
    (consultar_pix_qrcode provider true terminal terminal_fields bank strict new_wire
      ≡ (new_wire, replied (failure 422)))
    × (pay_at
          (λ text. text)
          (psp_of provider)
          adapter
          call
          2500
          value_error
          (some (codes "https://psp.example/1"))
          strict
          new_wire
        ≡ (new_wire, raised value_error))
expired_refused_example =
    expired_refused provider load_one-strip true terminal terminal_fields
      (codes "https://psp.example/1") bank (λ text. text) adapter call 2500 value_error strict
      new_wire unknown_code refl location_expired

abbrev stranger : Text
stranger = codes "eva@example.com"

bad_key :
    is_bad_key true stranger (codes "EMAIL") bank strict new_wire (key_type_of (codes "EMAIL"))
    ≡ true
unfolding key_type_of recipient_of_key normalize_pix_key find_recipient_user lookup_pix_key
    make_request retry send_attempt allow_request read_state asaas_key_type
bad_key = refl

key_refused_example :
    let (s', answer) = lookup_pix_key_endpoint true stranger (codes "EMAIL") bank strict new_wire in
    (refuses answer
      ≡ is_bad_key true stranger (codes "EMAIL") bank strict new_wire (key_type_of (codes "EMAIL")))
    × ((refuses answer && not (last_is_refusal s'.sent)) ≡ false)
key_refused_example = key_refused true stranger (codes "EMAIL") bank strict new_wire

abbrev read_ten : Text → Option Cents
read_ten text = some 1000

abbrev issued : Code
issued = record { payload = build_pix_static_emv (codes "a1-b2") 1000; uuids = []; asaas_ids = [] }

issued_code_consulted_example :
    (f : CodeFields) × (read_code read_ten 12 issued.payload ≡ some f)
    × (consultar_pix_qrcode provider true issued f bank strict new_wire
        ≡ (new_wire, replied (told 1000 bank (find_internal_qrcode_charge issued bank))))
unfolding build_pix_static_emv merchant_account additional crc16_ccitt tlv format_amount
    is_payload_url two_digits print_nat
issued_code_consulted_example =
    issued_code_consulted (codes "a1-b2") 1000 12 read_ten provider true [] [] bank strict new_wire
      (omega arith) (omega arith) (omega arith) refl refl refl refl refl
