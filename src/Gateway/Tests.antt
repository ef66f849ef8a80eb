-- ===== src/Gateway/Tests.antt =====
-- Payments of codes with small gateways, and the theorems at inputs that meet their hypotheses.
use biocodetechpay.Prelude.{
  ◌≡◌, refl, sym, ap, ℕ, zero, suc, Bool, true, false, [], ◌∷◌, Option, none, some, Text, codes,
  take, length,
}
use biocodetechpay.Money.{Cents}
use biocodetechpay.Breaker.{
  asaas_circuit_breaker, allow_request, read_state, record_success, record_failure,
}
use biocodetechpay.Emv.Keys.{classify_key}
use biocodetechpay.Gateway.Wire.{
  Request, WireAnswer, reply, status, timed_out, Body, absent, World, Wire, Reply, send_attempt,
  retry, make_request, value_error, raised,
}
use biocodetechpay.Gateway.Settings.{Adapter, new_adapter, asaas_key_type}
use biocodetechpay.Gateway.Payments.{GatewayPayment, create_pix_payment, transfer_request}
use biocodetechpay.Gateway.Psp.{
  Psp, psp_answer, PspCharge, amount, missing, bad_amount, read_psp, find_charge,
}
use biocodetechpay.Gateway.Fields.{QrFields}
use biocodetechpay.Gateway.Codes.{
  PayCall, qr_request, pay_canonical, pay_resolved, pay_dynamic, first_request, pay_first,
  pay_qr_code,
}
use biocodetechpay.Gateway.Sends.{Extends}
use biocodetechpay.Gateway.Retries.{is_keyed, qr_requests_keyed}
use biocodetechpay.Gateway.Settles.{accepted, Settled, Anything, IsPlain}
use biocodetechpay.Gateway.Once.{is_readable, qr_paid_once}

abbrev taken : Body
taken = record {
  id = some (codes "pay_1");
  status = some (codes "DONE");
  value = none;
  pix_value = none;
  end_to_end_id = none;
  receiver_name = none;
  name = none;
  document = none;
  date = absent;
  payload = none;
  wallet_id = none;
  fail_reason = none;
  data_field = [];
  is_empty = false;
}

-- The first request is refused, all others are accepted.
abbrev second_time : ℕ → Request → WireAnswer
second_time zero req = status 400 (codes "parse_error" ∷ [])
second_time (suc n) req = reply taken

abbrev world_of : (ℕ → Request → WireAnswer) → World
world_of answer = record {
  answer = answer;
  asked_at = λ n. n;
  failed_at = λ n. n;
  totp_code = λ n secret. none;
}

abbrev new_wire : Wire
new_wire = record { breaker = asaas_circuit_breaker; attempts = 0; sent = [] }

abbrev adapter : Adapter
adapter = record {
  api_key = codes "$aact_prod_x";
  use_sandbox = false;
  operation_key = none;
  totp_secret = none;
}

-- A charge of R$25.00, with a code of its own.
abbrev terminal_charge : PspCharge
terminal_charge = record {
  status = some (codes "ATIVA");
  pix_copia_e_cola = some (codes "00020101021226580014BR.GOV");
  chave = some (codes "shop@example.com");
  original = amount 2500;
  modalidade_alteracao = missing;
}

abbrev provider : PspCharge → Psp
provider d = record {
  fetch = λ url. psp_answer 200 (codes "application/json") (codes "{}");
  load_json = λ text. some d;
  b64_decode = λ text. none;
}

abbrev call : PayCall
call = record {
  payload = codes "000201";
  description = [];
  idempotency_key = some (codes "k1");
  value = none;
}

abbrev dynamic : QrFields
dynamic = record { key = none; url = some (codes "https://psp.example/1"); emv_amount = 0 }

abbrev digest : Text → Text
digest = take 20

abbrev paid_with : PspCharge → (ℕ → Request → WireAnswer) → Wire × Reply GatewayPayment
paid_with d answer = pay_qr_code digest (provider d) adapter call dynamic (world_of answer) new_wire

-- The second request pays the code of the charge.
canonical_pays : accepted (paid_with terminal_charge second_time).0.sent ≡ 1
unfolding pay_qr_code pay_first first_request qr_request make_request retry send_attempt
    allow_request read_state record_success record_failure pay_dynamic pay_canonical find_charge
    read_psp
canonical_pays = refl

pays_by_key :
    accepted (paid_with (record terminal_charge { pix_copia_e_cola = none }) second_time).0.sent ≡ 1
unfolding pay_qr_code pay_first first_request qr_request make_request retry send_attempt
    allow_request read_state record_success record_failure pay_dynamic pay_resolved find_charge
    read_psp create_pix_payment transfer_request asaas_key_type classify_key
pays_by_key = refl

-- An amount that cannot be read is noticed after the gateway has accepted the code of the charge;
-- the transfer, for which the amount is read again, is then refused, so the payment is reported as
-- failed.
abbrev garbled : PspCharge
garbled = record terminal_charge { original = bad_amount }

garbled_paid :
    paid_with garbled second_time ≡ ((paid_with garbled second_time).0, raised value_error)
unfolding pay_qr_code pay_first first_request qr_request make_request retry send_attempt
    allow_request read_state record_success record_failure pay_dynamic pay_canonical pay_resolved
    find_charge read_psp
garbled_paid = refl

garbled_is_paid : accepted (paid_with garbled second_time).0.sent ≡ 1
unfolding pay_qr_code pay_first first_request qr_request make_request retry send_attempt
    allow_request read_state record_success record_failure pay_dynamic pay_canonical pay_resolved
    find_charge read_psp
garbled_is_paid = refl

-- After three time-outs of the second request, a transfer is sent as well.
abbrev times_out : ℕ → Request → WireAnswer
times_out zero req = status 400 (codes "parse_error" ∷ [])
times_out (suc zero) req = timed_out
times_out (suc (suc zero)) req = timed_out
times_out (suc (suc (suc zero))) req = timed_out
times_out (suc (suc (suc (suc n)))) req = reply taken

sent_again : length (paid_with terminal_charge times_out).0.sent ≡ 5
unfolding pay_qr_code pay_first first_request qr_request make_request retry send_attempt
    allow_request read_state record_success record_failure pay_dynamic pay_canonical pay_resolved
    find_charge read_psp create_pix_payment transfer_request asaas_key_type classify_key
sent_again = refl

-- A production key is refused where the sandbox is asked for.
guarded : new_adapter (codes "$aact_prod_x") true none none ≡ none
unfolding new_adapter
guarded = refl

second_time-IsPlain : (req : Request) → IsPlain (world_of second_time) req
second_time-IsPlain req zero = refl
second_time-IsPlain req (suc n) = refl

abbrev readable_in : Option PspCharge → Bool
readable_in none = true
readable_in (some d) = is_readable d.original

readable_charge :
    (url : Text) (d : PspCharge)
    → find_charge (provider terminal_charge) url ≡ some d
    → is_readable d.original ≡ true
unfolding find_charge read_psp
readable_charge url d h = ap readable_in (sym h)

qr_paid_once_example : Settled Anything 0 (paid_with terminal_charge second_time)
qr_paid_once_example =
    qr_paid_once (world_of second_time) second_time-IsPlain digest (provider terminal_charge)
      adapter call readable_charge dynamic new_wire

qr_requests_keyed_example :
    Extends (is_keyed (codes "k1")) 9 [] (paid_with terminal_charge times_out).0.sent
qr_requests_keyed_example =
    qr_requests_keyed digest (provider terminal_charge) adapter call b'k' (codes "1") refl dynamic
      (world_of times_out) new_wire

abbrev read_ten : Text → Option Cents
read_ten text = some 1000
