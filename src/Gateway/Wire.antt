-- ===== src/Gateway/Wire.antt =====
-- `_make_request` of app/adapters/asaas_adapter.py, with the circuit breaker and the retries of
-- `tenacity`. The network, the clock and the generator of one-time codes are a `World`, asked at
-- each attempt.
use biocodetechpay.Prelude.{
  ℕ, zero, suc, ◌+◌, Bool, true, false, List, [], ◌∷◌, Option, none, Text, leb, if◌then◌else◌,
}
use biocodetechpay.Money.{Cents}
use biocodetechpay.Charge.Deposit.{ListedCredit}
use biocodetechpay.Breaker.{CircuitBreaker, allow_request, record_success, record_failure}

-- Method and path of a request.
pub data Endpoint : Type 0 where
  post_payments post_transfers post_customers post_accounts post_qr_pay post_qr_decode
        get_address_key post_bill_simulate post_bill :
      Endpoint
  get_pix_qr_code get_payment delete_payment get_transfer : Text → Endpoint
  get_pix_transactions : ℕ → ℕ → Endpoint

-- The fields of a request's body, and its idempotency key.
pub record Request : Type 0 where
  pub endpoint : Endpoint
  pub value : Option Cents
  pub target : Text
  pub key_type : Text
  pub description : Text
  pub operation_key : Option Text
  pub split : Option (Text × Cents)
  pub due_date : Option ℕ
  pub idempotency_key : Option Text

abbrev pub blank : Endpoint → Request
blank endpoint = record {
  endpoint = endpoint;
  value = none;
  target = [];
  key_type = [];
  description = [];
  operation_key = none;
  split = none;
  due_date = none;
  idempotency_key = none;
}

-- A date that `datetime.fromisoformat` is given.
pub data DateField : Type 0 where
  absent readable unreadable : DateField

-- The fields of an answer's body; `pix_value` and `receiver_name` are those of `pixTransaction`,
-- `name` is also `companyName`, and `document` the first of the fields that may hold it; `data_field`
-- is `data`.
pub record Body : Type 0 where
  pub id : Option Text
  pub status : Option Text
  pub value : Option Cents
  pub pix_value : Option Cents
  pub end_to_end_id : Option Text
  pub receiver_name : Option Text
  pub name : Option Text
  pub document : Option Text
  pub date : DateField
  pub payload : Option Text
  pub wallet_id : Option Text
  pub fail_reason : Option Text
  pub data_field : List ListedCredit
  pub is_empty : Bool

-- What becomes of one request: a body, a body that is no JSON, an error status with the codes of its
-- body, a time-out, an error of the network, or any other exception.
pub data WireAnswer : Type 0 where
  reply : Body → WireAnswer
  bad_json timed_out unreachable broken : WireAnswer
  status : ℕ → List Text → WireAnswer

-- The exceptions: `HTTPStatusError`, the `RetryError` of `tenacity`, a `ValueError`, and the others.
pub data GatewayError : Type 0 where
  http_status : ℕ → List Text → GatewayError
  retry_error value_error other_error : GatewayError

pub data Reply {ℓ} (A : Type ℓ) : Type ℓ where
  replied : A → Reply A
  raised : GatewayError → Reply A

pub record World : Type 0 where
  pub answer : ℕ → Request → WireAnswer
  pub asked_at : ℕ → ℕ
  pub failed_at : ℕ → ℕ
  pub totp_code : ℕ → Text → Option Text

-- The breaker, the number of attempts, and what was sent, the latest first.
pub record Wire : Type 0 where
  pub breaker : CircuitBreaker
  pub attempts : ℕ
  pub sent : List (Request × WireAnswer)

abbrev pub Api {ℓ} : Type ℓ → Type ℓ
Api A = World → Wire → Wire × Reply A

abbrev pub return {ℓ} : {A : Type ℓ} → A → Api A
return x w s = (s, replied x)

abbrev pub raise {ℓ} : {A : Type ℓ} → GatewayError → Api A
raise e w s = (s, raised e)

-- `try` with what follows it, and its handler.
abbrev pub resume {ℓ κ} :
    {A : Type ℓ} {B : Type κ}
    → Wire × Reply A
    → (A → Api B)
    → (GatewayError → Api B)
    → World
    → Wire × Reply B
resume (s, replied x) next handle w = next x w s
resume (s, raised e) next handle w = handle e w s

abbrev pub attempt_else {ℓ κ} :
    {A : Type ℓ} {B : Type κ} → Api A → (A → Api B) → (GatewayError → Api B) → Api B
attempt_else m next handle w s = resume (m w s) next handle w

infixl 5 ◌>>=◌
abbrev pub ◌>>=◌ {ℓ κ} : {A : Type ℓ} {B : Type κ} → Api A → (A → Api B) → Api B
m >>= next = attempt_else m next raise

-- What one attempt comes to.
pub data Attempted : Type 0 where
  got : Body → Attempted
  retryable : Attempted
  failed : GatewayError → Attempted

-- The breaker after an answer. A body that is no JSON is counted as a success, and then as a failure.
abbrev pub noted : ℕ → WireAnswer → CircuitBreaker → CircuitBreaker
noted now (reply body) b = record_success b
noted now bad_json b = record_failure now (record_success b)
noted now (status code codes) b = if leb 500 code then record_failure now b else b
noted now timed_out b = record_failure now b
noted now unreachable b = record_failure now b
noted now broken b = record_failure now b

abbrev pub attempted : WireAnswer → Attempted
attempted (reply body) = got body
attempted bad_json = failed other_error
attempted (status code codes) = failed (http_status code codes)
attempted timed_out = retryable
attempted unreachable = retryable
attempted broken = failed other_error

-- The request is sent where the breaker allows it; an open breaker raises an error of the network.
abbrev pub send_if : Bool → CircuitBreaker → Request → World → Wire → Wire × Attempted
send_if true b req w s =
    let a = w.answer s.attempts req in
    (
      record {
        breaker = noted (w.failed_at s.attempts) a b;
        attempts = s.attempts + 1;
        sent = (req, a) ∷ s.sent;
      },
      attempted a,
    )
send_if false b req w s =
    (record { breaker = b; attempts = s.attempts + 1; sent = s.sent }, retryable)

-- One attempt.
unfoldable pub send_attempt : Request → World → Wire → Wire × Attempted
send_attempt req w s =
    let (b, allowed) = allow_request (w.asked_at s.attempts) s.breaker in send_if allowed b req w s

-- What follows an attempt.
abbrev pub after_attempt : (Wire → Wire × Reply Body) → Wire × Attempted → Wire × Reply Body
after_attempt again (s, got body) = (s, replied body)
after_attempt again (s, retryable) = again s
after_attempt again (s, failed e) = (s, raised e)

-- `stop_after_attempt`: time-outs and errors of the network are tried again.
unfoldable pub retry : ℕ → Request → Api Body
unfolding send_attempt
retry zero req w s = (s, raised retry_error)
retry (suc n) req w s = after_attempt (retry n req w) (send_attempt req w s)

-- `_make_request`
unfoldable pub make_request : Request → Api Body
unfolding retry
make_request req = retry 3 req
