-- ===== src/Breaker.antt =====
-- `CircuitBreaker` of app/adapters/asaas_adapter.py, which guards the calls of the payment gateway.
-- The clock is monotonic, so a time is a number; reading `state` may move it from open to half open.
pub mod Safety
mod Tests
use biocodetechpay.Prelude.{ℕ, ◌+◌, ◌-◌, Bool, true, false, leb, if◌then◌else◌}

pub data State : Type 0 where
  closed open_state half_open : State

pub record CircuitBreaker : Type 0 where
  pub failure_threshold : ℕ
  pub recovery_timeout : ℕ
  pub failure_count : ℕ
  pub last_failure_time : ℕ
  pub current : State

-- `__init__`
abbrev pub new_breaker : ℕ → ℕ → CircuitBreaker
new_breaker failure_threshold recovery_timeout = record {
  failure_threshold = failure_threshold;
  recovery_timeout = recovery_timeout;
  failure_count = 0;
  last_failure_time = 0;
  current = closed;
}

-- `_asaas_circuit_breaker`
abbrev pub asaas_circuit_breaker : CircuitBreaker
asaas_circuit_breaker = new_breaker 5 30

-- The property `state`. `now` is not before the last failure.
abbrev pub probe : State → ℕ → CircuitBreaker → CircuitBreaker
probe open_state now b =
    if leb b.recovery_timeout (now - b.last_failure_time)
    then record b { current = half_open }
    else b
probe closed now b = b
probe half_open now b = b

unfoldable pub read_state : ℕ → CircuitBreaker → CircuitBreaker
read_state now b = probe b.current now b

abbrev pub allows : State → Bool
allows closed = true
allows half_open = true
allows open_state = false

unfoldable pub allow_request : ℕ → CircuitBreaker → CircuitBreaker × Bool
allow_request now b = (read_state now b, allows (read_state now b).current)

unfoldable pub record_success : CircuitBreaker → CircuitBreaker
record_success b = record b { failure_count = 0; current = closed }

unfoldable pub record_failure : ℕ → CircuitBreaker → CircuitBreaker
record_failure now b =
    let counted = record b { failure_count = b.failure_count + 1; last_failure_time = now } in
    if leb b.failure_threshold (b.failure_count + 1)
    then record counted { current = open_state }
    else counted
