-- ===== src/Breaker/Tests.antt =====
-- Runs of the breaker, and the theorems at the gateway's own breaker.
use biocodetechpay.Prelude.{◌≡◌, refl, [], ◌∷◌}
use biocodetechpay.Breaker.{
  CircuitBreaker, open_state, half_open, asaas_circuit_breaker, allow_request, read_state,
  record_failure,
}
use biocodetechpay.Breaker.Safety.{request, failure, run, step}

abbrev opened : CircuitBreaker
opened = record asaas_circuit_breaker {
  failure_count = 5;
  last_failure_time = 50;
  current = open_state;
}

five_failures :
    run asaas_circuit_breaker (failure 10 ∷ failure 20 ∷ failure 30 ∷ failure 40 ∷ failure 50 ∷ [])
    ≡ opened
unfolding run step record_failure
five_failures = refl

probing : (run opened (request 79 ∷ [])).current ≡ open_state
unfolding run step allow_request read_state
probing = refl

probing_later : (run opened (request 80 ∷ [])).current ≡ half_open
unfolding run step allow_request read_state
probing_later = refl
