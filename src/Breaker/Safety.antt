-- ===== src/Breaker/Safety.antt =====
-- The breaker over any sequence of uses: it is open or probing exactly after enough failures in a
-- row.
use biocodetechpay.Prelude.{
  ℕ, ◌+◌, ◌-◌, ◌≡◌, ◌≤◌, ◌<◌, ◌↔◌, refl, ap, ◌∙◌, true, List, [], ◌∷◌, arith,
}
use biocodetechpay.Breaker.{
  CircuitBreaker, State, closed, half_open, open_state, new_breaker, read_state, allow_request,
  record_success, record_failure, probe,
}

-- What the adapter does with the breaker.
pub data Use : Type 0 where
  request : ℕ → Use
  success : Use
  failure : ℕ → Use

unfoldable pub step : CircuitBreaker → Use → CircuitBreaker
step b (request now) = (allow_request now b).0
step b success = record_success b
step b (failure now) = record_failure now b

unfoldable pub run : CircuitBreaker → List Use → CircuitBreaker
run b [] = b
run b (u ∷ uses) = run (step b u) uses

-- The failures since the last success.
abbrev pub failures_in_a_row : ℕ → List Use → ℕ
failures_in_a_row n [] = n
failures_in_a_row n (request now ∷ uses) = failures_in_a_row n uses
failures_in_a_row n (success ∷ uses) = failures_in_a_row 0 uses
failures_in_a_row n (failure now ∷ uses) = failures_in_a_row (n + 1) uses

-- The breaker is closed exactly while its count is below the threshold.
abbrev pub Consistent : CircuitBreaker → Type 0
Consistent b = (b.current ≡ closed) ↔ (b.failure_count < b.failure_threshold)

probe-Consistent :
    (s : State) (now : ℕ) (b : CircuitBreaker)
    → b.current ≡ s
    → Consistent b
    → Consistent (probe s now b)
probe-Consistent closed now b e h = h
probe-Consistent half_open now b e h = h
probe-Consistent open_state now b e h = ground arith

probe-failure_count :
    (s : State) (now : ℕ) (b : CircuitBreaker)
    → ((probe s now b).failure_count ≡ b.failure_count)
      × ((probe s now b).failure_threshold ≡ b.failure_threshold)
probe-failure_count closed now b = (refl, refl)
probe-failure_count half_open now b = (refl, refl)
probe-failure_count open_state now b = ground arith

step-Consistent :
    (b : CircuitBreaker) (u : Use)
    → 0 < b.failure_threshold
    → Consistent b
    → ((step b u).failure_threshold ≡ b.failure_threshold) × Consistent (step b u)
unfolding step allow_request read_state record_success record_failure
step-Consistent b (request now) p h =
    ((probe-failure_count b.current now b).1, probe-Consistent b.current now b refl h)
step-Consistent b success p h = ground arith
step-Consistent b (failure now) p h = ground arith

run-Consistent :
    (b : CircuitBreaker) (uses : List Use)
    → 0 < b.failure_threshold
    → Consistent b
    → ((run b uses).failure_threshold ≡ b.failure_threshold) × Consistent (run b uses)
unfolding run
run-Consistent b [] p h = (refl, h)
run-Consistent b (u ∷ uses) p h =
    let (same, kept) = step-Consistent b u p h in
    let (same', kept') = run-Consistent (step b u) uses (ground (arith, same)) kept in
    (same' ∙ same, kept')

record_failure_lem :
    (now : ℕ) (b : CircuitBreaker) → (record_failure now b).failure_count ≡ b.failure_count + 1
unfolding record_failure
record_failure_lem now b = ground arith

run-failure_count :
    (b : CircuitBreaker) (uses : List Use)
    → (run b uses).failure_count ≡ failures_in_a_row b.failure_count uses
unfolding run step allow_request read_state record_success record_failure
run-failure_count b [] = refl
run-failure_count b (request now ∷ uses) =
    run-failure_count (step b (request now)) uses
    ∙ ap (λ n. failures_in_a_row n uses) (probe-failure_count b.current now b).0
run-failure_count b (success ∷ uses) = run-failure_count (step b success) uses
run-failure_count b (failure now ∷ uses) =
    run-failure_count (record_failure now b) uses
    ∙ ap (λ n. failures_in_a_row n uses) (record_failure_lem now b)

-- However a new breaker with a positive threshold is used, it is closed exactly while the failures
-- since the last success are fewer than the threshold.
pub closed_while_few_failures :
    (threshold timeout : ℕ) (uses : List Use)
    → 0 < threshold
    → ((run (new_breaker threshold timeout) uses).current ≡ closed)
      ↔ (failures_in_a_row 0 uses < threshold)
closed_while_few_failures threshold timeout uses p =
    let b = new_breaker threshold timeout in
    let (same, kept) = run-Consistent b uses p (ground arith) in
    let count = run-failure_count b uses in ground (arith, same, kept, count)

-- An open breaker, whose count is at its threshold or above as it is in every run, lets a request
-- through exactly when the recovery time has passed since the last
-- failure, and a failure of that request opens it again at once.
pub probe_after_timeout :
    (b : CircuitBreaker) (now later : ℕ)
    → Consistent b
    → b.current ≡ open_state
    → let (b', allowed) = allow_request now b in
      ((allowed ≡ true) ↔ (b.recovery_timeout ≤ now - b.last_failure_time))
      × ((record_failure later b').current ≡ open_state)
unfolding allow_request read_state record_failure
probe_after_timeout b now later h e = rw e (ground arith)
