-- ===== src/Gateway/Sends.antt =====
-- The requests that an operation sends: how many at most, and a test that all of them pass.
use biocodetechpay.Prelude.{◌≡◌, ℕ, zero, suc, ◌+◌, ◌≤◌, ◌<◌, Bool, true, false, List, ◌∷◌, arith}
use biocodetechpay.Breaker.{CircuitBreaker, allow_request}
use biocodetechpay.Gateway.Wire.{
  Request, WireAnswer, Body, GatewayError, Reply, replied, raised, World, Wire, Api, resume,
  attempt_else, return, raise, Attempted, got, retryable, failed, after_attempt, send_if,
  send_attempt, retry, make_request,
}

-- At most `n` requests that pass the test are put before the list.
pub data Extends (test : Request → Bool)
    : ℕ → List (Request × WireAnswer) → List (Request × WireAnswer) → Type 0 where
  same : (n : ℕ) (sent : List (Request × WireAnswer)) → Extends test n sent sent
  one_more :
      (k n : ℕ) (before sent : List (Request × WireAnswer)) (req : Request) (a : WireAnswer)
      → test req ≡ true
      → k < n
      → Extends test k before sent
      → Extends test n before ((req, a) ∷ sent)

abbrev pub Sends {ℓ} : {A : Type ℓ} → (Request → Bool) → ℕ → Api A → Type 0
Sends test n m = (w : World) (s : Wire) → Extends test n s.sent (m w s).0.sent

module _ {test : Request → Bool} where
  pub looser :
      (n k : ℕ) {xs ys : List (Request × WireAnswer)}
      → n ≤ k
      → Extends test n xs ys
      → Extends test k xs ys
  looser n k h (same _ xs) = same k xs
  looser n k h (one_more j _ xs ys req a passes l e) =
      one_more j k xs ys req a passes (omega arith) e

  -- The sending of two operations, one after the other.
  pub Extends-trans :
      (n k : ℕ) {xs ys zs : List (Request × WireAnswer)}
      → Extends test n xs ys
      → Extends test k ys zs
      → Extends test (k + n) xs zs
  Extends-trans n k e (same _ ys) = looser n (k + n) (omega arith) e
  Extends-trans n k {xs = xs} e (one_more j _ ys zs req a passes l f) =
      one_more (j + n) (k + n) xs zs req a passes (omega arith) (Extends-trans n j e f)

  resume-Extends {ℓ κ} :
      {A : Type ℓ} {B : Type κ} (n k : ℕ) {xs : List (Request × WireAnswer)} (r : Wire × Reply A)
      (next : A → Api B) (handle : GatewayError → Api B) (w : World)
      → Extends test n xs r.0.sent
      → ((x : A) → Sends test k (next x))
      → ((e : GatewayError) → Sends test k (handle e))
      → Extends test (k + n) xs (resume r next handle w).0.sent
  resume-Extends n k (s, replied x) next handle w e by_next by_handle =
      Extends-trans n k e (by_next x w s)
  resume-Extends n k (s, raised x) next handle w e by_next by_handle =
      Extends-trans n k e (by_handle x w s)

  -- `try`, with what follows it and its handler.
  pub attempt_else-Sends {ℓ κ} :
      {A : Type ℓ} {B : Type κ} (n k : ℕ) (m : Api A) (next : A → Api B)
      (handle : GatewayError → Api B)
      → Sends test n m
      → ((x : A) → Sends test k (next x))
      → ((e : GatewayError) → Sends test k (handle e))
      → Sends test (k + n) (attempt_else m next handle)
  attempt_else-Sends n k m next handle by_m by_next by_handle w s =
      resume-Extends n k (m w s) next handle w (by_m w s) by_next by_handle

  -- What sends nothing.
  pub return-Sends {ℓ} : {A : Type ℓ} (n : ℕ) (x : A) → Sends test n (return x)
  return-Sends n x w s = same n s.sent

  pub raise-Sends {ℓ} : (A : Type ℓ) (n : ℕ) (e : GatewayError) → Sends test n (raise {A = A} e)
  raise-Sends A n e w s = same n s.sent

  module _ (req : Request) (passes : test req ≡ true) where
    send_if-Extends :
        (allowed : Bool) (b : CircuitBreaker) (w : World) (s : Wire)
        → Extends test 1 s.sent (send_if allowed b req w s).0.sent
    send_if-Extends true b w s =
        one_more 0 1 s.sent s.sent req (w.answer s.attempts req) passes (omega arith)
          (same 0 s.sent)
    send_if-Extends false b w s = same 1 s.sent

    send_attempt-Extends :
        (w : World) (s : Wire) → Extends test 1 s.sent (send_attempt req w s).0.sent
    unfolding send_attempt
    send_attempt-Extends w s =
        let asked = allow_request (w.asked_at s.attempts) s.breaker in
        send_if-Extends asked.1 asked.0 w s

    after-Extends :
        (n : ℕ) {xs : List (Request × WireAnswer)} (again : Wire → Wire × Reply Body)
        (r : Wire × Attempted)
        → Extends test 1 xs r.0.sent
        → ((s : Wire) → Extends test n s.sent (again s).0.sent)
        → Extends test (n + 1) xs (after_attempt again r).0.sent
    after-Extends n again (s, got body) e rest = looser 1 (n + 1) (omega arith) e
    after-Extends n again (s, retryable) e rest = Extends-trans 1 n e (rest s)
    after-Extends n again (s, failed x) e rest = looser 1 (n + 1) (omega arith) e

    retry-Sends : (n : ℕ) → Sends test n (retry n req)
    unfolding retry
    retry-Sends zero w s = same 0 s.sent
    retry-Sends (suc n) w s = looser (n + 1) (suc n) (omega arith) (
        after-Extends n (retry n req w) (send_attempt req w s) (send_attempt-Extends w s)
          (retry-Sends n w))

    -- A request is sent three times at most.
    pub make_request-Sends : Sends test 3 (make_request req)
    unfolding make_request
    make_request-Sends = retry-Sends 3
