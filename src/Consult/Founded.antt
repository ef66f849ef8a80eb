-- ===== src/Consult/Founded.antt =====
-- A request that ends with the status of a bad request has that status as the gateway's latest
-- answer: no time-out and no open breaker is taken for one.
use biocodetechpay.Prelude.{
  ◌≡◌, refl, ℕ, zero, suc, ◌&&◌, ◌||◌, not, Bool, true, false, List, [], ◌∷◌, ◌==◌,
}
use biocodetechpay.Breaker.{CircuitBreaker, allow_request}
use biocodetechpay.Gateway.Wire.{
  World, Wire, WireAnswer, reply, bad_json, timed_out, unreachable, broken, status, Request, Body,
  http_status, Reply, raised, attempted, after_attempt, send_if, send_attempt, retry,
}

-- The gateway's error is a status of a bad request.
abbrev pub is_bad_status : ℕ → Bool
is_bad_status code = code == 400 || code == 422

abbrev pub bad_request : Reply Body → Bool
bad_request (raised (http_status code codes)) = is_bad_status code
bad_request _ = false

abbrev pub is_refusal : WireAnswer → Bool
is_refusal (status code codes) = is_bad_status code
is_refusal _ = false

-- The latest answer of the gateway is such a status.
abbrev pub last_is_refusal : List (Request × WireAnswer) → Bool
last_is_refusal [] = false
last_is_refusal ((req, a) ∷ sent) = is_refusal a

-- A claim that the key is bad is unfounded where the latest answer of the gateway does not say it.
abbrev pub unfounded : Bool → Wire → Bool
unfounded claims s = claims && not (last_is_refusal s.sent)

founded : (b : Bool) → (b && not b) ≡ false
founded true = refl
founded false = refl

answer-founded :
    (again : Wire → Wire × Reply Body) (b : CircuitBreaker) (n : ℕ)
    (sent : List (Request × WireAnswer)) (req : Request) (a : WireAnswer)
    → ((s : Wire) → unfounded (bad_request (again s).1) (again s).0 ≡ false)
    → let s : Wire = record { breaker = b; attempts = n; sent = (req, a) ∷ sent } in
      let r = after_attempt again (s, attempted a) in unfounded (bad_request r.1) r.0 ≡ false
answer-founded again b n sent req (reply body) h = refl
answer-founded again b n sent req bad_json h = refl
answer-founded again b n sent req timed_out h = h _
answer-founded again b n sent req unreachable h = h _
answer-founded again b n sent req broken h = refl
answer-founded again b n sent req (status code codes) h = founded (is_bad_status code)

attempt-founded :
    (again : Wire → Wire × Reply Body) (allowed : Bool) (b : CircuitBreaker) (req : Request)
    (w : World) (s : Wire)
    → ((s : Wire) → unfounded (bad_request (again s).1) (again s).0 ≡ false)
    → let r = after_attempt again (send_if allowed b req w s) in
      unfounded (bad_request r.1) r.0 ≡ false
attempt-founded again true b req w s h =
    answer-founded again _ _ s.sent req (w.answer s.attempts req) h
attempt-founded again false b req w s h = h _

pub retry-founded :
    (n : ℕ) (req : Request) (w : World) (s : Wire)
    → unfounded (bad_request (retry n req w s).1) (retry n req w s).0 ≡ false
unfolding retry send_attempt
retry-founded zero req w s = refl
retry-founded (suc n) req w s =
    attempt-founded (retry n req w) (allow_request (w.asked_at s.attempts) s.breaker).1 _ req w s
      (retry-founded n req w)
