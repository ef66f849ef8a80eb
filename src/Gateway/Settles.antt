-- ===== src/Gateway/Settles.antt =====
-- Operations of which a success has had one accepted payment, and a failure none. The gateway
-- answers every request, with a body whose date is readable or with an error status.
use biocodetechpay.Prelude.{
  ◌≡◌, refl, ◌∙◌, ℕ, zero, suc, ◌+◌, Bool, true, false, List, [], ◌∷◌, Text, arith, if◌then◌else◌,
}
use mathlib.Core.Path.{subst}
use biocodetechpay.Breaker.{CircuitBreaker, allow_request}
use biocodetechpay.Gateway.Wire.{
  Request, Endpoint, post_transfers, post_qr_pay, WireAnswer, reply, bad_json, timed_out,
  unreachable, broken, status, Body, DateField, unreadable, GatewayError, Reply, replied, raised,
  World, Wire, Api, resume, attempt_else, raise, Attempted, got, retryable, failed, attempted,
  noted, after_attempt, send_if, send_attempt, retry, make_request,
}

-- The requests that move money by PIX.
abbrev pub is_payment : Endpoint → Bool
is_payment post_transfers = true
is_payment post_qr_pay = true
is_payment _ = false

abbrev pub is_reply : WireAnswer → Bool
is_reply (reply body) = true
is_reply _ = false

-- The payments that the gateway has accepted.
abbrev pub accepted : List (Request × WireAnswer) → ℕ
accepted [] = 0
accepted ((req, a) ∷ sent) =
    (if is_payment req.endpoint then if is_reply a then 1 else 0 else 0) + accepted sent

abbrev pub is_dated : DateField → Bool
is_dated unreadable = false
is_dated _ = true

abbrev pub is_plain : WireAnswer → Bool
is_plain (reply body) = is_dated body.date
is_plain (status code codes) = true
is_plain _ = false

-- After `n` accepted payments: a success has added one, and its value has the property; a failure
-- has added none.
abbrev pub Settled {ℓ} : {A : Type ℓ} → (A → Type 0) → ℕ → Wire × Reply A → Type 0
Settled P n (s, replied x) = (accepted s.sent ≡ suc n) × P x
Settled P n (s, raised e) = accepted s.sent ≡ n

-- A success that has added nothing.
abbrev pub Quiet {ℓ} : {A : Type ℓ} → ℕ → Wire × Reply A → Type 0
Quiet n (s, replied x) = accepted s.sent ≡ n
Quiet n (s, raised e) = true ≡ false

abbrev pub Anything {ℓ} : {A : Type ℓ} → A → Type 0
Anything x = zero ≡ zero

abbrev pub IsDatedBody : Body → Type 0
IsDatedBody body = is_dated body.date ≡ true

abbrev pub Settles {ℓ} : {A : Type ℓ} → World → (A → Type 0) → Api A → Type 0
Settles w P m = (s : Wire) → Settled P (accepted s.sent) (m w s)

-- What leaves the network alone, and succeeds.
abbrev pub Silent {ℓ} : {A : Type ℓ} → World → Api A → Type 0
Silent w m = (s : Wire) → Quiet (accepted s.sent) (m w s)

module _ {A B : Type 0} (w : World) (next : A → Api B) (handle : GatewayError → Api B) where
  module _ (P : A → Type 0) (Q : B → Type 0) where
    Quiet-Settled :
        (n k : ℕ) (r : Wire × Reply B) → n ≡ suc k → ((y : B) → Q y) → Quiet n r → Settled Q k r
    Quiet-Settled n k (s, replied y) h holds e = (e ∙ h, holds y)
    Quiet-Settled n k (s, raised e) h holds x = cc

    resume-Settled :
        (n : ℕ) (r : Wire × Reply A)
        → ((y : B) → Q y)
        → ((x : A) → P x → Silent w (next x))
        → ((e : GatewayError) → Settles w Q (handle e))
        → Settled P n r
        → Settled Q n (resume r next handle w)
    resume-Settled n (s, replied x) holds silent settled (h, p) =
        Quiet-Settled (accepted s.sent) n (next x w s) h holds (silent x p s)
    resume-Settled n (s, raised e) holds silent settled h =
        subst (λ k. Settled Q k (handle e w s)) h (settled e s)

    -- A payment, what is made of its answer, and what is done where it is refused.
    pub attempt_else-Settles :
        (m : Api A)
        → ((y : B) → Q y)
        → Settles w P m
        → ((x : A) → P x → Silent w (next x))
        → ((e : GatewayError) → Settles w Q (handle e))
        → Settles w Q (attempt_else m next handle)
    attempt_else-Settles m holds paid silent settled s =
        resume-Settled (accepted s.sent) (m w s) holds silent settled (paid s)

-- A refusal accepts nothing.
pub raise-Settles {ℓ} :
    {A : Type ℓ} (w : World) (P : A → Type 0) (e : GatewayError) → Settles w P (raise e)
raise-Settles w P e s = refl

abbrev pub IsPlain : World → Request → Type 0
IsPlain w req = (n : ℕ) → is_plain (w.answer n req) ≡ true

abbrev AfterOne : ℕ → Wire × Attempted → Type 0
AfterOne n (s, got body) = (accepted s.sent ≡ suc n) × IsDatedBody body
AfterOne n (s, retryable) = accepted s.sent ≡ n
AfterOne n (s, failed e) = accepted s.sent ≡ n

module _ (req : Request) (pays : is_payment req.endpoint ≡ true) where
  accepted-reply :
      (body : Body) (sent : List (Request × WireAnswer))
      → accepted ((req, reply body) ∷ sent) ≡ suc (accepted sent)
  accepted-reply body sent = ground (arith, pays)

  accepted-status :
      (code : ℕ) (codes : List Text) (sent : List (Request × WireAnswer))
      → accepted ((req, status code codes) ∷ sent) ≡ accepted sent
  accepted-status code codes sent = ground (arith, pays)

  answered-AfterOne :
      (a : WireAnswer) (b : CircuitBreaker) (n : ℕ) (sent : List (Request × WireAnswer))
      → is_plain a ≡ true
      → AfterOne
          (accepted sent)
          (record { breaker = b; attempts = n; sent = (req, a) ∷ sent }, attempted a)
  answered-AfterOne (reply body) b n sent h = (accepted-reply body sent, h)
  answered-AfterOne (status code codes) b n sent h = accepted-status code codes sent
  answered-AfterOne bad_json b n sent h = cc
  answered-AfterOne timed_out b n sent h = cc
  answered-AfterOne unreachable b n sent h = cc
  answered-AfterOne broken b n sent h = cc

  module _ (w : World) (plain : IsPlain w req) where
    send_if-AfterOne :
        (allowed : Bool) (b : CircuitBreaker) (s : Wire)
        → AfterOne (accepted s.sent) (send_if allowed b req w s)
    send_if-AfterOne true b s =
        answered-AfterOne (w.answer s.attempts req)
          (noted (w.failed_at s.attempts) (w.answer s.attempts req) b) (s.attempts + 1) s.sent
          (plain s.attempts)
    send_if-AfterOne false b s = refl

    send_attempt-AfterOne : (s : Wire) → AfterOne (accepted s.sent) (send_attempt req w s)
    unfolding send_attempt
    send_attempt-AfterOne s =
        let asked = allow_request (w.asked_at s.attempts) s.breaker in
        send_if-AfterOne asked.1 asked.0 s

    after_attempt-Settled :
        (n : ℕ) (again : Wire → Wire × Reply Body) (r : Wire × Attempted)
        → AfterOne n r
        → ((s : Wire) → Settled IsDatedBody (accepted s.sent) (again s))
        → Settled IsDatedBody n (after_attempt again r)
    after_attempt-Settled n again (s, got body) h rest = h
    after_attempt-Settled n again (s, retryable) h rest =
        subst (λ k. Settled IsDatedBody k (again s)) h (rest s)
    after_attempt-Settled n again (s, failed e) h rest = h

    retry-Settles : (n : ℕ) → Settles w IsDatedBody (retry n req)
    unfolding retry
    retry-Settles zero s = refl
    retry-Settles (suc n) s =
        after_attempt-Settled (accepted s.sent) (retry n req w) (send_attempt req w s)
          (send_attempt-AfterOne s) (retry-Settles n)

    pub make_request-Settles : Settles w IsDatedBody (make_request req)
    unfolding make_request
    make_request-Settles = retry-Settles 3
