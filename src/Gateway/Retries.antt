-- ===== src/Gateway/Retries.antt =====
-- The requests of `pay_qr_code`, and the idempotency key that they carry.
use biocodetechpay.Prelude.{
  ◌≡◌, ◌∙◌, ap, arith, ℕ, Bool, true, false, ◌∷◌, Option, none, some, Text, codes, strip, text_eq,
  text_eq_refl, ◌==◌, if◌then◌else◌,
}
use biocodetechpay.Money.{Cents}
use biocodetechpay.Gateway.Wire.{
  Request, Body, DateField, absent, readable, unreadable, GatewayError, http_status, retry_error,
  value_error, other_error, World, Wire, Api, return, raise, ◌>>=◌, make_request,
}
use biocodetechpay.Gateway.Settings.{Adapter, truthy, get_operation_key}
use biocodetechpay.Gateway.Payments.{
  GatewayPayment, dated, dated_by, transfer_request, transfer_result, create_pix_payment,
}
use biocodetechpay.Gateway.Psp.{
  Psp, PspCharge, AmountField, missing, bad_amount, amount, find_charge, text_of,
}
use biocodetechpay.Gateway.Fields.{QrFields}
use biocodetechpay.Gateway.Codes.{
  PayCall, qr_request, qr_result, key_or, with_amount, canonical_by, canonical_result,
  pay_canonical, pay_amount, pay_resolved, pay_dynamic, pay_charge, pay_at, pay_static, pay_by_key,
  fall_back, pay_qr_code, transfer_field, pay_first, first_request, first_result,
}
use biocodetechpay.Gateway.Sends.{
  Extends, Sends, looser, same, attempt_else-Sends, return-Sends, raise-Sends, make_request-Sends,
}

abbrev is_key : Text → Option Text → Bool
is_key k none = false
is_key k (some t) = text_eq k t

-- A request under a key.
abbrev pub is_keyed : Text → Request → Bool
is_keyed k req = is_key k req.idempotency_key

is_key_lem : (k : Text) (o : Option Text) → o ≡ some k → is_key k o ≡ true
is_key_lem k o h = ap (is_key k) h ∙ text_eq_refl k

if-Sends {ℓ} :
    {A : Type ℓ} {test : Request → Bool} (n : ℕ) (b : Bool) (m m' : Api A)
    → Sends test n m
    → Sends test n m'
    → Sends test n (if b then m else m')
if-Sends n true m m' e e' = e
if-Sends n false m m' e e' = e'

dated_by-Sends {ℓ} :
    {A : Type ℓ} {test : Request → Bool} (n : ℕ) (d : DateField) (x : A)
    → Sends test n (dated_by d x)
dated_by-Sends n absent x = return-Sends n x
dated_by-Sends n readable x = return-Sends n x
dated_by-Sends {A = A} n unreadable x = raise-Sends A n value_error

with_amount-Sends {ℓ} :
    {A : Type ℓ} {test : Request → Bool} (n : ℕ) (f : AmountField) (default : Cents)
    (next : Cents → Api A)
    → ((v : Cents) → Sends test n (next v))
    → Sends test n (with_amount f default next)
with_amount-Sends n missing default next e = e default
with_amount-Sends {A = A} n bad_amount default next e = raise-Sends A n value_error
with_amount-Sends n (amount v) default next e = e v

-- An operation that asks for the operation key, sends one request and reads its answer.
asked-Sends {ℓ} :
    {A : Type ℓ} {test : Request → Bool} (a : Adapter) (request : Option Text → Request)
    (next : Body → Api A)
    → ((o : Option Text) → test (request o) ≡ true)
    → ((body : Body) → Sends test 0 (next body))
    → Sends test 3 (get_operation_key a >>= λ o. make_request (request o) >>= next)
asked-Sends {A = A} a request next passes quiet =
    attempt_else-Sends 0 3 (get_operation_key a) (λ o. make_request (request o) >>= next) raise
      (λ w s. same 0 s.sent)
      (λ o.
        attempt_else-Sends 3 0 (make_request (request o)) next raise
          (make_request-Sends (request o) (passes o)) quiet (raise-Sends A 0))
      (raise-Sends A 3)

module _ (k : Text) where
  create_pix_payment-Sends :
      (a : Adapter) (value : Cents) (pix_key key_type description : Text) (i : Option Text)
      → truthy i ≡ some k
      → Sends (is_keyed k) 3 (create_pix_payment a value pix_key key_type description i)
  unfolding create_pix_payment transfer_request
  create_pix_payment-Sends a value pix_key key_type description i h =
      asked-Sends a (transfer_request value pix_key key_type description i)
        (λ body. dated body (transfer_result value body)) (λ o. is_key_lem k (truthy i) h)
        (λ body. dated_by-Sends 0 body.date (transfer_result value body))

module _ (digest : Text → Text) (p : Psp) (a : Adapter) (c : PayCall) (b : ℕ) (rest : Text) where
  abbrev k : Text
  k = b ∷ rest

  module _ (given : c.idempotency_key ≡ some k) where
    key_or-key :
        (prefix text : Text) → truthy (key_or digest prefix text c.idempotency_key) ≡ some k
    key_or-key prefix text = ap (λ g. truthy (key_or digest prefix text g)) given

    canonical_by-Sends :
        (o : Option Cents) (d : PspCharge) (v : Cents) (body : Body)
        → Sends (is_keyed k) 0 (canonical_by o d v body)
    canonical_by-Sends (some u) d v body = dated_by-Sends 0 body.date (qr_result (some u) body)
    canonical_by-Sends none d v body =
        with_amount-Sends 0 d.original v (λ u. dated body (qr_result (some u) body))
          (λ u. dated_by-Sends 0 body.date (qr_result (some u) body))

    pay_canonical-Sends :
        (d : PspCharge) (v : Cents) (code : Text)
        → Sends (is_keyed k) 3 (pay_canonical digest a c d v code)
    unfolding pay_canonical qr_request
    pay_canonical-Sends d v code =
        let i = key_or digest (codes "qrcanon-") code c.idempotency_key in
        asked-Sends a (λ o. qr_request code c.description none o i) (canonical_result d v)
          (λ o. is_key_lem k (truthy i) (key_or-key (codes "qrcanon-") code))
          (λ body. canonical_by-Sends _ d v body)

    pay_amount-Sends : (key : Text) (v : Cents) → Sends (is_keyed k) 3 (pay_amount digest a c key v)
    pay_amount-Sends key v =
        if-Sends 3 (v == 0) _ _ (raise-Sends GatewayPayment 3 value_error)
          (create_pix_payment-Sends k a v key _ _ _ (key_or-key (codes "qrfallback-") c.payload))

    pay_resolved-Sends :
        (d : PspCharge) (v : Cents) → Sends (is_keyed k) 3 (pay_resolved digest a c d v)
    unfolding pay_resolved
    pay_resolved-Sends d v = if-Sends 3 _ _ _ (raise-Sends GatewayPayment 3 value_error) (
        with_amount-Sends 3 (transfer_field d) v (pay_amount digest a c (strip (text_of d.chave)))
          (pay_amount-Sends (strip (text_of d.chave))))

    pay_dynamic-Sends :
        (d : PspCharge) (v : Cents) → Sends (is_keyed k) 6 (pay_dynamic digest a c d v)
    unfolding pay_dynamic
    pay_dynamic-Sends d v =
        if-Sends 6 _ _ _
          (attempt_else-Sends 3 3 _ return _
            (pay_canonical-Sends d v (strip (text_of d.pix_copia_e_cola))) (return-Sends 3)
            (λ e. pay_resolved-Sends d v))
          (λ w s. looser 3 6 (omega arith) (pay_resolved-Sends d v w s))

    pay_charge-Sends :
        (v : Cents) (o : Option PspCharge) → Sends (is_keyed k) 6 (pay_charge digest a c v o)
    pay_charge-Sends v none = raise-Sends GatewayPayment 6 value_error
    pay_charge-Sends v (some d) = pay_dynamic-Sends d v

    pay_at-Sends :
        (v : Cents) (e : GatewayError) (url : Option Text)
        → Sends (is_keyed k) 6 (pay_at digest p a c v e url)
    pay_at-Sends v e none = raise-Sends GatewayPayment 6 e
    pay_at-Sends v e (some url) = pay_charge-Sends v (find_charge p url)

    pay_static-Sends :
        (v : Cents) (key : Text × Text) → Sends (is_keyed k) 6 (pay_static digest a c v key)
    pay_static-Sends v key w s = looser 3 6 (omega arith) (
        create_pix_payment-Sends k a v key.0 key.1 _ _ (key_or-key (codes "qrstatic-") c.payload) w
          s)

    pay_by_key-Sends :
        (q : QrFields) (e : GatewayError) (key : Option (Text × Text))
        → Sends (is_keyed k) 6 (pay_by_key digest p a c q e key)
    pay_by_key-Sends q e none = pay_at-Sends q.emv_amount e q.url
    pay_by_key-Sends q e (some key) =
        if-Sends 6 _ _ _ (pay_static-Sends q.emv_amount key) (pay_at-Sends q.emv_amount e q.url)

    fall_back-Sends :
        (q : QrFields) (e : GatewayError) → Sends (is_keyed k) 6 (fall_back digest p a c q e)
    fall_back-Sends q (http_status code codes) =
        if-Sends 6 _ _ _ (pay_by_key-Sends q (http_status code codes) q.key)
          (raise-Sends GatewayPayment 6 (http_status code codes))
    fall_back-Sends q retry_error = raise-Sends GatewayPayment 6 retry_error
    fall_back-Sends q value_error = raise-Sends GatewayPayment 6 value_error
    fall_back-Sends q other_error = raise-Sends GatewayPayment 6 other_error

    pay_first-Sends :
        (q : QrFields) (o : Option Text) → Sends (is_keyed k) 9 (pay_first digest p a c q o)
    unfolding pay_first first_request qr_request
    pay_first-Sends q o =
        attempt_else-Sends 3 6 (make_request (first_request c q o)) first_result
          (fall_back digest p a c q)
          (make_request-Sends (first_request c q o) (is_key_lem k _ (ap truthy given)))
          (λ body. dated_by-Sends 6 body.date _) (fall_back-Sends q)

    -- Whatever the gateway, the payment provider and the clock do, the payment of a code under a key
    -- that is not empty sends at most nine requests, and each of them carries that key.
    pub qr_requests_keyed :
        (q : QrFields) (w : World) (s : Wire)
        → Extends (is_keyed k) 9 s.sent (pay_qr_code digest p a c q w s).0.sent
    unfolding pay_qr_code
    qr_requests_keyed q =
        attempt_else-Sends 0 9 (get_operation_key a) (pay_first digest p a c q) raise
          (λ w s. same 0 s.sent) (pay_first-Sends q) (raise-Sends GatewayPayment 9)
