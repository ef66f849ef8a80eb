-- ===== src/Gateway/Once.antt =====
-- The fallbacks of `pay_qr_code`, in a world that answers every request.
use biocodetechpay.Prelude.{
  ◌≡◌, refl, Bool, true, false, ◌&&◌, not, Option, none, some, Text, codes, strip, length, leb, ltb,
  ◌==◌, if◌then◌else◌,
}
use biocodetechpay.Money.{Cents}
use biocodetechpay.Gateway.Wire.{
  Request, Body, DateField, absent, readable, unreadable, GatewayError, http_status, retry_error,
  value_error, other_error, World, Wire, Api, return, raise, attempt_else, ◌>>=◌, make_request,
}
use biocodetechpay.Gateway.Settings.{Adapter, get_operation_key, one_time_code, static_or, truthy}
use biocodetechpay.Gateway.Payments.{
  GatewayPayment, dated, dated_by, transfer_request, transfer_result, create_pix_payment,
}
use biocodetechpay.Gateway.Psp.{
  Psp, PspCharge, AmountField, missing, bad_amount, amount, find_charge, text_of,
}
use biocodetechpay.Gateway.Fields.{QrFields}
use biocodetechpay.Gateway.Codes.{
  PayCall, qr_request, qr_result, key_or, with_amount, canonical_by, canonical_result,
  pay_canonical, pay_amount, pay_resolved, pay_dynamic, pay_charge, pay_at, pay_static, pay_by_key,
  fall_back, pay_qr_code, transfer_field, pay_first, first_request, first_result, is_no_text,
  has_parse_error,
}
use biocodetechpay.Gateway.Settles.{
  is_payment, is_dated, accepted, Settled, Settles, Silent, Anything, IsPlain, IsDatedBody,
  attempt_else-Settles, raise-Settles, make_request-Settles,
}

abbrev pub is_readable : AmountField → Bool
is_readable bad_amount = false
is_readable _ = true

module _ (w : World) where
  dated_by-Silent :
      (d : DateField) (x : GatewayPayment) → is_dated d ≡ true → Silent w (dated_by d x)
  dated_by-Silent absent x h s = refl
  dated_by-Silent readable x h s = refl
  dated_by-Silent unreadable x h s = cc

  if-Settles :
      (b : Bool) (m m' : Api GatewayPayment)
      → Settles w Anything m
      → Settles w Anything m'
      → Settles w Anything (if b then m else m')
  if-Settles true m m' e e' = e
  if-Settles false m m' e e' = e'

  refused : (e : GatewayError) → Settles w (Anything {A = GatewayPayment}) (raise e)
  refused e = raise-Settles {A = GatewayPayment} w Anything e

  with_amount-Settles :
      (f : AmountField) (default : Cents) (next : Cents → Api GatewayPayment)
      → ((v : Cents) → Settles w Anything (next v))
      → Settles w Anything (with_amount f default next)
  with_amount-Settles missing default next e = e default
  with_amount-Settles bad_amount default next e = refused value_error
  with_amount-Settles (amount v) default next e = e v

  amount-Silent :
      (f : AmountField) (v : Cents) (body : Body)
      → is_readable f ≡ true
      → IsDatedBody body
      → Silent w (with_amount f v (λ u. dated body (qr_result (some u) body)))
  amount-Silent missing v body h e s = dated_by-Silent body.date (qr_result (some v) body) e s
  amount-Silent bad_amount v body h e s = cc
  amount-Silent (amount u) v body h e s = dated_by-Silent body.date (qr_result (some u) body) e s

  canonical_by-Silent :
      (o : Option Cents) (d : PspCharge) (v : Cents) (body : Body)
      → is_readable d.original ≡ true
      → IsDatedBody body
      → Silent w (canonical_by o d v body)
  canonical_by-Silent (some u) d v body h e = dated_by-Silent body.date (qr_result (some u) body) e
  canonical_by-Silent none d v body h e = amount-Silent d.original v body h e

  module _ (plain : (req : Request) → IsPlain w req) where
    asked-Settles :
        (a : Adapter) (request : Option Text → Request) (next : Body → Api GatewayPayment)
        → ((o : Option Text) → is_payment (request o).endpoint ≡ true)
        → ((body : Body) → IsDatedBody body → Silent w (next body))
        → Settles w Anything (get_operation_key a >>= λ o. make_request (request o) >>= next)
    asked-Settles a request next pays silent s =
        let o = static_or (one_time_code a w s) (truthy a.operation_key) in
        attempt_else-Settles w next raise IsDatedBody Anything (make_request (request o))
          (λ y. refl) (make_request-Settles (request o) (pays o) w (plain (request o))) silent
          (refused) s

    create_pix_payment-Settles :
        (a : Adapter) (value : Cents) (pix_key key_type description : Text) (i : Option Text)
        → Settles w Anything (create_pix_payment a value pix_key key_type description i)
    unfolding create_pix_payment transfer_request
    create_pix_payment-Settles a value pix_key key_type description i =
        asked-Settles a (transfer_request value pix_key key_type description i)
          (λ body. dated body (transfer_result value body)) (λ o. refl)
          (λ body e. dated_by-Silent body.date (transfer_result value body) e)

    module _ (digest : Text → Text) (p : Psp) (a : Adapter) (c : PayCall) where
      pay_canonical-Settles :
          (d : PspCharge) (v : Cents) (code : Text)
          → is_readable d.original ≡ true
          → Settles w Anything (pay_canonical digest a c d v code)
      unfolding pay_canonical qr_request
      pay_canonical-Settles d v code h =
          let i = key_or digest (codes "qrcanon-") code c.idempotency_key in
          asked-Settles a (λ o. qr_request code c.description none o i) (canonical_result d v)
            (λ o. refl) (λ body e. canonical_by-Silent _ d v body h e)

      pay_amount-Settles :
          (key : Text) (v : Cents) → Settles w Anything (pay_amount digest a c key v)
      pay_amount-Settles key v =
          if-Settles (v == 0) _ _ (refused value_error) (create_pix_payment-Settles a v key _ _ _)

      pay_resolved-Settles :
          (d : PspCharge) (v : Cents) → Settles w Anything (pay_resolved digest a c d v)
      unfolding pay_resolved
      pay_resolved-Settles d v =
          let key = strip (text_of d.chave) in
          if-Settles (is_no_text key) (raise value_error)
            (with_amount (transfer_field d) v (pay_amount digest a c key)) (refused value_error)
            (with_amount-Settles (transfer_field d) v (pay_amount digest a c key)
              (pay_amount-Settles key))

      pay_dynamic-Settles :
          (d : PspCharge) (v : Cents)
          → is_readable d.original ≡ true
          → Settles w Anything (pay_dynamic digest a c d v)
      unfolding pay_dynamic
      pay_dynamic-Settles d v h =
          let emv = strip (text_of d.pix_copia_e_cola) in
          if-Settles (leb 20 (length emv))
            (attempt_else (pay_canonical digest a c d v emv) return
              (λ e. pay_resolved digest a c d v))
            (pay_resolved digest a c d v)
            (attempt_else-Settles w return (λ e. pay_resolved digest a c d v) Anything Anything
              (pay_canonical digest a c d v emv) (λ y. refl) (pay_canonical-Settles d v emv h)
              (λ x e s. refl) (λ e. pay_resolved-Settles d v))
            (pay_resolved-Settles d v)

      module _
          (amounts : (url : Text) (d : PspCharge)
            → find_charge p url ≡ some d
            → is_readable d.original ≡ true) where
        pay_charge-Settles :
            (v : Cents) (url : Text) (o : Option PspCharge)
            → find_charge p url ≡ o
            → Settles w Anything (pay_charge digest a c v o)
        pay_charge-Settles v url none h = refused value_error
        pay_charge-Settles v url (some d) h = pay_dynamic-Settles d v (amounts url d h)

        pay_at-Settles :
            (v : Cents) (e : GatewayError) (url : Option Text)
            → Settles w Anything (pay_at digest p a c v e url)
        pay_at-Settles v e none = refused e
        pay_at-Settles v e (some url) = pay_charge-Settles v url (find_charge p url) refl

        pay_by_key-Settles :
            (q : QrFields) (e : GatewayError) (key : Option (Text × Text))
            → Settles w Anything (pay_by_key digest p a c q e key)
        pay_by_key-Settles q e none = pay_at-Settles q.emv_amount e q.url
        pay_by_key-Settles q e (some key) =
            if-Settles (not (is_no_text key.0) && ltb 0 q.emv_amount)
              (pay_static digest a c q.emv_amount key) (pay_at digest p a c q.emv_amount e q.url)
              (create_pix_payment-Settles a q.emv_amount key.0 key.1 _ _)
              (pay_at-Settles q.emv_amount e q.url)

        fall_back-Settles :
            (q : QrFields) (e : GatewayError) → Settles w Anything (fall_back digest p a c q e)
        fall_back-Settles q (http_status code codes) =
            if-Settles (code == 400 && has_parse_error codes)
              (pay_by_key digest p a c q (http_status code codes) q.key)
              (raise (http_status code codes)) (pay_by_key-Settles q (http_status code codes) q.key)
              (refused (http_status code codes))
        fall_back-Settles q retry_error = refused retry_error
        fall_back-Settles q value_error = refused value_error
        fall_back-Settles q other_error = refused other_error

        pay_first-Settles :
            (q : QrFields) (o : Option Text) → Settles w Anything (pay_first digest p a c q o)
        unfolding pay_first first_request qr_request
        pay_first-Settles q o =
            attempt_else-Settles w first_result (fall_back digest p a c q) IsDatedBody Anything
              (make_request (first_request c q o)) (λ y. refl)
              (make_request-Settles (first_request c q o) refl w (plain (first_request c q o)))
              (λ body e. dated_by-Silent body.date _ e) (fall_back-Settles q)

-- Where the gateway answers every request, with a body whose date is readable or with an error
-- status, and the location gives no amount that cannot be read: the payment of a code succeeds with
-- exactly one accepted payment more, and fails with none, whichever of the three ways it takes.
pub qr_paid_once :
    (w : World)
    → ((req : Request) → IsPlain w req)
    → (digest : Text → Text) (p : Psp) (a : Adapter) (c : PayCall)
    → ((url : Text) (d : PspCharge) → find_charge p url ≡ some d → is_readable d.original ≡ true)
    → (q : QrFields) (s : Wire)
    → Settled Anything (accepted s.sent) (pay_qr_code digest p a c q w s)
unfolding pay_qr_code
qr_paid_once w plain digest p a c amounts q s =
    pay_first-Settles w plain digest p a c amounts q
      (static_or (one_time_code a w s) (truthy a.operation_key)) s
