-- ===== src/Consult/Refused.antt =====
-- When a key is refused.
use biocodetechpay.Prelude.{
  ◌≡◌, refl, ◌∙◌, arith, inl, inr, ℕ, ◌&&◌, not, Bool, true, false, Bool-cases, List, Option, none,
  some, Text, strip, ◌==◌, if◌then◌else◌,
}
use biocodetechpay.Store.{Db, User, PixKeyType}
use biocodetechpay.Http.{Response, success}
use biocodetechpay.Api.Keys.{normalize_pix_key, mask_cpf_cnpj}
use biocodetechpay.Gateway.Wire.{
  World, Wire, Request, Body, http_status, retry_error, value_error, other_error, blank,
  get_address_key, Reply, replied, raised, return, resume, make_request,
}
use biocodetechpay.Gateway.Settings.{truthy, asaas_key_type}
use biocodetechpay.Gateway.Payments.{
  KeyLookup, found, not_in_dict, invalid_format, unavailable, lookup_pix_key, refused_lookup,
  text_or,
}
use biocodetechpay.Consult.Founded.{
  is_bad_status, bad_request, last_is_refusal, unfounded, retry-founded,
}
use biocodetechpay.Consult.Keys.{
  KeyAnswer, unverified_key, invalid_key, key_type_of, recipient_of_key, internal_found, named,
  of_lookup, ask_gateway, key_answer, typed_lookup, lookup_pix_key_endpoint,
}

abbrev pub is_refused : KeyAnswer → Bool
is_refused invalid_key = true
is_refused _ = false

-- The answer is that the key is refused.
abbrev pub refuses : Reply (Response KeyAnswer) → Bool
refuses (replied (success a)) = is_refused a
refuses _ = false

abbrev pub says_invalid : Reply KeyLookup → Bool
says_invalid (replied invalid_format) = true
says_invalid _ = false

abbrev pub is_absent : Option User → Bool
is_absent none = true
is_absent (some u) = false

named-refused : (name : Option Text) (document : Text) → is_refused (named name document) ≡ false
named-refused none document = refl
named-refused (some name) document = refl

resume-refuses :
    (r : Wire × Reply KeyLookup) (w : World)
    → refuses
        (resume r
          (λ info. return (success (of_lookup info)))
          (λ e. return (success unverified_key))
          w).1
      ≡ says_invalid r.1
resume-refuses (s, replied unavailable) w = refl
resume-refuses (s, replied not_in_dict) w = refl
resume-refuses (s, replied invalid_format) w = refl
resume-refuses (s, replied (found name document)) w = named-refused (truthy name) document
resume-refuses (s, raised e) w = refl

internal-refused :
    (u : User) (document : Option Text) → refuses (replied (internal_found u document)) ≡ false
internal-refused u none = refl
internal-refused u (some document) = refl

-- The lookup of a key.
abbrev pub key_request : Text → Text → Request
key_request key tipo = record (blank get_address_key) {
  target = key;
  key_type = asaas_key_type tipo;
}

abbrev pub looked_up : Text → Wire × Reply Body → World → Wire × Reply KeyLookup
looked_up key r w =
    resume r
      (λ body. return (
        if body.is_empty
        then unavailable
        else found body.name (text_or (truthy body.document) key)))
      (λ e. return (refused_lookup e)) w

status-says :
    (code : ℕ) (codes : List Text)
    → says_invalid (replied (refused_lookup (http_status code codes))) ≡ is_bad_status code
status-says code codes = elim (Bool-cases (code == 404)) [
  | inl gone ↦ rw gone (ground (arith, gone))
  | inr other ↦ elim (Bool-cases (is_bad_status code)) [
    | inl bad ↦ rw (other, bad) refl
    | inr good ↦ rw (other, good) refl
  ]
]

body-says :
    (b : Bool) (name : Option Text) (document : Text)
    → says_invalid (replied (if b then unavailable else found name document)) ≡ false
body-says true name document = refl
body-says false name document = refl

looked_up-says :
    (key : Text) (r : Wire × Reply Body) (w : World)
    → says_invalid (looked_up key r w).1 ≡ bad_request r.1
looked_up-says key (s, replied body) w = body-says body.is_empty body.name _
looked_up-says key (s, raised (http_status code codes)) w = status-says code codes
looked_up-says key (s, raised retry_error) w = refl
looked_up-says key (s, raised value_error) w = refl
looked_up-says key (s, raised other_error) w = refl

lookup-says :
    (key tipo : Text) (w : World) (s : Wire)
    → says_invalid (lookup_pix_key key tipo w s).1
      ≡ bad_request (make_request (key_request key tipo) w s).1
unfolding lookup_pix_key
lookup-says key tipo w s = looked_up-says key (make_request (key_request key tipo) w s) w

gateway-refuses :
    (has_gateway : Bool) (key tipo : Text) (w : World) (s : Wire)
    → refuses (ask_gateway has_gateway key tipo w s).1
      ≡ has_gateway && bad_request (make_request (key_request key tipo) w s).1
unfolding ask_gateway
gateway-refuses true key tipo w s =
    resume-refuses (lookup_pix_key key tipo w s) w ∙ lookup-says key tipo w s
gateway-refuses false key tipo w s = refl

answer-refuses :
    (has_gateway : Bool) (key tipo : Text) (recipient : Option User) (w : World) (s : Wire)
    → refuses (key_answer has_gateway key tipo recipient w s).1
      ≡ is_absent recipient
        && (has_gateway && bad_request (make_request (key_request key tipo) w s).1)
answer-refuses has_gateway key tipo none w s = gateway-refuses has_gateway key tipo w s
answer-refuses has_gateway key tipo (some u) w s = internal-refused u (mask_cpf_cnpj u.cpf_cnpj)

-- No account has the key, and the gateway answers its lookup with the status of a bad request.
abbrev pub is_bad_key : Bool → Text → Text → Db → World → Wire → Option PixKeyType → Bool
is_bad_key has_gateway chave tipo db w s none = false
is_bad_key has_gateway chave tipo db w s (some t) =
    is_absent (recipient_of_key db t chave)
    && (has_gateway
        && bad_request (make_request (key_request (normalize_pix_key t (strip chave)) tipo) w s).1)

typed-refuses :
    (has_gateway : Bool) (chave tipo : Text) (db : Db) (w : World) (s : Wire)
    (t : Option PixKeyType)
    → refuses (typed_lookup has_gateway chave tipo db t w s).1
      ≡ is_bad_key has_gateway chave tipo db w s t
typed-refuses has_gateway chave tipo db w s none = refl
typed-refuses has_gateway chave tipo db w s (some t) =
    answer-refuses has_gateway (normalize_pix_key t (strip chave)) tipo
      (recipient_of_key db t chave) w s

looked_up-founded :
    (key : Text) (r : Wire × Reply Body) (w : World)
    → unfounded (bad_request r.1) r.0 ≡ false
    → unfounded (says_invalid (looked_up key r w).1) (looked_up key r w).0 ≡ false
looked_up-founded key (s, replied body) w h = rw (looked_up-says key (s, replied body) w) h
looked_up-founded key (s, raised e) w h = rw (looked_up-says key (s, raised e) w) h

asked-founded :
    (r : Wire × Reply KeyLookup) (w : World)
    → unfounded (says_invalid r.1) r.0 ≡ false
    → let x : Wire × Reply (Response KeyAnswer) =
        resume r
          (λ info. return (success (of_lookup info)))
          (λ e. return (success unverified_key))
          w in
      unfounded (refuses x.1) x.0 ≡ false
asked-founded (s, replied x) w h = rw (resume-refuses (s, replied x) w) h
asked-founded (s, raised e) w h = refl

gateway-founded :
    (has_gateway : Bool) (key tipo : Text) (recipient : Option User) (w : World) (s : Wire)
    → let x = key_answer has_gateway key tipo recipient w s in unfounded (refuses x.1) x.0 ≡ false
unfolding ask_gateway lookup_pix_key make_request
gateway-founded has_gateway key tipo (some u) w s =
    rw (internal-refused u (mask_cpf_cnpj u.cpf_cnpj)) refl
gateway-founded false key tipo none w s = refl
gateway-founded true key tipo none w s = asked-founded (lookup_pix_key key tipo w s) w (
    looked_up-founded key (make_request (key_request key tipo) w s) w
      (retry-founded 3 (key_request key tipo) w s))

typed-founded :
    (has_gateway : Bool) (chave tipo : Text) (db : Db) (t : Option PixKeyType) (w : World)
    (s : Wire)
    → let x = typed_lookup has_gateway chave tipo db t w s in unfounded (refuses x.1) x.0 ≡ false
typed-founded has_gateway chave tipo db none w s = refl
typed-founded has_gateway chave tipo db (some t) w s =
    gateway-founded has_gateway (normalize_pix_key t (strip chave)) tipo
      (recipient_of_key db t chave) w s

-- A key is refused exactly if its type is known, no account of the platform has it, and there is a
-- gateway, whose lookup of the normalised key ends with status 400 or 422. That is then the latest
-- answer of the gateway, so no time-out, other status, failure or open breaker refuses a key.
pub key_refused :
    (has_gateway : Bool) (chave tipo : Text) (db : Db) (w : World) (s : Wire)
    → let (s', answer) = lookup_pix_key_endpoint has_gateway chave tipo db w s in
      (refuses answer ≡ is_bad_key has_gateway chave tipo db w s (key_type_of tipo))
      × ((refuses answer && not (last_is_refusal s'.sent)) ≡ false)
unfolding lookup_pix_key_endpoint
key_refused has_gateway chave tipo db w s = (
  typed-refuses has_gateway chave tipo db w s (key_type_of tipo),
  typed-founded has_gateway chave tipo db (key_type_of tipo) w s,
)
