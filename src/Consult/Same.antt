-- ===== src/Consult/Same.antt =====
-- The charge that a consultation finds at a location, and the one that a payment finds there.
use biocodetechpay.Prelude.{
  ◌≡◌, ◌≢◌, ◌⊎◌, refl, sym, arith, Bool-cases, inl, inr, ℕ, zero, Bool, true, false, ◌&&◌, ◌||◌,
  not, Option, none, some, Text, strip, leb, ◌==◌, if◌then◌else◌,
}
use mathlib.Core.Path.{subst}
use biocodetechpay.Money.{Cents}
use biocodetechpay.Store.{Db}
use biocodetechpay.Http.{failure}
use biocodetechpay.Emv.Parse.{validate_pix_crc}
use biocodetechpay.Qrcode.Lookup.{Code, find_internal_qrcode_charge}
use biocodetechpay.Gateway.Wire.{World, Wire, GatewayError, replied, raised, value_error}
use biocodetechpay.Gateway.Settings.{Adapter}
use biocodetechpay.Gateway.Psp.{
  Psp, PspAnswer, psp_broken, psp_answer, PspCharge, AmountField, missing, bad_amount, amount,
  or_field, split_dots, padded, jws_payload, json_of, decoded, is_jws, is_empty_text, read_psp,
  checked, find_charge,
}
use biocodetechpay.Gateway.Codes.{PayCall, transfer_field, pay_at}
use biocodetechpay.Consult.Location.{
  Provider, FetchedCharge, Fetched, located, expired, unread, do_fetch, from_json, from_part,
  loaded, live, valued, raw_value, name_raises, Located, read_location, fetch_pix_charge_url,
}
use biocodetechpay.Consult.Answers.{CodeFields, consultar_pix_qrcode}

abbrev pub charge_of : Option FetchedCharge → Option PspCharge
charge_of none = none
charge_of (some f) = some f.charge

-- The payment meets the answer that the consultation ended with.
abbrev pub psp_of : Provider → Psp
psp_of p = record {
  fetch = λ url. do_fetch (p.get url) 0 3;
  load_json = λ text. charge_of (p.load text);
  b64_decode = p.decode;
}

-- A charge that is found is the same, and its amount the one that a transfer takes where `original`
-- is there, or it is not found by the payment; one that is expired is not found.
abbrev pub Agrees : Fetched → Option PspCharge → Type 0
Agrees (located f l) o =
    (o ≡ none)
    ⊎ ((o ≡ some f.charge)
        × (f.charge.original ≢ missing → transfer_field f.charge ≡ amount l.value))
Agrees expired o = o ≡ none
Agrees unread o = zero ≡ zero

original_lem :
    (o rest m : AmountField) (v : Cents)
    → or_field o rest ≡ amount v
    → o ≢ missing
    → or_field o m ≡ amount v
original_lem missing rest m v h there = absurd (there refl)
original_lem bad_amount rest m v h there = h
original_lem (amount u) rest m v h there = h

name-Agrees :
    (nameless : Bool) (f : FetchedCharge) (l : Located)
    → (f.charge.original ≢ missing → transfer_field f.charge ≡ amount l.value)
    → Agrees (if nameless then unread else located f l) (some f.charge)
name-Agrees true f l h = refl
name-Agrees false f l h = inr (refl, h)

valued-Agrees :
    (f : FetchedCharge) (v : AmountField) → raw_value f ≡ v → Agrees (valued f v) (some f.charge)
valued-Agrees f missing h = refl
valued-Agrees f bad_amount h = refl
valued-Agrees f (amount v) h =
    name-Agrees (name_raises f) f _ (original_lem f.charge.original _ _ v h)

status-Agrees :
    (gone no_value : Bool) (f : FetchedCharge)
    → Agrees
        (if gone then expired else if no_value then unread else valued f (raw_value f))
        (if gone then none else some f.charge)
status-Agrees true no_value f = refl
status-Agrees false true f = refl
status-Agrees false false f = valued-Agrees f (raw_value f) refl

-- The payment may find nothing where the consultation finds something, never the reverse.
none-Agrees : (x : Fetched) → Agrees x none
none-Agrees (located f l) = inl refl
none-Agrees expired = refl
none-Agrees unread = refl

live-Agrees : (o : Option FetchedCharge) → Agrees (live o) (checked (charge_of o))
live-Agrees none = refl
live-Agrees (some f) = status-Agrees _ f.valor_is_null f

code-Agrees :
    (gone good empty : Bool) (x : Fetched) (o : Option PspCharge)
    → (gone ≡ true → good ≡ false)
    → Agrees x (checked o)
    → Agrees
        (if gone then expired else if not good then unread else if empty then unread else x)
        (checked (if not good then none else if empty then none else o))
code-Agrees true true empty x o h e = let clash : true ≡ false = h refl in cc
code-Agrees true false empty x o h e = refl
code-Agrees false false empty x o h e = refl
code-Agrees false true true x o h e = refl
code-Agrees false true false x o h e = e

gone_lem : (code : ℕ) → (code == 404 || code == 410) ≡ true → (leb 200 code && leb code 299) ≡ false
gone_lem code h = ground (arith, h)

-- `json.loads` ignores the white space of JSON around a text, and raises on any other.
abbrev pub IgnoresSpace : Provider → Type 0
IgnoresSpace p = (text : Text) → (p.load text ≡ none) ⊎ (p.load text ≡ p.load (strip text))

module _ (p : Provider) (spaces : IgnoresSpace p) where
  json_lem : (o : Option Text) → json_of (psp_of p) o ≡ charge_of (from_json p o)
  json_lem none = refl
  json_lem (some json) = refl

  decoded_lem : (o : Option Text) → decoded (psp_of p) o ≡ charge_of (from_part p o)
  decoded_lem none = refl
  decoded_lem (some part) = json_lem (p.decode (padded part))

  loaded-Agrees :
      (jws : Bool) (part : Option Text) (body : Text)
      → Agrees
          (live (if jws then from_part p part else p.load (strip body)))
          (checked (if jws then decoded (psp_of p) part else charge_of (p.load body)))
  loaded-Agrees true part body =
      subst (λ o. Agrees (live (from_part p part)) (checked o)) (sym (decoded_lem part))
        (live-Agrees (from_part p part))
  loaded-Agrees false part body =
      let found = live (p.load (strip body)) in
      elim (spaces body) [
        | inl raises ↦
            subst (λ o. Agrees found (checked (charge_of o))) (sym raises) (none-Agrees found)
        | inr same ↦
            subst (λ o. Agrees found (checked (charge_of o))) (sym same)
              (live-Agrees (p.load (strip body)))
      ]

  answer-Agrees : (a : PspAnswer) → Agrees (read_location p a) (checked (read_psp (psp_of p) a))
  unfolding read_location read_psp
  answer-Agrees psp_broken = refl
  answer-Agrees (psp_answer code content_type body) =
      code-Agrees (code == 404 || code == 410) (leb 200 code && leb code 299)
        (is_empty_text (strip body)) (live (loaded p content_type (strip body))) _ (gone_lem code)
        (loaded-Agrees (is_jws content_type (strip body)) (jws_payload (split_dots (strip body)))
          body)

  -- What a consultation finds at a location, the payment of the code finds too.
  pub same_charge : (url : Text) → Agrees (fetch_pix_charge_url p url) (find_charge (psp_of p) url)
  unfolding fetch_pix_charge_url find_charge
  same_charge url = answer-Agrees (do_fetch (p.get url) 0 3)

expired_lem :
    (p : Provider)
    → IgnoresSpace p
    → (url : Text) → fetch_pix_charge_url p url ≡ expired
    → find_charge (psp_of p) url ≡ none
expired_lem p spaces url h =
    subst (λ x. Agrees x (find_charge (psp_of p) url)) h (same_charge p spaces url)

-- Where json.loads, of a text with white space around it, raises or gives what it gives without:
-- the location of a code that belongs to no charge of the platform says that the charge is expired
-- or paid: the consultation is refused, the payment by the location raises a `ValueError`, and
-- neither sends anything.
pub expired_refused :
    (p : Provider)
    → IgnoresSpace p
    → (has_gateway : Bool) (c : Code) (f : CodeFields) (url : Text) (db : Db) (digest : Text → Text)
      (a : Adapter) (call : PayCall) (v : Cents) (e : GatewayError) (w : World) (s : Wire)
    → find_internal_qrcode_charge c db ≡ (none, false)
    → f.url ≡ some url
    → fetch_pix_charge_url p url ≡ expired
    → (consultar_pix_qrcode p has_gateway c f db w s ≡ (s, replied (failure 422)))
      × (pay_at digest (psp_of p) a call v e f.url w s ≡ (s, raised value_error))
unfolding consultar_pix_qrcode
expired_refused p spaces has_gateway c f url db digest a call v e w s outside there gone = (
  elim (Bool-cases (validate_pix_crc c.payload)) [
    | inl passes ↦ rw (passes, outside, there, gone) refl
    | inr fails ↦ rw fails refl
  ],
  rw (there, expired_lem p spaces url gone) refl,
)
