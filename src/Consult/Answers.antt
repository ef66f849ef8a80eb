-- ===== src/Consult/Answers.antt =====
-- `consultar_pix_qrcode` of app/pix/router.py.
use biocodetechpay.Prelude.{
  ℕ, Bool, true, false, not, List, [], ◌∷◌, Option, none, some, Text, codes, text_eq, strip, ltb,
  if◌then◌else◌,
}
use biocodetechpay.Money.{Cents}
use biocodetechpay.Store.{Db, User, PixTransaction, find_user}
use biocodetechpay.Http.{Response, success, failure}
use biocodetechpay.Emv.Tlv.{get_field}
use biocodetechpay.Emv.Parse.{parse_emv_top_level, extract_txid_field62, validate_pix_crc, upper}
use biocodetechpay.Qrcode.Lookup.{Code, find_internal_qrcode_charge}
use biocodetechpay.Gateway.Wire.{Api, return, attempt_else}
use biocodetechpay.Gateway.Charges.{Decoded, decode_qr_code}
use biocodetechpay.Gateway.Codes.{truthy_cents}
use biocodetechpay.Consult.Location.{
  Provider, Fetched, located, expired, unread, extract_pix_url, fetch_pix_charge_url, or_default,
}

-- What is read of a payload.
pub record CodeFields : Type 0 where
  pub url : Option Text
  pub txid : Option Text
  pub emv_value : Cents
  pub merchant : Text

-- An amount that is missing or not read is zero.
abbrev pub value_of : (Text → Option Cents) → Text → Cents
value_of read_float [] = 0
value_of read_float (c ∷ s) = elim (read_float (c ∷ s)) [ none ↦ 0 | some v ↦ v ]

abbrev pub value_among : (Text → Option Cents) → Option (List (Text × Text)) → Option Cents
value_among read_float none = none
value_among read_float (some fields) = some (value_of read_float (get_field (codes "54") fields []))

-- `_parse_emv_value`
unfoldable pub parse_emv_value : (Text → Option Cents) → ℕ → Text → Option Cents
unfolding parse_emv_top_level
parse_emv_value read_float fuel emv = value_among read_float (parse_emv_top_level fuel (strip emv))

abbrev pub merchant_among : Option (List (Text × Text)) → Option Text
merchant_among none = none
merchant_among (some fields) = some (strip (get_field (codes "59") fields []))

unfoldable pub merchant_name : ℕ → Text → Option Text
unfolding parse_emv_top_level
merchant_name fuel emv = merchant_among (parse_emv_top_level fuel (strip emv))

abbrev pub all_read :
    Option (Option Text) → Option (Option Text) → Option Cents → Option Text → Option CodeFields
all_read (some url) (some txid) (some emv_value) (some merchant) =
    some (record { url = url; txid = txid; emv_value = emv_value; merchant = merchant })
all_read _ _ _ _ = none

-- The readers, each of which the code calls only where it needs it; `none` is one that does not come
-- to an end.
unfoldable pub read_code : (Text → Option Cents) → ℕ → Text → Option CodeFields
read_code read_float fuel payload =
    all_read (extract_pix_url fuel payload) (extract_txid_field62 fuel payload)
      (parse_emv_value read_float fuel payload) (merchant_name fuel payload)

pub record ConsultAnswer : Type 0 where
  pub value : Cents
  pub beneficiary_name : Text
  pub is_internal : Bool
  pub charge_id : Option ℕ

abbrev pub receiver_name : Option User → Text
receiver_name none = codes "Correntista BioCodeTechPay"
receiver_name (some receiver) = receiver.name

-- A charge of the platform.
abbrev pub internal_answer : Db → PixTransaction → ConsultAnswer
internal_answer db charge = record {
  value = charge.value;
  beneficiary_name = receiver_name (find_user charge.user_id db);
  is_internal = true;
  charge_id = some charge.id;
}

abbrev pub external_answer : Cents → Text → ConsultAnswer
external_answer value name = record {
  value = value;
  beneficiary_name = or_default name;
  is_internal = false;
  charge_id = none;
}

-- Stage 3, the gateway.
abbrev pub decoded_answer : Option Cents → Text → Response ConsultAnswer
decoded_answer none name = failure 422
decoded_answer (some v) name = success (external_answer v name)

abbrev pub by_decoded : Option Decoded → Response ConsultAnswer
by_decoded none = failure 422
by_decoded (some d) = decoded_answer (truthy_cents d.value) d.beneficiary_name

unfoldable pub by_gateway : Bool → Text → Api (Response ConsultAnswer)
unfolding decode_qr_code
by_gateway has_gateway payload =
    if has_gateway
    then attempt_else (decode_qr_code payload) (λ d. return (by_decoded d))
        (λ e. return (failure 422))
    else return (failure 422)

-- Stage 2, the amount in the payload.
unfoldable pub by_payload : Bool → Text → CodeFields → Api (Response ConsultAnswer)
unfolding by_gateway
by_payload has_gateway payload f =
    if ltb 0 f.emv_value
    then return (success (external_answer f.emv_value f.merchant))
    else by_gateway has_gateway payload

-- Both identifiers are there and differ.
abbrev pub txid_differs : Option Text → Option Text → Bool
txid_differs (some qr) (some psp) = not (text_eq (upper qr) (upper psp))
txid_differs _ _ = false

-- Stage 1, the location; whatever cannot be read is left to stage 2.
abbrev pub by_location : Bool → Text → CodeFields → Fetched → Api (Response ConsultAnswer)
by_location has_gateway payload f (located c l) =
    if txid_differs f.txid l.txid
    then return (failure 422)
    else return (success (external_answer l.value l.beneficiary_name))
by_location has_gateway payload f expired = return (failure 422)
by_location has_gateway payload f unread = by_payload has_gateway payload f

abbrev pub external :
    Provider → Bool → Text → CodeFields → Option Text → Api (Response ConsultAnswer)
external p has_gateway payload f none = by_payload has_gateway payload f
external p has_gateway payload f (some url) =
    by_location has_gateway payload f (fetch_pix_charge_url p url)

abbrev pub by_charge :
    Provider
    → Bool
    → Text
    → CodeFields
    → Db
    → Option PixTransaction × Bool
    → Api (Response ConsultAnswer)
by_charge p has_gateway payload f db (charge, true) = return (failure 409)
by_charge p has_gateway payload f db (some charge, false) =
    return (success (internal_answer db charge))
by_charge p has_gateway payload f db (none, false) = external p has_gateway payload f f.url

-- `consultar_pix_qrcode`, given what the readers find.
unfoldable pub consultar_pix_qrcode :
    Provider → Bool → Code → CodeFields → Db → Api (Response ConsultAnswer)
unfolding validate_pix_crc find_internal_qrcode_charge fetch_pix_charge_url by_payload
consultar_pix_qrcode p has_gateway c f db =
    if not (validate_pix_crc c.payload)
    then return (failure 422)
    else by_charge p has_gateway c.payload f db (find_internal_qrcode_charge c db)
