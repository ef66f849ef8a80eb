-- ===== src/Consult/Issued.antt =====
-- The consultation of a code that `build_pix_static_emv` of app/core/pix_emv.py has made.
use biocodetechpay.Prelude.{
  ◌≡◌, ◌∙◌, ap, refl, sym, ℕ, ◌<◌, ◌==◌, Bool, true, false, not, List, [], ◌∷◌, ◌++◌, Option, none,
  some, Text, codes, text_eq, strip, length, keep_if, ltb, arith,
}
use biocodetechpay.Money.{Cents}
use biocodetechpay.Money.Format.{format_amount, two_digits, print_nat}
use biocodetechpay.Store.{Db, PixTransaction}
use biocodetechpay.Http.{Response, success, failure}
use biocodetechpay.Qrcode.Lookup.{Code, find_internal_qrcode_charge}
use biocodetechpay.Gateway.Wire.{World, Wire, replied}
use biocodetechpay.Emv.Tlv.{tlv, scan_top_level}
use biocodetechpay.Emv.Build.{build_pix_static_emv, crc16_ccitt, txid}
use biocodetechpay.Emv.Parse.{
  parse_emv_top_level, completed, extract_txid_field62, txid_of, txid_in, txid_among,
  validate_pix_crc,
}
use biocodetechpay.Emv.Reads.{
  account_fields, static_fields, unsealed, build_reads, build_top_level, build_lem, length-take_le,
}
use biocodetechpay.Emv.Checksum.{sealed_accepted}
use biocodetechpay.Emv.RoundTrip.{encode, walk-encode}
use biocodetechpay.Emv.Keys.{is_payload_url}
use biocodetechpay.Gateway.Issued.{location_of-account}
use biocodetechpay.Consult.Location.{Provider, extract_pix_url, url_among, tag_url, block_url}
use biocodetechpay.Consult.Answers.{
  ConsultAnswer, internal_answer, external_answer, by_charge, by_payload, consultar_pix_qrcode,
  CodeFields, read_code, all_read, parse_emv_value, merchant_name, merchant_among, value_among,
  value_of,
}

value_of-append :
    (read_float : Text → Option Cents) (v : Cents) (s rest : Text) (c : ℕ)
    → read_float (s ++ (c ∷ rest)) ≡ some v
    → value_of read_float (s ++ (c ∷ rest)) ≡ v
value_of-append read_float v [] rest c h = rw h refl
value_of-append read_float v (d ∷ s) rest c h = rw h refl

-- What the consultation reads of the code.
abbrev fields : Text → Cents → CodeFields
fields charge_id value = record {
  url = none;
  txid = txid_of (some (txid charge_id));
  emv_value = value;
  merchant = codes "BioCodeTechPay";
}

-- What the payer is told, given what is found of the charge.
abbrev pub told : Cents → Db → Option PixTransaction × Bool → Response ConsultAnswer
told value db (charge, true) = failure 409
told value db (some charge, false) = success (internal_answer db charge)
told value db (none, false) = success (external_answer value (codes "BioCodeTechPay"))

module _ (charge_id : Text) (value : Cents) (fuel : ℕ) where
  abbrev emv : Text
  emv = build_pix_static_emv charge_id value

  module _ (short_id : length charge_id < 78)
      (short_amount : length (format_amount b'.' value) < 100) where
    module _ (enough : 11 < fuel) (stripped : strip emv ≡ emv) where
      top_level : parse_emv_top_level fuel (strip emv) ≡ some (static_fields charge_id value)
      unfolding parse_emv_top_level
      top_level =
          ap (λ text. completed (scan_top_level fuel text)) stripped
          ∙ ap completed
              (build_top_level charge_id value fuel short_id short_amount (omega (arith, enough)))

      block_of_account :
          is_payload_url charge_id ≡ false
          → (rest : Option (Option Text))
          → block_url fuel (encode (account_fields charge_id)) rest ≡ rest
      unfolding block_url tlv
      block_of_account no_url rest =
          let walks = build_reads charge_id value fuel short_id short_amount enough in
          rw (walks.1, location_of-account charge_id no_url) refl

      no_other_block : tag_url fuel (static_fields charge_id value) 27 25 ≡ some none
      unfolding tag_url block_url two_digits print_nat
      no_other_block = refl

      url_of_code : is_payload_url charge_id ≡ false → extract_pix_url fuel emv ≡ some none
      unfolding extract_pix_url tag_url two_digits print_nat
      url_of_code no_url =
          ap (url_among fuel) top_level
          ∙ block_of_account no_url (tag_url fuel (static_fields charge_id value) 27 25)
          ∙ no_other_block

      txid_of_code : extract_txid_field62 fuel emv ≡ some (txid_of (some (txid charge_id)))
      unfolding extract_txid_field62
      txid_of_code =
          let short = length-take_le 25 (keep_if (λ c. not (c == b'-')) charge_id) in
          ap (txid_among fuel) top_level
          ∙ ap txid_in (
              walk-encode ((codes "05", txid charge_id) ∷ []) fuel
                ((refl, refl, omega (arith, short)), tt) (omega (arith, enough)))

      value_of_code :
          (read_float : Text → Option Cents)
          → read_float (format_amount b'.' value) ≡ some value
          → parse_emv_value read_float fuel emv ≡ some value
      unfolding parse_emv_value format_amount
      value_of_code read_float h =
          ap (value_among read_float) top_level ∙ ap some (value_of-append read_float value _ _ _ h)

      merchant_of_code : merchant_name fuel emv ≡ some (codes "BioCodeTechPay")
      unfolding merchant_name
      merchant_of_code = ap merchant_among top_level

      code_is_read :
          is_payload_url charge_id ≡ false
          → (read_float : Text → Option Cents) → read_float (format_amount b'.' value) ≡ some value
          → read_code read_float fuel emv ≡ some (fields charge_id value)
      unfolding read_code
      code_is_read no_url read_float h i =
          all_read (url_of_code no_url i) (txid_of_code i) (value_of_code read_float h i)
            (merchant_of_code i)

      crc_of_code :
          text_eq (crc16_ccitt (unsealed charge_id value)) (codes "6304") ≡ false
          → validate_pix_crc emv ≡ true
      crc_of_code other =
          let built = build_lem charge_id value in
          ap validate_pix_crc built
          ∙ sealed_accepted (encode (static_fields charge_id value))
              (ap strip (sym built) ∙ stripped ∙ built)
          ∙ ap not other

      by_charge_lem :
          (p : Provider) (has_gateway : Bool) (db : Db) (found : Option PixTransaction × Bool)
          (w : World) (s : Wire)
          → ltb 0 value ≡ true
          → by_charge p has_gateway emv (fields charge_id value) db found w s
            ≡ (s, replied (told value db found))
      unfolding by_payload
      by_charge_lem p has_gateway db (charge, true) w s h = refl
      by_charge_lem p has_gateway db (some charge, false) w s h = refl
      by_charge_lem p has_gateway db (none, false) w s h = rw h refl

-- The code of a charge, with an identifier of up to 77 characters that is no payload location, a
-- positive amount that prints in less than a hundred characters and that `float` reads back, with no
-- white space at its ends and a checksum that does not read `6304`: whatever the provider and the
-- gateway do, nothing is asked of them, and the payer is told of a charge of the platform its value
-- and receiver, of one that was paid that it was, and of any other the amount and the merchant in
-- the code.
pub issued_code_consulted :
    (charge_id : Text) (value : Cents) (fuel : ℕ) (read_float : Text → Option Cents) (p : Provider)
    (has_gateway : Bool) (uuids asaas_ids : List ℕ) (db : Db) (w : World) (s : Wire)
    → length charge_id < 78
    → length (format_amount b'.' value) < 100
    → 11 < fuel
    → strip (build_pix_static_emv charge_id value) ≡ build_pix_static_emv charge_id value
    → is_payload_url charge_id ≡ false
    → ltb 0 value ≡ true
    → read_float (format_amount b'.' value) ≡ some value
    → text_eq (crc16_ccitt (unsealed charge_id value)) (codes "6304") ≡ false
    → let c : Code = record {
      payload = build_pix_static_emv charge_id value;
      uuids = uuids;
      asaas_ids = asaas_ids;
    } in
      (f : CodeFields) × (read_code read_float fuel (build_pix_static_emv charge_id value) ≡ some f)
      × (consultar_pix_qrcode p has_gateway c f db w s
          ≡ (s, replied (told value db (find_internal_qrcode_charge c db))))
unfolding consultar_pix_qrcode
issued_code_consulted charge_id value fuel read_float p has_gateway uuids asaas_ids db w s short_id
      short_amount enough stripped no_url positive reads other =
    (
      fields charge_id value,
      code_is_read charge_id value fuel short_id short_amount enough stripped no_url read_float
          reads,
      rw (crc_of_code charge_id value fuel short_id short_amount enough stripped other) (
          by_charge_lem charge_id value fuel short_id short_amount enough stripped p has_gateway db
            _ w s positive),
    )
