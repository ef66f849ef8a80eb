-- ===== src/Gateway/Issued.antt =====
-- A code that `build_pix_static_emv` of app/core/pix_emv.py makes, where `pay_qr_code` is given it.
use biocodetechpay.Prelude.{◌≡◌, ◌∙◌, ap, refl, ℕ, ◌<◌, false, Option, none, some, Text, length}
use biocodetechpay.Money.{Cents}
use biocodetechpay.Money.Format.{format_amount}
use biocodetechpay.Emv.Tlv.{int_text}
use biocodetechpay.Emv.Build.{build_pix_static_emv}
use biocodetechpay.Emv.Reads.{account_fields, build_reads}
use biocodetechpay.Emv.Keys.{
  is_payload_url, classify_key, key_or_url, location_of, parse_emv_pix_key, parse_emv_payload_url,
  parse_emv_amount, amount_in,
}
use biocodetechpay.Gateway.Fields.{gathered, read_fields}

pub location_of-account :
    (key : Text) → is_payload_url key ≡ false → location_of (account_fields key) ≡ none
unfolding location_of
location_of-account key h = rw h refl

module _ (charge_id : Text) (value : Cents) (fuel : ℕ) where
  module _ (short_id : length charge_id < 78)
      (short_amount : length (format_amount b'.' value) < 100) where
    module _ (enough : 11 < fuel) (no_url : is_payload_url charge_id ≡ false) where
      key_of_issued :
          parse_emv_pix_key fuel (build_pix_static_emv charge_id value)
          ≡ some (some (charge_id, classify_key charge_id))
      unfolding parse_emv_pix_key key_or_url
      key_of_issued =
          let walks = build_reads charge_id value fuel short_id short_amount enough in
          rw (walks.0, walks.1, no_url) refl

      url_of_issued : parse_emv_payload_url fuel (build_pix_static_emv charge_id value) ≡ some none
      unfolding parse_emv_payload_url int_text
      url_of_issued =
          let walks = build_reads charge_id value fuel short_id short_amount enough in
          rw (walks.0, walks.1, location_of-account charge_id no_url) refl

      amount_of_issued :
          (read_float : Text → Option Cents)
          → read_float (format_amount b'.' value) ≡ some value
          → parse_emv_amount read_float fuel (build_pix_static_emv charge_id value) ≡ some value
      unfolding parse_emv_amount
      amount_of_issued read_float h =
          let walks = build_reads charge_id value fuel short_id short_amount enough in
          ap (amount_in read_float) walks.0 ∙ rw h refl

      -- The code of a charge, with an identifier of up to 77 characters that is no payload location
      -- and an amount that `float` reads back from its text, gives `pay_qr_code` the identifier as
      -- the key, no location, and the amount.
      pub issued_code_read :
          (read_float : Text → Option Cents)
          → read_float (format_amount b'.' value) ≡ some value
          → read_fields read_float fuel (build_pix_static_emv charge_id value)
            ≡ some (record {
              key = some (charge_id, classify_key charge_id);
              url = none;
              emv_amount = value;
            })
      unfolding read_fields
      issued_code_read read_float h =
          (λ i. gathered (key_of_issued i) (url_of_issued i) (amount_of_issued read_float h i))
