-- ===== src/Gateway/Fields.antt =====
-- What `pay_qr_code` of app/adapters/asaas_adapter.py reads of a payload, with the readers of
-- app/core/pix_emv.py.
use biocodetechpay.Prelude.{ℕ, Option, none, some, Text}
use biocodetechpay.Money.{Cents}
use biocodetechpay.Emv.Keys.{parse_emv_pix_key, parse_emv_payload_url, parse_emv_amount}

-- What the readers of app/core/pix_emv.py find in a payload.
pub record QrFields : Type 0 where
  pub key : Option (Text × Text)
  pub url : Option Text
  pub emv_amount : Cents

abbrev pub gathered :
    Option (Option (Text × Text)) → Option (Option Text) → Option Cents → Option QrFields
gathered (some key) (some url) (some emv_amount) =
    some (record { key = key; url = url; emv_amount = emv_amount })
gathered _ _ _ = none

-- `none` is a reader that does not come to an end. The code calls that of the location only where it
-- needs it.
unfoldable pub read_fields : (Text → Option Cents) → ℕ → Text → Option QrFields
read_fields read_float fuel payload =
    gathered (parse_emv_pix_key fuel payload) (parse_emv_payload_url fuel payload)
      (parse_emv_amount read_float fuel payload)
