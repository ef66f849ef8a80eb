-- ===== src/Gateway/Settings.antt =====
-- `__init__` and `_get_operation_key` of `AsaasAdapter`, and the map of key types.
use biocodetechpay.Prelude.{
  Bool, true, false, ◌&&◌, ◌||◌, not, [], ◌∷◌, Option, none, some, Text, codes, text_eq,
  starts_with, strip, if◌then◌else◌,
}
use biocodetechpay.Gateway.Wire.{Api, World, Wire, replied}

pub record Adapter : Type 0 where
  pub api_key : Text
  pub use_sandbox : Bool
  pub operation_key : Option Text
  pub totp_secret : Option Text

-- A text that is absent or empty counts as false.
abbrev pub truthy : Option Text → Option Text
truthy none = none
truthy (some []) = none
truthy (some (c ∷ s)) = some (c ∷ s)

abbrev pub is_blank : Text → Bool
is_blank [] = true
is_blank (c ∷ s) = false

abbrev pub stripped : Option Text → Option Text
stripped none = none
stripped (some s) = some (strip s)

abbrev pub is_sandbox_key : Text → Bool
is_sandbox_key api_key =
    starts_with api_key (codes "$aact_sandbox_") || starts_with api_key (codes "$aact_YTVhNGM0")

abbrev pub is_prod_key : Text → Bool
is_prod_key api_key =
    starts_with api_key (codes "$aact_prod_") || starts_with api_key (codes "$aact_MjcxOT")

-- `__init__`; `none` is the `ValueError`.
unfoldable pub new_adapter : Text → Bool → Option Text → Option Text → Option Adapter
new_adapter api_key use_sandbox operation_key totp_secret =
    if is_blank api_key
    then none
    else if use_sandbox && is_prod_key api_key
    then none
    else if not use_sandbox && is_sandbox_key api_key
    then none
    else some (record {
      api_key = api_key;
      use_sandbox = use_sandbox;
      operation_key = operation_key;
      totp_secret = stripped (truthy totp_secret);
    })

abbrev pub static_or : Option Text → Option Text → Option Text
static_or none static = static
static_or (some code) static = some code

-- The one-time code of a secret, or none where there is no secret or its generation raises.
abbrev pub one_time_code : Adapter → World → Wire → Option Text
one_time_code a w s = elim (truthy a.totp_secret) [
  | none ↦ none
  | some secret ↦ w.totp_code s.attempts secret
]

-- `_get_operation_key`
abbrev pub get_operation_key : Adapter → Api (Option Text)
get_operation_key a w s = (s, replied (static_or (one_time_code a w s) (truthy a.operation_key)))

-- `asaas_key_type_map.get(pix_key_type, "EVP")`
unfoldable pub asaas_key_type : Text → Text
asaas_key_type t =
    if text_eq t (codes "CPF")
    then codes "CPF"
    else if text_eq t (codes "CNPJ")
    then codes "CNPJ"
    else if text_eq t (codes "EMAIL")
    then codes "EMAIL"
    else if text_eq t (codes "TELEFONE") || text_eq t (codes "PHONE")
    then codes "PHONE"
    else codes "EVP"
