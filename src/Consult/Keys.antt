-- ===== src/Consult/Keys.antt =====
-- `lookup_pix_key_endpoint` of app/pix/router.py.
use biocodetechpay.Prelude.{
  Bool, not, Option, none, some, Text, codes, text_eq, strip, if◌then◌else◌,
}
use biocodetechpay.Store.{Db, User, PixKeyType, cpf, cnpj, email, phone, random}
use biocodetechpay.Http.{Response, success, failure}
use biocodetechpay.Pix.Transfer.{find_recipient_user}
use biocodetechpay.Api.Keys.{normalize_pix_key, mask_cpf_cnpj}
use biocodetechpay.Gateway.Wire.{Api, return, attempt_else}
use biocodetechpay.Gateway.Settings.{truthy}
use biocodetechpay.Gateway.Payments.{
  KeyLookup, found, not_in_dict, invalid_format, unavailable, lookup_pix_key,
}

-- A value of `PixKeyType`, or the name of one.
unfoldable pub key_type_of : Text → Option PixKeyType
key_type_of t =
    if text_eq t (codes "CPF")
    then some cpf
    else if text_eq t (codes "CNPJ")
    then some cnpj
    else if text_eq t (codes "EMAIL")
    then some email
    else if text_eq t (codes "TELEFONE")
    then some phone
    else if text_eq t (codes "ALEATORIA")
    then some random
    else if text_eq t (codes "PHONE")
    then some phone
    else if text_eq t (codes "RANDOM")
    then some random
    else none

pub data KeyAnswer : Type 0 where
  internal_key : Text → Text → KeyAnswer
  verified_key : Text → Text → KeyAnswer
  unverified_key invalid_key : KeyAnswer

-- An account of the platform, by the normalised key, or by the key as it was given where that is
-- another text.
unfoldable pub recipient_of_key : Db → PixKeyType → Text → Option User
unfolding normalize_pix_key
recipient_of_key db t chave =
    let raw = strip chave in
    let normalised = normalize_pix_key t raw in
    elim (find_recipient_user db normalised t) [
      | some recipient ↦ some recipient
      | none ↦ if not (text_eq normalised raw) then find_recipient_user db raw t else none
    ]

-- `mask_cpf_cnpj` may raise, which is answered with an internal error.
abbrev pub internal_found : User → Option Text → Response KeyAnswer
internal_found recipient none = failure 500
internal_found recipient (some document) = success (internal_key recipient.name document)

abbrev pub named : Option Text → Text → KeyAnswer
named none document = unverified_key
named (some name) document = verified_key name document

-- Whatever the gateway cannot tell is passed on, but for a key of a bad format.
abbrev pub of_lookup : KeyLookup → KeyAnswer
of_lookup unavailable = unverified_key
of_lookup not_in_dict = unverified_key
of_lookup invalid_format = invalid_key
of_lookup (found name document) = named (truthy name) document

unfoldable pub ask_gateway : Bool → Text → Text → Api (Response KeyAnswer)
unfolding lookup_pix_key
ask_gateway has_gateway key tipo =
    if has_gateway
    then attempt_else (lookup_pix_key key tipo) (λ info. return (success (of_lookup info)))
        (λ e. return (success unverified_key))
    else return (success unverified_key)

abbrev pub key_answer : Bool → Text → Text → Option User → Api (Response KeyAnswer)
key_answer has_gateway key tipo (some recipient) =
    return (internal_found recipient (mask_cpf_cnpj recipient.cpf_cnpj))
key_answer has_gateway key tipo none = ask_gateway has_gateway key tipo

abbrev pub typed_lookup : Bool → Text → Text → Db → Option PixKeyType → Api (Response KeyAnswer)
typed_lookup has_gateway chave tipo db none = return (failure 400)
typed_lookup has_gateway chave tipo db (some t) =
    key_answer has_gateway (normalize_pix_key t (strip chave)) tipo (recipient_of_key db t chave)

-- `lookup_pix_key_endpoint`
unfoldable pub lookup_pix_key_endpoint : Bool → Text → Text → Db → Api (Response KeyAnswer)
unfolding key_type_of recipient_of_key ask_gateway normalize_pix_key mask_cpf_cnpj
lookup_pix_key_endpoint has_gateway chave tipo db =
    typed_lookup has_gateway chave tipo db (key_type_of tipo)
