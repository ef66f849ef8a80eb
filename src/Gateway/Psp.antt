-- ===== src/Gateway/Psp.antt =====
-- The charge that stands at the payload location of a dynamic code, in `pay_qr_code` of
-- app/adapters/asaas_adapter.py. The request, `json.loads` and `urlsafe_b64decode` are parameters.
use biocodetechpay.Prelude.{
  ℕ, zero, suc, ◌-◌, ◌%◌, Bool, true, false, ◌&&◌, ◌||◌, not, List, [], ◌∷◌, ◌++◌, Option, none,
  some, Text, codes, text_eq, strip, lower, starts_with, contains, length, leb, ◌==◌, if◌then◌else◌,
}
use biocodetechpay.Money.{Cents}
use biocodetechpay.Emv.Parse.{upper}

-- A text that `float` is given; one that is missing is not given to it.
pub data AmountField : Type 0 where
  missing bad_amount : AmountField
  amount : Cents → AmountField

-- `f or g`
abbrev pub or_field : AmountField → AmountField → AmountField
or_field missing g = g
or_field bad_amount g = bad_amount
or_field (amount v) g = amount v

pub record PspCharge : Type 0 where
  pub status : Option Text
  pub pix_copia_e_cola : Option Text
  pub chave : Option Text
  pub original : AmountField
  pub modalidade_alteracao : AmountField

pub data PspAnswer : Type 0 where
  psp_broken : PspAnswer
  psp_answer : ℕ → Text → Text → PspAnswer

pub record Psp : Type 0 where
  pub fetch : Text → PspAnswer
  pub load_json : Text → Option PspCharge
  pub b64_decode : Text → Option Text

-- `str.split(".")`
abbrev pub push_char : ℕ → List Text → List Text
push_char c [] = (c ∷ []) ∷ []
push_char c (part ∷ parts) = (c ∷ part) ∷ parts

abbrev pub split_dots : Text → List Text
split_dots [] = [] ∷ []
split_dots (c ∷ s) = if c == b'.' then [] ∷ split_dots s else push_char c (split_dots s)

abbrev equals_signs : ℕ → Text
equals_signs zero = []
equals_signs (suc n) = b'=' ∷ equals_signs n

-- A part is filled up to a multiple of four characters.
abbrev pub padded : Text → Text
padded part = let pad = 4 - length part % 4 in if pad == 4 then part else part ++ equals_signs pad

-- The second of at least three parts.
abbrev pub jws_payload : List Text → Option Text
jws_payload (header ∷ payload ∷ signature ∷ rest) = some payload
jws_payload _ = none

abbrev pub json_of : Psp → Option Text → Option PspCharge
json_of p none = none
json_of p (some json) = p.load_json json

abbrev pub decoded : Psp → Option Text → Option PspCharge
decoded p none = none
decoded p (some part) = json_of p (p.b64_decode (padded part))

abbrev pub is_jws : Text → Text → Bool
is_jws content_type text =
    contains (lower content_type) (codes "jose")
    || (not (starts_with text (codes "{")) && leb 3 (length (split_dots text)))

abbrev pub is_empty_text : Text → Bool
is_empty_text [] = true
is_empty_text (c ∷ s) = false

-- What is read of an answer; whatever goes wrong is a `ValueError`, `none`.
unfoldable pub read_psp : Psp → PspAnswer → Option PspCharge
read_psp p psp_broken = none
read_psp p (psp_answer code content_type body) =
    let text = strip body in
    if not (leb 200 code && leb code 299)
    then none
    else if is_empty_text text
    then none
    else if is_jws content_type text
    then decoded p (jws_payload (split_dots text))
    else p.load_json body

-- `_EXPIRED`
abbrev pub is_expired_status : Text → Bool
is_expired_status t =
    text_eq t (codes "EXPIRADA")
    || text_eq t (codes "REMOVIDA_PELO_USUARIO_RECEBEDOR")
    || text_eq t (codes "REMOVIDA_PELO_PSP")
    || text_eq t (codes "CONCLUIDA")

abbrev pub text_of : Option Text → Text
text_of none = []
text_of (some s) = s

-- A charge that is expired or paid is a `ValueError` as well.
abbrev pub checked : Option PspCharge → Option PspCharge
checked none = none
checked (some d) = if is_expired_status (upper (text_of d.status)) then none else some d

unfoldable pub find_charge : Psp → Text → Option PspCharge
unfolding read_psp
find_charge p url = checked (read_psp p (p.fetch url))
