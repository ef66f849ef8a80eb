-- ===== src/Consult/Location.antt =====
-- `_extract_pix_url` and `_fetch_pix_charge_url` of app/pix/router.py. What the provider answers at
-- each attempt, `json.loads` and `urlsafe_b64decode` are parameters.
use biocodetechpay.Prelude.{
  ℕ, zero, suc, ◌+◌, Bool, ◌&&◌, ◌||◌, not, List, [], ◌∷◌, Option, none, some, Text, codes, take,
  strip, leb, ◌==◌, if◌then◌else◌,
}
use biocodetechpay.Money.{Cents}
use biocodetechpay.Money.Format.{two_digits}
use biocodetechpay.Emv.Tlv.{walk_tlv, get_field}
use biocodetechpay.Emv.Parse.{parse_emv_top_level, upper}
use biocodetechpay.Emv.Keys.{location_of}
use biocodetechpay.Gateway.Settings.{truthy}
use biocodetechpay.Gateway.Psp.{
  PspAnswer, psp_broken, psp_answer, PspCharge, AmountField, missing, bad_amount, amount, or_field,
  split_dots, padded, jws_payload, is_jws, is_empty_text, is_expired_status, text_of,
}

-- The location in the block of a tag, which may be missing; the loop goes on where there is none.
unfoldable pub block_url : ℕ → Text → Option (Option Text) → Option (Option Text)
unfolding location_of
block_url fuel raw rest =
    let inner = walk_tlv fuel raw in
    if is_empty_text raw
    then rest
    else if not inner.ended
    then none
    else elim (location_of inner.fields) [ some url ↦ some (some url) | none ↦ rest ]

-- The tags from `tag_id` on, as many as `n`.
unfoldable pub tag_url : ℕ → List (Text × Text) → ℕ → ℕ → Option (Option Text)
unfolding block_url
tag_url fuel fields tag_id zero = some none
tag_url fuel fields tag_id (suc n) =
    block_url fuel (get_field (two_digits tag_id) fields []) (tag_url fuel fields (tag_id + 1) n)

abbrev pub url_among : ℕ → Option (List (Text × Text)) → Option (Option Text)
url_among fuel none = none
url_among fuel (some fields) = tag_url fuel fields 26 26

-- `_extract_pix_url`: the tags 26 to 51. An outer `none` is a loop that does not come to an end.
unfoldable pub extract_pix_url : ℕ → Text → Option (Option Text)
unfolding parse_emv_top_level tag_url
extract_pix_url fuel emv = url_among fuel (parse_emv_top_level fuel (strip emv))

-- One attempt: a time-out, or an error of the connection, is tried again.
pub data PspAttempt : Type 0 where
  psp_timeout : PspAttempt
  psp_said : PspAnswer → PspAttempt

-- The object at a location; the names are those of `devedor`, and further texts. `original` of
-- `valor` is a text that is not empty, where it is there. A key that is missing is told from a null
-- where the code tells them apart.
pub record FetchedCharge : Type 0 where
  pub charge : PspCharge
  pub txid : Option Text
  pub value_field : AmountField
  pub amount_field : AmountField
  pub nome : Option Text
  pub name : Option Text
  pub valor_is_null : Bool
  pub solicitacao_is_null : Bool
  pub solicitacao : Option Text
  pub description : Option Text

pub record Provider : Type 0 where
  pub get : Text → ℕ → PspAttempt
  pub load : Text → Option FetchedCharge
  pub decode : Text → Option Text

-- `_do_fetch`, whose last exception is raised again.
unfoldable pub do_fetch : (ℕ → PspAttempt) → ℕ → ℕ → PspAnswer
do_fetch get i zero = psp_broken
do_fetch get i (suc n) = elim (get i) [
  | psp_said answer ↦ answer
  | psp_timeout ↦ do_fetch get (i + 1) n
]

pub record Located : Type 0 where
  pub value : Cents
  pub beneficiary_name : Text
  pub txid : Option Text

-- What is found: a charge, one that is expired or paid, or an exception.
pub data Fetched : Type 0 where
  located : FetchedCharge → Located → Fetched
  expired unread : Fetched

-- `original`, or failing that `value` or `amount`.
abbrev pub raw_value : FetchedCharge → AmountField
raw_value f = or_field f.charge.original (or_field f.value_field f.amount_field)

abbrev pub or_next : Option Text → Text → Text
or_next none next = next
or_next (some s) next = s

abbrev pub or_default : Text → Text
or_default [] = codes "Beneficiario"
or_default (c ∷ s) = c ∷ s

abbrev pub beneficiary : FetchedCharge → Text
beneficiary f = or_default (
    strip (
      or_next (truthy f.nome) (
        or_next (truthy f.name) (
          or_next (truthy (some (take 60 (text_of f.solicitacao))))
            (or_next (truthy f.description) (codes "Beneficiario"))))))

-- The slice of a null, which is taken where the payer has no name, raises.
abbrev pub name_raises : FetchedCharge → Bool
name_raises f =
    f.solicitacao_is_null && is_empty_text (text_of f.nome) && is_empty_text (text_of f.name)

abbrev pub valued : FetchedCharge → AmountField → Fetched
valued f missing = unread
valued f bad_amount = unread
valued f (amount v) =
    if name_raises f
    then unread
    else located f (record {
      value = v;
      beneficiary_name = beneficiary f;
      txid = truthy (some (strip (text_of f.txid)));
    })

abbrev pub from_json : Provider → Option Text → Option FetchedCharge
from_json p none = none
from_json p (some json) = p.load json

abbrev pub from_part : Provider → Option Text → Option FetchedCharge
from_part p none = none
from_part p (some part) = from_json p (p.decode (padded part))

abbrev pub loaded : Provider → Text → Text → Option FetchedCharge
loaded p content_type text =
    if is_jws content_type text then from_part p (jws_payload (split_dots text)) else p.load text

abbrev pub live : Option FetchedCharge → Fetched
live none = unread
live (some f) =
    if is_expired_status (upper (text_of f.charge.status))
    then expired
    else if f.valor_is_null
    then unread
    else valued f (raw_value f)

unfoldable pub read_location : Provider → PspAnswer → Fetched
read_location p psp_broken = unread
read_location p (psp_answer code content_type body) =
    if code == 404 || code == 410
    then expired
    else if not (leb 200 code && leb code 299)
    then unread
    else if is_empty_text (strip body)
    then unread
    else live (loaded p content_type (strip body))

-- `_fetch_pix_charge_url`
unfoldable pub fetch_pix_charge_url : Provider → Text → Fetched
unfolding read_location do_fetch
fetch_pix_charge_url p url = read_location p (do_fetch (p.get url) 0 3)
