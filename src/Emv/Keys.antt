-- ===== src/Emv/Keys.antt =====
-- `parse_emv_pix_key`, `parse_emv_payload_url` and `parse_emv_amount` of app/core/pix_emv.py. The
-- loops are those of Tlv, with fuel; an outer `none` is a loop that has not ended within it. Digits
-- and letters are those of ASCII.
use biocodetechpay.Prelude.{
  ℕ, ◌+◌, Bool, true, false, ◌&&◌, ◌||◌, not, List, [], ◌∷◌, ◌++◌, Option, none, some, Text, codes,
  text_eq, strip, starts_with, contains, isdigit, length, take, drop, leb, ◌==◌, if◌then◌else◌, pos,
  leb_ℤ,
}
use biocodetechpay.Money.{Cents}
use biocodetechpay.Emv.Tlv.{Scan, walk_tlv, get_field, int_text}
use biocodetechpay.Emv.Parse.{find_field, upper}

abbrev is_letter : ℕ → Bool
is_letter c = (leb b'a' c && leb c b'z') || (leb b'A' c && leb c b'Z')

abbrev letters : Text → Bool
letters [] = true
letters (c ∷ s) = is_letter c && letters s

-- The characters of a host name.
abbrev is_host : ℕ → Bool
is_host c = is_letter c || (leb b'0' c && leb c b'9') || c == b'.' || c == b'-'

-- A non-empty run of host characters, a dot and at least two letters.
abbrev domain_tail : ℕ → Text → Bool
domain_tail n [] = false
domain_tail n (c ∷ s) =
    (leb 1 n && c == b'.' && leb 2 (length s) && letters s) || (is_host c && domain_tail (n + 1) s)

-- What stands before the first slash, if there is one.
abbrev before_slash : Text → Option Text
before_slash [] = none
before_slash (c ∷ s) =
    if c == b'/'
    then some []
    else elim (before_slash s) [ none ↦ none | some host ↦ some (c ∷ host) ]

-- `_PAYLOAD_URL_DOMAIN_RE`
abbrev is_domain : Option Text → Bool
is_domain none = false
is_domain (some []) = false
is_domain (some (c ∷ s)) = is_letter c && domain_tail 0 s

-- `_is_payload_url`
unfoldable pub is_payload_url : Text → Bool
is_payload_url value =
    starts_with value (codes "https://")
    || starts_with value (codes "http://")
    || starts_with value (codes "pix://")
    || is_domain (before_slash value)

-- `_normalise_payload_url`
unfoldable pub normalise_payload_url : Text → Text
normalise_payload_url url =
    if starts_with (strip url) (codes "pix://")
    then codes "https://" ++ drop 6 (strip url)
    else if not (starts_with (strip url) (codes "http"))
    then codes "https://" ++ strip url
    else strip url

abbrev ends_line : Text → Bool
ends_line [] = true
ends_line (c ∷ []) = c == 10
ends_line (c ∷ d ∷ s) = false

-- The match of `^\d{n}$`, where `$` also stands before a line feed at the end.
abbrev pub is_digits : ℕ → Text → Bool
is_digits n s = length (take n s) == n && isdigit (take n s) && ends_line (drop n s)

-- The type of a key.
unfoldable pub classify_key : Text → Text
classify_key key =
    if contains key (codes "@")
    then codes "EMAIL"
    else if is_digits 14 key
    then codes "CNPJ"
    else if is_digits 11 key
    then codes "CPF"
    else if starts_with key (codes "+")
    then codes "PHONE"
    else codes "EVP"

-- A payload location is no key.
unfoldable pub key_or_url : Text → Option (Text × Text)
unfolding is_payload_url classify_key
key_or_url key = if is_payload_url key then none else some (key, classify_key key)

abbrev pub key_in : ℕ → List (Text × Text) → Bool → Option (Option (Text × Text))
key_in fuel [] ended = if ended then some none else none
key_in fuel (f ∷ fields) ended =
    let rest = key_in fuel fields ended in
    if text_eq f.0 (codes "26")
    then (let inner = walk_tlv fuel f.1 in
        elim (find_field (codes "01") inner.fields) [
          | some key ↦ some (key_or_url key)
          | none ↦ if inner.ended then rest else none
        ])
    else rest

-- `parse_emv_pix_key`
unfoldable pub parse_emv_pix_key : ℕ → Text → Option (Option (Text × Text))
unfolding key_or_url
parse_emv_pix_key fuel emv = let outer = walk_tlv fuel emv in key_in fuel outer.fields outer.ended

-- The tags 26 to 51.
abbrev is_account_tag : Text → Bool
is_account_tag tag = elim (int_text tag) [
  | none ↦ false
  | some tag_id ↦ leb_ℤ (pos 26) tag_id && leb_ℤ tag_id (pos 51)
]

abbrev is_pix_block : Text → Bool
is_pix_block gui = contains gui (codes "BCB.PIX") || contains gui (codes "BR.GOV.BCB")

-- The location in the sub-tags of a block.
unfoldable pub location_of : List (Text × Text) → Option Text
unfolding is_payload_url normalise_payload_url
location_of sub =
    let val25 = get_field (codes "25") sub [] in
    let val01 = get_field (codes "01") sub [] in
    if not (is_pix_block (upper (get_field (codes "00") sub [])))
    then none
    else if contains val25 (codes "/")
    then some (normalise_payload_url val25)
    else if is_payload_url val01
    then some (normalise_payload_url val01)
    else none

abbrev pub url_in : ℕ → List (Text × Text) → Bool → Option (Option Text)
url_in fuel [] ended = if ended then some none else none
url_in fuel (f ∷ fields) ended =
    let rest = url_in fuel fields ended in
    let inner = walk_tlv fuel f.1 in
    if not (is_account_tag f.0)
    then rest
    else if not inner.ended
    then none
    else elim (location_of inner.fields) [ some url ↦ some (some url) | none ↦ rest ]

-- `parse_emv_payload_url`
unfoldable pub parse_emv_payload_url : ℕ → Text → Option (Option Text)
unfolding location_of
parse_emv_payload_url fuel emv =
    let outer = walk_tlv fuel emv in url_in fuel outer.fields outer.ended

-- An amount that is not read is zero.
abbrev pub amount_in : (Text → Option Cents) → Scan → Option Cents
amount_in read_float outer = elim (find_field (codes "54") outer.fields) [
  | some value ↦ elim (read_float value) [ some amount ↦ some amount | none ↦ some 0 ]
  | none ↦ if outer.ended then some 0 else none
]

-- `parse_emv_amount`, with `float` as a parameter.
unfoldable pub parse_emv_amount : (Text → Option Cents) → ℕ → Text → Option Cents
parse_emv_amount read_float fuel emv = amount_in read_float (walk_tlv fuel emv)
