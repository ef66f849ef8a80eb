-- ===== src/Emv/Parse.antt =====
-- The readers of app/pix/router.py: the merchant's name, the transaction id and the CRC of a payload.
-- Their loops are those of Tlv, with fuel; `none` is a loop that has not ended within it.
use biocodetechpay.Prelude.{
  ℕ, ◌-◌, Bool, true, List, [], ◌∷◌, ◌++◌, Option, none, some, Text, codes, text_eq, strip,
  starts_with, length, take, drop, ◌==◌, if◌then◌else◌, leb, ◌&&◌,
}
use biocodetechpay.Emv.Tlv.{Scan, walk_tlv, scan_top_level, get_field}
use biocodetechpay.Emv.Build.{crc16_ccitt}

-- The dictionary of a scan that has ended.
abbrev pub completed : Scan → Option (List (Text × Text))
completed s = if s.ended then some s.fields else none

-- `_parse_emv_top_level`
unfoldable pub parse_emv_top_level : ℕ → Text → Option (List (Text × Text))
parse_emv_top_level fuel emv = completed (scan_top_level fuel emv)

-- `_extract_emv_merchant`
unfoldable pub extract_emv_merchant : ℕ → Text → Option Text
unfolding parse_emv_top_level
extract_emv_merchant fuel emv = elim (parse_emv_top_level fuel (strip emv)) [
  | none ↦ none
  | some fields ↦ some (strip (get_field (codes "59") fields []))
]

-- The first field with a tag.
abbrev pub find_field : Text → List (Text × Text) → Option Text
find_field tag [] = none
find_field tag (f ∷ fields) = if text_eq f.0 tag then some f.1 else find_field tag fields

-- `_extract_txid_field62`: the value of sub-tag 05, stripped, where an empty one is missing. The loop
-- returns at the first such field, so what comes after it does not matter.
unfoldable pub txid_of : Option Text → Option Text
txid_of none = none
txid_of (some value) = if length (strip value) == 0 then none else some (strip value)

abbrev pub txid_in : Scan → Option (Option Text)
txid_in inner = elim (find_field (codes "05") inner.fields) [
  | some value ↦ some (txid_of (some value))
  | none ↦ if inner.ended then some none else none
]

abbrev pub txid_among : ℕ → Option (List (Text × Text)) → Option (Option Text)
txid_among fuel none = none
txid_among fuel (some fields) = txid_in (walk_tlv fuel (get_field (codes "62") fields []))

unfoldable pub extract_txid_field62 : ℕ → Text → Option (Option Text)
unfolding parse_emv_top_level txid_of
extract_txid_field62 fuel emv = txid_among fuel (parse_emv_top_level fuel (strip emv))

-- `str.upper` on ASCII text.
abbrev pub upper : Text → Text
upper [] = []
upper (c ∷ s) = (if leb b'a' c && leb c b'z' then c - 32 else c) ∷ upper s

-- What stands before and after the last `6304`, which `rfind` locates.
abbrev pub split_last_tag : Text → Option (Text × Text)
split_last_tag [] = none
split_last_tag (c ∷ s) = elim (split_last_tag s) [
  | some (before, after) ↦ some (c ∷ before, after)
  | none ↦ if starts_with (c ∷ s) (codes "6304") then some ([], drop 4 (c ∷ s)) else none
]

-- `_validate_pix_crc`; a payload with no `6304` passes.
unfoldable pub validate_pix_crc : Text → Bool
validate_pix_crc payload = elim (split_last_tag (strip payload)) [
  | none ↦ true
  | some (body, after) ↦ text_eq (upper (take 4 after)) (crc16_ccitt (body ++ codes "6304"))
]
