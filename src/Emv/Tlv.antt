-- ===== src/Emv/Tlv.antt =====
-- `_tlv`, and the loop of `_walk_tlv` and of `_parse_emv_top_level`. Positions are signed, since the
-- length that `int` reads may be negative, and Python slices count from the end there.
use biocodetechpay.Prelude.{
  ℕ, zero, suc, ◌+◌, ◌-◌, ◌*◌, min, ℤ, pos, negsuc, ◌+ℤ◌, ◌-ℤ◌, leb_ℤ, ltb_ℤ, Bool, true, false,
  not, ◌&&◌, ◌||◌, List, [], ◌∷◌, ◌++◌, Option, none, some, Text, codes, text_eq, is_digit,
  is_space, length, slice, ◌==◌, if◌then◌else◌,
}
use biocodetechpay.Money.Format.{two_digits}

-- `_tlv`
unfoldable pub tlv : Text → Text → Text
unfolding two_digits
tlv tag value = tag ++ two_digits (length value) ++ value

-- `int(s)` on one or two ASCII characters: digits, white space around a digit, or a sign before it.
abbrev pub int_pair : ℕ → ℕ → Option ℤ
int_pair c d =
    if is_digit c && is_digit d
    then some (pos (10 * (c - b'0') + (d - b'0')))
    else if is_digit d && (is_space c || c == b'+')
    then some (pos (d - b'0'))
    else if is_digit c && is_space d
    then some (pos (c - b'0'))
    else if is_digit d && c == b'-'
    then some (pos 0 -ℤ pos (d - b'0'))
    else none

unfoldable pub int_text : Text → Option ℤ
unfolding ◌-ℤ◌
int_text [] = none
int_text (c ∷ []) = if is_digit c then some (pos (c - b'0')) else none
int_text (c ∷ d ∷ []) = int_pair c d
int_text (c ∷ d ∷ e ∷ s) = none

-- Where a Python slice of a text of the given length begins or ends.
abbrev pub slice_index : ℕ → ℤ → ℕ
slice_index n (pos i) = min i n
slice_index n (negsuc i) = n - suc i

-- `s[i:j]`
unfoldable pub py_slice : ℤ → ℤ → Text → Text
py_slice i j s = slice (slice_index (length s) i) (slice_index (length s) j) s

-- The fields that the loop has yielded, and whether it has ended within the fuel.
pub record Scan : Type 0 where
  pub fields : List (Text × Text)
  pub ended : Bool

abbrev pub yields : Text × Text → Scan → Scan
yields field s = record { fields = field ∷ s.fields; ended = s.ended }

abbrev pub stopped : Scan
stopped = record { fields = []; ended = true }

-- The loop from position `p`; the tags that pass `stop` end it.
unfoldable pub scan : (Text → Bool) → ℕ → ℤ → Text → Scan
unfolding ◌+ℤ◌ int_text py_slice
scan stop zero p emv = record { fields = []; ended = false }
scan stop (suc fuel) p emv =
    let tag = py_slice p (p +ℤ pos 2) emv in
    if not (leb_ℤ (p +ℤ pos 4) (pos (length emv))) || stop tag
    then stopped
    else elim (int_text (py_slice (p +ℤ pos 2) (p +ℤ pos 4) emv)) [
      | none ↦ stopped
      | some n ↦ elim (ltb_ℤ (pos (length emv)) (p +ℤ pos 4 +ℤ n)) [
        | true ↦ stopped
        | false ↦
            yields (tag, py_slice (p +ℤ pos 4) (p +ℤ pos 4 +ℤ n) emv)
              (scan stop fuel (p +ℤ pos 4 +ℤ n) emv)
      ]
    ]

-- `_walk_tlv`, which has no terminal tag, and the loop of `_parse_emv_top_level`, which stops at
-- `63`.
abbrev pub walk_tlv : ℕ → Text → Scan
walk_tlv fuel emv = scan (λ tag. false) fuel (pos 0) emv

abbrev pub scan_top_level : ℕ → Text → Scan
scan_top_level fuel emv = scan (λ tag. text_eq tag (codes "63")) fuel (pos 0) emv

-- `fields.get(tag, "")` of the dictionary: a later field replaces an earlier one.
abbrev pub get_field : Text → List (Text × Text) → Text → Text
get_field tag [] found = found
get_field tag (f ∷ fields) found = get_field tag fields (if text_eq f.0 tag then f.1 else found)
