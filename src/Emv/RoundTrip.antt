-- ===== src/Emv/RoundTrip.antt =====
-- Encoded fields are read back by the loop, in order and to the end.
use mathlib.Core.List.{append_assoc, append-nil}
use biocodetechpay.Prelude.{
  ℕ, zero, suc, ◌+◌, ◌<◌, ◌≡◌, refl, sym, ap, ◌∙◌, ℤ, pos, ◌+ℤ◌, ◌≤ℤ◌, leb_ℤ, int_laws, Bool, true,
  false, List, [], ◌∷◌, ◌++◌, Text, length, length-append, All, arith,
}
use biocodetechpay.Money.Format.{two_digits}
use biocodetechpay.Emv.Tlv.{scan, yields, stopped, int_text, py_slice, tlv, walk_tlv}
use biocodetechpay.Emv.Steps.{py_slice-append, int_text-two_digits, length-two_digits, scan_step}

-- The payload of a list of fields.
abbrev pub encode : List (Text × Text) → Text
encode [] = []
encode (f ∷ fields) = tlv f.0 f.1 ++ encode fields

-- A tag of two characters that does not end the loop, and a length of two digits.
abbrev pub WellFormed : (Text → Bool) → Text × Text → Type 0
WellFormed stop f = (length f.0 ≡ 2) × (stop f.0 ≡ false) × (length f.1 < 100)

slice_at :
    (pre mid post s : Text) (i j : ℤ)
    → s ≡ pre ++ (mid ++ post)
    → i ≡ pos (length pre)
    → j ≡ pos (length pre + length mid)
    → py_slice i j s ≡ mid
slice_at pre mid post s i j e ei ej = rw (e, ei, ej) (py_slice-append pre mid post)

pub length-tlv :
    (tag value : Text)
    → length tag ≡ 2
    → length value < 100
    → length (tlv tag value) ≡ 4 + length value
unfolding tlv
length-tlv tag value ht hv = omega (
  arith,
  ht,
  length-append (tag ++ two_digits (length value)) value,
  length-append tag (two_digits (length value)),
  length-two_digits (length value) hv,
)

field_at :
    (stop : Text → Bool) (fuel : ℕ) (pre tag value rest : Text)
    → WellFormed stop (tag, value)
    → scan stop (suc fuel) (pos (length pre)) (pre ++ (tlv tag value ++ rest))
      ≡ yields
          (tag, value)
          (scan stop fuel
            (pos (length pre) +ℤ pos 4 +ℤ pos (length value))
            (pre ++ (tlv tag value ++ rest)))
unfolding tlv
field_at stop fuel pre tag value rest (ht, hs, hv) =
    let digits = two_digits (length value) in
    let text = pre ++ (tag ++ digits ++ value ++ rest) in
    let p = pos (length pre) in
    let hd = length-two_digits (length value) hv in
    let total : length text ≡ length pre + 4 + length value + length rest = omega (
      arith,
      ht,
      hd,
      length-append pre (tag ++ digits ++ value ++ rest),
      length-append (tag ++ digits ++ value) rest,
      length-append (tag ++ digits) value,
      length-append tag digits,
    ) in
    let before_digits = length-append pre tag in
    let before_value = length-append (pre ++ tag) digits in
    let read_tag =
      slice_at pre tag (digits ++ (value ++ rest)) text p (p +ℤ pos 2) (simp append_assoc) refl
        (omega (int_laws, ht)) in
    let read_length =
      slice_at (pre ++ tag) digits (value ++ rest) text (p +ℤ pos 2) (p +ℤ pos 4)
        (simp append_assoc) (omega (int_laws, ht, before_digits))
        (omega (int_laws, ht, hd, before_digits)) in
    let read_value =
      slice_at (pre ++ tag ++ digits) value rest text (p +ℤ pos 4)
        (p +ℤ pos 4 +ℤ pos (length value)) (simp append_assoc)
        (omega (int_laws, ht, hd, before_digits, before_value))
        (omega (int_laws, ht, hd, before_digits, before_value)) in
    let fits : p +ℤ pos 4 ≤ℤ pos (length text) = omega (int_laws, total) in
    let inside : p +ℤ pos 4 +ℤ pos (length value) ≤ℤ pos (length text) = omega (int_laws, total) in
    scan_step stop fuel p (pos (length value)) text tag value (ground (arith, fits)) read_tag hs
      (ap int_text read_length ∙ int_text-two_digits (length value) hv) (ground (arith, inside))
      read_value

leb_ℤ-false : (a b : ℤ) → ¬ (a ≤ℤ b) → leb_ℤ a b ≡ false
leb_ℤ-false a b h = ground arith

-- The text after the position ends the loop, wherever it stands.
abbrev pub Ends : (Text → Bool) → Text → Type 0
Ends stop rest =
    (fuel : ℕ) (pre : Text) → scan stop (suc fuel) (pos (length pre)) (pre ++ rest) ≡ stopped

pub Ends-nil : (stop : Text → Bool) → Ends stop []
unfolding scan
Ends-nil stop fuel pre =
    let short : leb_ℤ (pos (length pre) +ℤ pos 4) (pos (length (pre ++ []))) ≡ false =
      leb_ℤ-false (pos (length pre) +ℤ pos 4) (pos (length (pre ++ [])))
        (omega (int_laws, length-append pre [])) in
    rw (short, scan) refl

pub Ends-tag :
    (stop : Text → Bool) (tag rest : Text)
    → length tag ≡ 2
    → stop tag ≡ true
    → Ends stop (tag ++ rest)
unfolding scan
Ends-tag stop tag rest ht hs fuel pre =
    let p = pos (length pre) in
    let read =
      slice_at pre tag rest (pre ++ (tag ++ rest)) p (p +ℤ pos 2) refl refl
        (omega (int_laws, ht)) in
    rw (read, hs) (ground arith)

-- From any position, the loop reads exactly the fields that are encoded there, up to a text that ends
-- it.
pub scan-encode :
    (stop : Text → Bool) (fields : List (Text × Text)) (fuel : ℕ) (pre rest : Text)
    → All (WellFormed stop) fields
    → Ends stop rest
    → length fields < fuel
    → scan stop fuel (pos (length pre)) (pre ++ (encode fields ++ rest))
      ≡ record { fields = fields; ended = true }
scan-encode stop [] zero pre rest w end h = absurd (omega arith)
scan-encode stop [] (suc fuel) pre rest w end h = end fuel pre
scan-encode stop (f ∷ fields) zero pre rest w end h = absurd (omega arith)
scan-encode stop (f ∷ fields) (suc fuel) pre rest w end h =
    let (tag, value) = f in
    let next = pre ++ tlv tag value in
    let moved : pos (length pre) +ℤ pos 4 +ℤ pos (length value) ≡ pos (length next) =
      omega (int_laws, length-append pre (tlv tag value), length-tlv tag value w.0.0 w.0.2) in
    let others = scan-encode stop fields fuel next rest w.1 end (omega arith) in
    rw (append_assoc (tlv tag value) (encode fields) rest) (
      field_at stop fuel pre tag value (encode fields ++ rest) w.0
      ∙ rw (moved, sym (append_assoc pre (tlv tag value) (encode fields ++ rest)))
          (ap (yields f) others))

pub encode-append : (xs ys : List (Text × Text)) → encode (xs ++ ys) ≡ encode xs ++ encode ys
encode-append [] ys = refl
encode-append (f ∷ xs) ys =
    rw (encode-append xs ys) (sym (append_assoc (tlv f.0 f.1) (encode xs) (encode ys)))

-- The walk over an encoded list of well-formed fields, with more fuel than there are fields, ends and
-- yields exactly the fields.
pub walk-encode :
    (fields : List (Text × Text)) (fuel : ℕ)
    → All (WellFormed (λ tag. false)) fields
    → length fields < fuel
    → walk_tlv fuel (encode fields) ≡ record { fields = fields; ended = true }
walk-encode fields fuel w h =
    let read = scan-encode (λ tag. false) fields fuel [] [] w (Ends-nil (λ tag. false)) h in
    rw (append-nil (encode fields)) at read
