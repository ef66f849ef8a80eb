-- ===== src/Emv/Checksum.antt =====
-- Which sealed payloads the checksum test accepts.
use mathlib.Core.List.{append_assoc}
use biocodetechpay.Prelude.{
  ℕ, ◌%◌, ◌/◌, ◌<◌, ◌≡◌, refl, ap, ◌∙◌, false, not, [], ◌∷◌, ◌++◌, some, Text, codes, text_eq,
  text_eq_refl, strip, take, arith, if◌then◌else◌, Bool-cases, inl, inr,
}
use biocodetechpay.Emv.Build.{crc16_ccitt, crc_bytes, sealed, hex_digit, hex4}
use biocodetechpay.Emv.Parse.{split_last_tag, validate_pix_crc, upper}

-- The last tag of a text that ends in the tag and four further characters.
split_last_sealed :
    (body : Text) (a b c d : ℕ)
    → split_last_tag (body ++ (codes "6304" ++ a ∷ b ∷ c ∷ d ∷ [])) ≡ (
        if text_eq (a ∷ b ∷ c ∷ d ∷ []) (codes "6304")
        then some (body ++ codes "6304", [])
        else some (body, a ∷ b ∷ c ∷ d ∷ []))
split_last_sealed [] a b c d = ground arith
split_last_sealed (x ∷ body) a b c d =
    let rest = split_last_sealed body a b c d in
    elim (Bool-cases (text_eq (a ∷ b ∷ c ∷ d ∷ []) (codes "6304"))) [
      | inl tag ↦ rw (rest, tag, split_last_tag) refl
      | inr other ↦ rw (rest, other, split_last_tag) refl
    ]

split_last_hex4 :
    (body : Text) (n : ℕ)
    → split_last_tag (body ++ (codes "6304" ++ hex4 n)) ≡ (
        if text_eq (hex4 n) (codes "6304")
        then some (body ++ codes "6304", [])
        else some (body, hex4 n))
split_last_hex4 body n =
    split_last_sealed body (hex_digit (n / 4096 % 16)) (hex_digit (n / 256 % 16))
      (hex_digit (n / 16 % 16)) (hex_digit (n % 16))

upper_hex : (d : ℕ) (s : Text) → d < 16 → upper (hex_digit d ∷ s) ≡ hex_digit d ∷ upper s
upper_hex d s h = ground arith

-- The checksum is in capitals already.
upper-hex4 : (n : ℕ) → upper (hex4 n) ≡ hex4 n
upper-hex4 n =
    upper_hex (n / 4096 % 16)
      (hex_digit (n / 256 % 16) ∷ hex_digit (n / 16 % 16) ∷ hex_digit (n % 16) ∷ []) (omega arith)
    ∙ ap (◌∷◌ (hex_digit (n / 4096 % 16))) (
        upper_hex (n / 256 % 16) (hex_digit (n / 16 % 16) ∷ hex_digit (n % 16) ∷ []) (omega arith)
        ∙ ap (◌∷◌ (hex_digit (n / 256 % 16))) (
            upper_hex (n / 16 % 16) (hex_digit (n % 16) ∷ []) (omega arith)
            ∙ ap (◌∷◌ (hex_digit (n / 16 % 16))) (upper_hex (n % 16) [] (omega arith))))

validate_split :
    (emv body after : Text)
    → split_last_tag (strip emv) ≡ some (body, after)
    → validate_pix_crc emv ≡ text_eq (upper (take 4 after)) (crc16_ccitt (body ++ codes "6304"))
unfolding validate_pix_crc
validate_split emv body after e = rw (e, validate_pix_crc) refl

empty_crc : (payload : Text) → text_eq [] (crc16_ccitt payload) ≡ false
unfolding crc16_ccitt
empty_crc payload = refl

-- The test on a payload that ends in the tag and four capital hexadecimal digits.
validate_hex4 :
    (emv payload : Text) (n : ℕ)
    → strip emv ≡ payload ++ (codes "6304" ++ hex4 n)
    → crc16_ccitt (payload ++ codes "6304") ≡ hex4 n
    → validate_pix_crc emv ≡ not (text_eq (hex4 n) (codes "6304"))
validate_hex4 emv payload n e crc = elim (Bool-cases (text_eq (hex4 n) (codes "6304"))) [
  | inl tag ↦ rw tag (
      validate_split emv (payload ++ codes "6304") []
        (rw e (split_last_hex4 payload n ∙ rw tag refl))
      ∙ empty_crc (payload ++ codes "6304" ++ codes "6304"))
  | inr other ↦ rw other (
      validate_split emv payload (hex4 n) (rw e (split_last_hex4 payload n ∙ rw other refl))
      ∙ rw crc (ap (λ s. text_eq s (hex4 n)) (upper-hex4 n) ∙ text_eq_refl (hex4 n)))
]

-- A payload that was sealed with its checksum is accepted, unless the checksum itself reads `6304`,
-- which is taken for the tag. Stripping is assumed to leave the payload as it is.
pub sealed_accepted :
    (payload : Text)
    → let emv = sealed (payload ++ codes "6304") in
      strip emv ≡ emv
      → validate_pix_crc emv ≡ not (text_eq (crc16_ccitt (payload ++ codes "6304")) (codes "6304"))
unfolding crc16_ccitt
sealed_accepted payload h =
    let n = crc_bytes (payload ++ codes "6304") 65535 in
    validate_hex4 (sealed (payload ++ codes "6304")) payload n
      (h ∙ append_assoc payload (codes "6304") (hex4 n)) refl
