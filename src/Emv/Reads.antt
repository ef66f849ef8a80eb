-- ===== src/Emv/Reads.antt =====
-- The static payload is read back field by field.
use mathlib.Core.List.{append_assoc, append-nil}
use biocodetechpay.Prelude.{
  ℕ, zero, suc, ◌<◌, ◌≤◌, take, keep_if, not, ◌==◌, text_eq, length-append, All-append, ◌≡◌, refl,
  sym, Bool, true, false, List, [], ◌∷◌, ◌++◌, Text, codes, length, All, arith,
}
use biocodetechpay.Money.{Cents}
use biocodetechpay.Money.Format.{format_amount, two_digits, print_nat}
use biocodetechpay.Emv.Tlv.{walk_tlv, scan_top_level, tlv}
use biocodetechpay.Emv.Build.{
  build_pix_static_emv, merchant_account, additional, crc16_ccitt, txid, sealed,
}
use biocodetechpay.Emv.RoundTrip.{
  encode, encode-append, walk-encode, length-tlv, WellFormed, Ends, Ends-tag, scan-encode,
}

-- The fields of the merchant account, field 26.
abbrev pub account_fields : Text → List (Text × Text)
account_fields key = (codes "00", codes "BR.GOV.BCB.PIX") ∷ (codes "01", key) ∷ []

-- All fields before the checksum.
abbrev pub static_fields : Text → Cents → List (Text × Text)
static_fields charge_id value =
    (codes "00", codes "01")
    ∷ (codes "01", codes "11")
    ∷ (codes "26", encode (account_fields charge_id))
    ∷ (codes "52", codes "0000")
    ∷ (codes "53", codes "986")
    ∷ (codes "54", format_amount b'.' value)
    ∷ (codes "58", codes "BR")
    ∷ (codes "59", codes "BioCodeTechPay")
    ∷ (codes "60", codes "BRASILIA")
    ∷ (codes "62", encode ((codes "05", txid charge_id) ∷ []))
    ∷ []

-- What the checksum is taken of.
abbrev pub unsealed : Text → Cents → Text
unsealed charge_id value = encode (static_fields charge_id value) ++ codes "6304"

pub build_lem :
    (charge_id : Text) (value : Cents)
    → build_pix_static_emv charge_id value ≡ sealed (unsealed charge_id value)
unfolding build_pix_static_emv merchant_account additional
build_lem charge_id value = simp (append_assoc, append-nil)

tlv_crc :
    (payload : Text) → tlv (codes "63") (crc16_ccitt payload) ≡ codes "6304" ++ crc16_ccitt payload
unfolding crc16_ccitt tlv two_digits print_nat
tlv_crc payload = refl

-- A sealed payload is its fields, the checksum as the last.
sealed_lem :
    (fields : List (Text × Text))
    → let payload = encode fields ++ codes "6304" in
      sealed payload ≡ encode fields ++ (tlv (codes "63") (crc16_ccitt payload) ++ [])
sealed_lem fields = rw (tlv_crc (encode fields ++ codes "6304")) (simp (append_assoc, append-nil))

crc_length : (payload : Text) → length (crc16_ccitt payload) < 100
unfolding crc16_ccitt
crc_length payload = omega arith

sealed-Ends :
    (payload : Text)
    → Ends (λ tag. text_eq tag (codes "63")) (tlv (codes "63") (crc16_ccitt payload) ++ [])
sealed-Ends payload = rw (tlv_crc payload) (
    Ends-tag (λ tag. text_eq tag (codes "63")) (codes "63")
      (codes "04" ++ crc16_ccitt payload ++ []) refl refl)

account_length : (key : Text) → length key < 78 → length (encode (account_fields key)) < 100
account_length key h = omega (
  arith,
  length-append (tlv (codes "00") (codes "BR.GOV.BCB.PIX")) (tlv (codes "01") key ++ []),
  length-append (tlv (codes "01") key) [],
  length-tlv (codes "00") (codes "BR.GOV.BCB.PIX") refl (omega arith),
  length-tlv (codes "01") key refl (omega arith),
)

pub length-take_le : (n : ℕ) (s : Text) → length (take n s) ≤ n
length-take_le zero s = omega arith
length-take_le (suc n) [] = omega arith
length-take_le (suc n) (c ∷ s) = omega (arith, length-take_le n s)

pub additional_length : (key : Text) → length (encode ((codes "05", txid key) ∷ [])) < 100
additional_length key =
    let short = length-take_le 25 (keep_if (λ c. not (c == b'-')) key) in
    omega (
      arith,
      short,
      length-append (tlv (codes "05") (txid key)) [],
      length-tlv (codes "05") (txid key) refl (omega (arith, short)),
    )

-- Every field of the payload is well formed, for a loop that at most stops at the checksum.
static-WellFormed :
    (stop : Text → Bool) (charge_id : Text) (value : Cents)
    → ((tag : Text) → text_eq tag (codes "63") ≡ false → stop tag ≡ false)
    → length charge_id < 78
    → length (format_amount b'.' value) < 100
    → All (WellFormed stop) (static_fields charge_id value)
static-WellFormed stop charge_id value go hi hv = (
  (refl, go (codes "00") refl, omega arith),
  (
    (refl, go (codes "01") refl, omega arith),
    (
      (refl, go (codes "26") refl, account_length charge_id hi),
      (
        (refl, go (codes "52") refl, omega arith),
        (
          (refl, go (codes "53") refl, omega arith),
          (
            (refl, go (codes "54") refl, hv),
            (
              (refl, go (codes "58") refl, omega arith),
              (
                (refl, go (codes "59") refl, omega arith),
                (
                  (refl, go (codes "60") refl, omega arith),
                  ((refl, go (codes "62") refl, additional_length charge_id), tt),
                ),
              ),
            ),
          ),
        ),
      ),
    ),
  ),
)

-- The payload for an identifier of up to 77 characters and an amount that prints in less than a
-- hundred is read to its end: its fields are those that the builder wrote, and the checksum; the
-- merchant account holds the identifier as the key.
pub build_reads :
    (charge_id : Text) (value : Cents) (fuel : ℕ)
    → length charge_id < 78
    → length (format_amount b'.' value) < 100
    → 11 < fuel
    → let crc = crc16_ccitt (unsealed charge_id value) in
      (walk_tlv fuel (build_pix_static_emv charge_id value)
        ≡ record { fields = static_fields charge_id value ++ (codes "63", crc) ∷ []; ended = true })
      × (walk_tlv fuel (encode (account_fields charge_id))
          ≡ record { fields = account_fields charge_id; ended = true })
build_reads charge_id value fuel hi hv hf =
    let crc = crc16_ccitt (unsealed charge_id value) in
    let last : List (Text × Text) = (codes "63", crc) ∷ [] in
    let fields = static_fields charge_id value in
    let all : All (WellFormed (λ tag. false)) (fields ++ last) =
      All-append (WellFormed (λ tag. false)) fields last
        (static-WellFormed (λ tag. false) charge_id value (λ tag _. refl) hi hv)
        ((refl, refl, crc_length (unsealed charge_id value)), tt) in
    (
      rw (build_lem charge_id value, sealed_lem fields, sym (encode-append fields last))
          (walk-encode (fields ++ last) fuel all hf),
      walk-encode (account_fields charge_id) fuel
          ((refl, refl, omega arith), ((refl, refl, omega arith), tt)) (omega arith),
    )

-- Under the same bounds, the loop that stops at the checksum reads exactly the fields before it.
pub build_top_level :
    (charge_id : Text) (value : Cents) (fuel : ℕ)
    → length charge_id < 78
    → length (format_amount b'.' value) < 100
    → 10 < fuel
    → scan_top_level fuel (build_pix_static_emv charge_id value)
      ≡ record { fields = static_fields charge_id value; ended = true }
build_top_level charge_id value fuel hi hv hf =
    rw (build_lem charge_id value, sealed_lem (static_fields charge_id value))
      (scan-encode (λ tag. text_eq tag (codes "63")) (static_fields charge_id value) fuel []
        (tlv (codes "63") (crc16_ccitt (unsealed charge_id value)) ++ [])
        (static-WellFormed (λ tag. text_eq tag (codes "63")) charge_id value (λ tag h. h) hi hv)
        (sealed-Ends (unsealed charge_id value)) hf)
