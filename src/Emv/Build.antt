-- ===== src/Emv/Build.antt =====
-- The static payloads of app/core/pix_emv.py, with their CRC-16.
use Prim.Native.Nat.{bit_and, bit_xor}
use biocodetechpay.Prelude.{
  ℕ, zero, suc, ◌+◌, ◌-◌, ◌*◌, ◌%◌, ◌/◌, not, [], ◌∷◌, ◌++◌, Text, codes, take, keep_if, ltb, ◌==◌,
  if◌then◌else◌,
}
use biocodetechpay.Money.{Cents}
use biocodetechpay.Money.Format.{format_amount}
use biocodetechpay.Emv.Tlv.{tlv}

-- One of the eight rounds: `(crc << 1) ^ 0x1021 if crc & 0x8000 else crc << 1`, cut to 16 bits.
abbrev pub crc_round : ℕ → ℕ
crc_round crc = (if bit_and crc 32768 == 0 then crc * 2 else bit_xor (crc * 2) 4129) % 65536

abbrev pub crc_rounds : ℕ → ℕ → ℕ
crc_rounds zero crc = crc
crc_rounds (suc n) crc = crc_rounds n (crc_round crc)

abbrev pub crc_bytes : Text → ℕ → ℕ
crc_bytes [] crc = crc
crc_bytes (byte ∷ emv) crc = crc_bytes emv (crc_rounds 8 (bit_xor crc (byte * 256)))

-- A digit of `format(crc, "04X")`.
abbrev pub hex_digit : ℕ → ℕ
hex_digit d = if ltb d 10 then b'0' + d else b'A' + d - 10

abbrev pub hex4 : ℕ → Text
hex4 crc =
    hex_digit (crc / 4096 % 16)
    ∷ hex_digit (crc / 256 % 16)
    ∷ hex_digit (crc / 16 % 16)
    ∷ hex_digit (crc % 16)
    ∷ []

-- `crc16_ccitt`, on ASCII text, whose bytes are its characters.
unfoldable pub crc16_ccitt : Text → Text
crc16_ccitt emv = hex4 (crc_bytes emv 65535)

-- `key.replace("-", "")[:25]`
abbrev pub txid : Text → Text
txid key = take 25 (keep_if (λ c. not (c == b'-')) key)

unfoldable pub merchant_account : Text → Text
merchant_account key =
    tlv (codes "26") (tlv (codes "00") (codes "BR.GOV.BCB.PIX") ++ tlv (codes "01") key)

unfoldable pub additional : Text → Text
additional key = tlv (codes "62") (tlv (codes "05") (txid key))

-- `payload + crc16_ccitt(payload)`
abbrev pub sealed : Text → Text
sealed payload = payload ++ crc16_ccitt payload

unfoldable pub build_pix_static_emv : Text → Cents → Text
build_pix_static_emv charge_id value = sealed (
    tlv (codes "00") (codes "01")
    ++ tlv (codes "01") (codes "11")
    ++ merchant_account charge_id
    ++ tlv (codes "52") (codes "0000")
    ++ tlv (codes "53") (codes "986")
    ++ tlv (codes "54") (format_amount b'.' value)
    ++ tlv (codes "58") (codes "BR")
    ++ tlv (codes "59") (codes "BioCodeTechPay")
    ++ tlv (codes "60") (codes "BRASILIA")
    ++ additional charge_id
    ++ codes "6304")

unfoldable pub build_pix_static_emv_no_amount : Text → Text → Text
build_pix_static_emv_no_amount pix_key merchant_name = sealed (
    tlv (codes "00") (codes "01")
    ++ tlv (codes "01") (codes "12")
    ++ merchant_account pix_key
    ++ tlv (codes "52") (codes "0000")
    ++ tlv (codes "53") (codes "986")
    ++ tlv (codes "58") (codes "BR")
    ++ tlv (codes "59") (take 25 merchant_name)
    ++ tlv (codes "60") (codes "BRASILIA")
    ++ additional pix_key
    ++ codes "6304")
