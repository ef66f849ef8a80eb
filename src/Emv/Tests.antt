-- ===== src/Emv/Tests.antt =====
-- Runs of the builder and the readers, and the theorems at a payload.
use biocodetechpay.Prelude.{◌≡◌, refl, true, false, some, codes}
use biocodetechpay.Money.Format.{two_digits, print_nat, format_amount}
use biocodetechpay.Emv.Tlv.{walk_tlv, tlv, scan, py_slice, int_text}
use biocodetechpay.Emv.Build.{build_pix_static_emv, merchant_account, additional, crc16_ccitt}
use biocodetechpay.Emv.Parse.{
  validate_pix_crc, extract_emv_merchant, extract_txid_field62, parse_emv_top_level, txid_of,
}
use biocodetechpay.Emv.Hang.{walk_hangs}

-- The check value of CRC-16/CCITT-FALSE.
crc_check : crc16_ccitt (codes "123456789") ≡ codes "29B1"
unfolding crc16_ccitt
crc_check = refl

merchant :
    extract_emv_merchant 20 (build_pix_static_emv (codes "ab-12") 1050)
    ≡ some (codes "BioCodeTechPay")
unfolding extract_emv_merchant parse_emv_top_level scan py_slice int_text build_pix_static_emv
    merchant_account additional tlv two_digits print_nat format_amount crc16_ccitt
merchant = refl

transaction_id :
    extract_txid_field62 20 (build_pix_static_emv (codes "ab-12") 1050) ≡ some (some (codes "ab12"))
unfolding extract_txid_field62 parse_emv_top_level txid_of scan py_slice int_text
    build_pix_static_emv merchant_account additional tlv two_digits print_nat format_amount
    crc16_ccitt
transaction_id = refl

valid : validate_pix_crc (build_pix_static_emv (codes "ab-12") 1050) ≡ true
unfolding validate_pix_crc build_pix_static_emv merchant_account additional tlv two_digits print_nat
    format_amount crc16_ccitt
valid = refl

walk_hangs_example : (walk_tlv 1000 (codes "00-401")).ended ≡ false
walk_hangs_example = walk_hangs 1000 b'0' b'0' (codes "01")
