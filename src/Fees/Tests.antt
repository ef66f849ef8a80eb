-- ===== src/Fees/Tests.antt =====
-- Runs of the fee engine at concrete amounts, and the theorems at concrete inputs.
use biocodetechpay.Prelude.{◌≡◌, refl, codes, Text}
use biocodetechpay.Fees.{calculate_pix_outbound_fee, is_pj, display}

abbrev company : Text
company = codes "11.222.333/0001-81"

abbrev person : Text
person = codes "529.982.247-25"

runs : calculate_pix_outbound_fee company 123456 ≡ 988
unfolding calculate_pix_outbound_fee is_pj
runs = refl

shows : display 988 ≡ codes "R$ 9,88"
unfolding display
shows = refl
