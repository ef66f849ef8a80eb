-- ===== src/Boleto/Tests.antt =====
-- Runs of the barcode checks, and detection at two runs of digits with one check digit.
use biocodetechpay.Prelude.{◌≡◌, refl, codes, true}
use biocodetechpay.Boleto.Barcode.{validate_barcode, mod10}
use biocodetechpay.Prelude.{ℤ, pos, negsuc, ◌+ℤ◌, ◌-ℤ◌, some, arith}
use biocodetechpay.Fees.{is_pj, calculate_boleto_fee}
use biocodetechpay.Store.{find_user, set_balance}
use biocodetechpay.Pix.Outcome.{ok}
use biocodetechpay.Boleto.Payment.{PaymentCall, process_payment, paid_boleto}
use biocodetechpay.Boleto.Balance.{negative_value_credits}
use biocodetechpay.Pix.Samples.{matrix_email, ana, bank}

abbrev call : ℤ → PaymentCall
call value = record {
  value = value;
  barcode = codes "23793381286008301352856000063307789840000150000";
  user_id = 1;
  new_id = 9;
}

negative_value_credits_example :
    let (db', result) = process_payment matrix_email bank (call (negsuc 10248)) in
    (result ≡ ok (paid_boleto ana (call (negsuc 10248))))
    × (find_user 1 db' ≡ some (set_balance (pos 10000 +ℤ pos 10000) ana))
unfolding calculate_boleto_fee is_pj ◌-ℤ◌
negative_value_credits_example =
    negative_value_credits matrix_email bank ana (call (negsuc 10248)) 10000 refl refl (omega arith)
      refl

luhn_digit : mod10 (codes "237933812") ≡ 8
unfolding mod10
luhn_digit = refl

utility_line : validate_barcode (codes "846700000017435900240209024050002435842210108119") ≡ true
unfolding validate_barcode mod10
utility_line = refl

typeable_line : validate_barcode (codes " 23793381286008301352856000063307789840000150000 ") ≡ true
unfolding validate_barcode mod10
typeable_line = refl
