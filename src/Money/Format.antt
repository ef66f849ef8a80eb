-- ===== src/Money/Format.antt =====
-- Python's decimal formats: `str(n)`, `f"{n:02d}"` and the two-place form `f"{x:.2f}"` of an amount
-- in whole cents (app/core/fees.py, app/core/pix_emv.py).
use biocodetechpay.Prelude.{
  ℕ, zero, suc, ◌+◌, ◌/◌, ◌%◌, ◌<◌, ◌≡◌, refl, true, false, Text, ◌++◌, [], ◌∷◌, ltb, arith,
  if◌then◌else◌, codes,
}
use biocodetechpay.Money.{Cents}

abbrev pub digit_char : ℕ → ℕ
digit_char d = b'0' + d

-- Decimal digits, highest first; the fuel is one more than the number.
print_fuel : ℕ → ℕ → Text
print_fuel zero n = []
print_fuel (suc fuel) n = elim (ltb n 10) [
  | true ↦ digit_char n ∷ []
  | false ↦ print_fuel fuel (n / 10) ++ digit_char (n % 10) ∷ []
]

-- `str(n)`
unfoldable pub print_nat : ℕ → Text
unfolding print_fuel
print_nat n = print_fuel (suc n) n

-- `f"{n:02d}"`: at least two digits.
unfoldable pub two_digits : ℕ → Text
unfolding print_nat
two_digits n = if ltb n 10 then b'0' ∷ print_nat n else print_nat n

-- An amount with two places, after the given decimal mark.
unfoldable pub format_amount : ℕ → Cents → Text
unfolding print_nat
format_amount mark c =
    print_nat (c / 100) ++ mark ∷ digit_char (c % 100 / 10) ∷ digit_char (c % 10) ∷ []

-- Below a hundred the length prefix of a field is exactly two characters.
pub two_digits_lem :
    (n : ℕ) → n < 100 → two_digits n ≡ digit_char (n / 10) ∷ digit_char (n % 10) ∷ []
unfolding two_digits print_nat print_fuel
two_digits_lem zero h = refl
two_digits_lem (suc m) h = ground arith

formats : format_amount b'.' 123456 ≡ codes "1234.56"
unfolding format_amount
formats = refl

formats_small : format_amount b',' 7 ≡ codes "0,07"
unfolding format_amount
formats_small = refl
