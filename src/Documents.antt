-- ===== src/Documents.antt =====
-- CPF and CNPJ validation, app/core/document_validator.py, on ASCII text.
pub mod CheckDigits
mod Tests
use biocodetechpay.Prelude.{
  ℕ, zero, suc, ◌+◌, ◌-◌, ◌*◌, ◌%◌, Bool, true, false, not, ◌&&◌, List, [], ◌∷◌, Text, keep_if,
  is_digit, length, get_or, ◌==◌, ltb, leb, if◌then◌else◌,
}

-- `_digits_only`
unfoldable pub digits_only : Text → Text
digits_only value = keep_if is_digit value

-- `sum(f(i) for i in range(n))`
abbrev pub sum_range : ℕ → (ℕ → ℕ) → ℕ
sum_range zero f = 0
sum_range (suc n) f = sum_range n f + f n

-- `int(s[i])`; every index below is within the length that was tested.
abbrev pub int_at : Text → ℕ → ℕ
int_at s i = get_or s i b'0' - b'0'

-- `len(set(s)) == 1`
abbrev pub all_equal : Text → Bool
all_equal [] = false
all_equal (c ∷ []) = true
all_equal (c ∷ d ∷ s) = c == d && all_equal (d ∷ s)

-- The check digit of the first `n` digits of a CPF, the highest weight being `n + 1`.
unfoldable pub cpf_check : ℕ → Text → ℕ
cpf_check n cpf =
    let total = sum_range n (λ i. int_at cpf i * (n + 1 - i)) in
    let remainder = total * 10 % 11 in if leb 10 remainder then 0 else remainder

unfoldable pub validate_cpf : Text → Bool
unfolding digits_only
validate_cpf text =
    let cpf = digits_only text in
    if not (length cpf == 11)
    then false
    else if all_equal cpf
    then false
    else if not (cpf_check 9 cpf == int_at cpf 9)
    then false
    else if not (cpf_check 10 cpf == int_at cpf 10)
    then false
    else true

abbrev pub weights1 : List ℕ
weights1 = 5 ∷ 4 ∷ 3 ∷ 2 ∷ 9 ∷ 8 ∷ 7 ∷ 6 ∷ 5 ∷ 4 ∷ 3 ∷ 2 ∷ []

abbrev pub weights2 : List ℕ
weights2 = 6 ∷ weights1

-- The check digit of the first `n` digits of a CNPJ under the given weights.
unfoldable pub cnpj_check : ℕ → List ℕ → Text → ℕ
cnpj_check n weights cnpj =
    let total = sum_range n (λ i. int_at cnpj i * get_or weights i 0) in
    let remainder = total % 11 in if ltb remainder 2 then 0 else 11 - remainder

unfoldable pub validate_cnpj : Text → Bool
unfolding digits_only
validate_cnpj text =
    let cnpj = digits_only text in
    if not (length cnpj == 14)
    then false
    else if all_equal cnpj
    then false
    else if not (cnpj_check 12 weights1 cnpj == int_at cnpj 12)
    then false
    else if not (cnpj_check 13 weights2 cnpj == int_at cnpj 13)
    then false
    else true

-- The second part of the result of `validate_document`: the kind of document, or the reason.
pub data Verdict : Type 0 where
  cpf cnpj invalid_cpf invalid_cnpj wrong_length : Verdict

unfoldable pub validate_document : Text → Bool × Verdict
unfolding digits_only
validate_document cpf_cnpj =
    let digits = digits_only cpf_cnpj in
    if length digits == 11
    then (if validate_cpf digits then (true, cpf) else (false, invalid_cpf))
    else if length digits == 14
    then (if validate_cnpj digits then (true, cnpj) else (false, invalid_cnpj))
    else (false, wrong_length)
