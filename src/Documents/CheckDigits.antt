-- ===== src/Documents/CheckDigits.antt =====
-- The check digits determine the document: which numbers are accepted, that punctuation does not
-- matter, and that the validator and the fee engine agree on what a company is.
use biocodetechpay.Prelude.{
  ℕ, zero, suc, ◌+◌, ◌-◌, ◌*◌, ◌<◌, ◌≡◌, refl, sym, ◌∙◌, ap, ap₂, true, false, List, [], ◌∷◌, ◌++◌,
  Text, is_digit, length, get_or, All, arith, get_or-append, get_or-append_end, eq_of_get_or,
  All-get_or, All-append, All-keep_if, keep_if-All, length-append,
}
use biocodetechpay.Documents.{
  digits_only, validate_cpf, validate_cnpj, validate_document, cpf, cnpj, cpf_check, cnpj_check,
  weights1, weights2, all_equal, int_at, sum_range,
}
use biocodetechpay.Fees.{is_pj}
use native.Mathlib.Decide.{dec_lt}

abbrev pub IsDigits : Text → Type 0
IsDigits = All (λ c. is_digit c ≡ true)

pub digits_only-IsDigits : (s : Text) → IsDigits (digits_only s)
unfolding digits_only
digits_only-IsDigits s = All-keep_if is_digit s

pub digits_only_of_digits : (s : Text) → IsDigits s → digits_only s ≡ s
unfolding digits_only
digits_only_of_digits s h = keep_if-All is_digit s h

-- Two texts with the same digits in the first `n` places.
abbrev pub Agree : ℕ → Text → Text → Type 0
Agree n s t = (i : ℕ) → i < n → int_at s i ≡ int_at t i

sum_range_congr :
    (n : ℕ) (f g : ℕ → ℕ) → ((i : ℕ) → i < n → f i ≡ g i) → sum_range n f ≡ sum_range n g
sum_range_congr zero f g h = refl
sum_range_congr (suc n) f g h =
    ap₂ ◌+◌ (sum_range_congr n f g (λ i p. h i (omega arith))) (h n (omega arith))

pub cpf_check_congr : (n : ℕ) (s t : Text) → Agree n s t → cpf_check n s ≡ cpf_check n t
unfolding cpf_check
cpf_check_congr n s t h = rw (
    sum_range_congr n (λ i. int_at s i * (n + 1 - i)) (λ i. int_at t i * (n + 1 - i))
      (λ i p. ap (λ (d : ℕ). d * (n + 1 - i)) (h i p)))

pub cnpj_check_congr :
    (n : ℕ) (w : List ℕ) (s t : Text) → Agree n s t → cnpj_check n w s ≡ cnpj_check n w t
unfolding cnpj_check
cnpj_check_congr n w s t h = rw (
    sum_range_congr n (λ i. int_at s i * get_or w i 0) (λ i. int_at t i * get_or w i 0)
      (λ i p. ap (λ (d : ℕ). d * get_or w i 0) (h i p)))

Agree-suc : (n : ℕ) (s t : Text) → Agree n s t → int_at s n ≡ int_at t n → Agree (n + 1) s t
Agree-suc n s t h e i p = elim (dec_lt i n) [
  | yes q ↦ h i q
  | no q ↦ let last : i ≡ n = omega arith in rw last e
]

char_eq : (c d : ℕ) → is_digit c ≡ true → is_digit d ≡ true → c - 48 ≡ d - 48 → c ≡ d
char_eq c d hc hd e = ground arith

-- Digits that agree everywhere are the same digits.
eq_of_Agree :
    (s t : Text) → IsDigits s → IsDigits t → length s ≡ length t → Agree (length s) s t → s ≡ t
eq_of_Agree s t hs ht e h = eq_of_get_or s t 48 e λ i p.
    char_eq (get_or s i 48) (get_or t i 48) (All-get_or _ s i 48 hs p)
      (All-get_or _ t i 48 ht (omega arith)) (h i p)

-- What acceptance says of the digits.
cpf_parts :
    (text : Text)
    → validate_cpf text ≡ true
    → (length (digits_only text) ≡ 11)
      × (cpf_check 9 (digits_only text) ≡ int_at (digits_only text) 9)
      × (cpf_check 10 (digits_only text) ≡ int_at (digits_only text) 10)
unfolding validate_cpf
cpf_parts text h = ground arith

cnpj_parts :
    (text : Text)
    → validate_cnpj text ≡ true
    → (length (digits_only text) ≡ 14)
      × (cnpj_check 12 weights1 (digits_only text) ≡ int_at (digits_only text) 12)
      × (cnpj_check 13 weights2 (digits_only text) ≡ int_at (digits_only text) 13)
unfolding validate_cnpj
cnpj_parts text h = ground arith

-- The first nine digits determine a CPF: two accepted ones that agree there have the same digits.
pub cpf_unique :
    (a b : Text)
    → validate_cpf a ≡ true
    → validate_cpf b ≡ true
    → Agree 9 (digits_only a) (digits_only b)
    → digits_only a ≡ digits_only b
cpf_unique a b ha hb h =
    let s = digits_only a in
    let t = digits_only b in
    let (la, a9, a10) = cpf_parts a ha in
    let (lb, b9, b10) = cpf_parts b hb in
    let ten = Agree-suc 9 s t h (sym a9 ∙ cpf_check_congr 9 s t h ∙ b9) in
    let eleven = Agree-suc 10 s t ten (sym a10 ∙ cpf_check_congr 10 s t ten ∙ b10) in
    eq_of_Agree s t (digits_only-IsDigits a) (digits_only-IsDigits b) (la ∙ sym lb) (rw la eleven)

-- The first twelve digits determine a CNPJ.
pub cnpj_unique :
    (a b : Text)
    → validate_cnpj a ≡ true
    → validate_cnpj b ≡ true
    → Agree 12 (digits_only a) (digits_only b)
    → digits_only a ≡ digits_only b
cnpj_unique a b ha hb h =
    let s = digits_only a in
    let t = digits_only b in
    let (la, a12, a13) = cnpj_parts a ha in
    let (lb, b12, b13) = cnpj_parts b hb in
    let thirteen = Agree-suc 12 s t h (sym a12 ∙ cnpj_check_congr 12 weights1 s t h ∙ b12) in
    let fourteen =
      Agree-suc 13 s t thirteen (sym a13 ∙ cnpj_check_congr 13 weights2 s t thirteen ∙ b13) in
    eq_of_Agree s t (digits_only-IsDigits a) (digits_only-IsDigits b) (la ∙ sym lb) (rw la fourteen)

-- A document that is accepted as a CNPJ is a company to the fee engine, and one that is accepted as
-- a CPF is not.
pub validate_document-is_pj :
    (text : Text)
    → (validate_document text ≡ (true, cnpj) → is_pj text ≡ true)
      × (validate_document text ≡ (true, cpf) → is_pj text ≡ false)
unfolding validate_document is_pj
validate_document-is_pj text = ground arith

check_digit_lt : (n : ℕ) (s : Text) → cpf_check n s < 10
unfolding cpf_check
check_digit_lt n s = ground arith

-- The text with the check digit of its first `n` digits appended.
abbrev pub with_check : ℕ → Text → Text
with_check n s = s ++ (b'0' + cpf_check n s) ∷ []

with_check_lem :
    (n : ℕ) (s : Text)
    → IsDigits s
    → length s ≡ n
    → IsDigits (with_check n s)
      × (length (with_check n s) ≡ n + 1)
      × (cpf_check n (with_check n s) ≡ cpf_check n s)
      × (int_at (with_check n s) n ≡ cpf_check n s)
with_check_lem n s h e = (
  All-append _ s _ h (ground (arith, check_digit_lt n s), tt),
  omega (arith, length-append s ((b'0' + cpf_check n s) ∷ [])),
  cpf_check_congr n (with_check n s) s
      (λ i p. ap (λ (c : ℕ). c - 48) (get_or-append s _ i 48 (omega arith))),
  rw (← e) (rw get_or-append_end (omega arith)),
)

cpf_accepts :
    (s : Text)
    → IsDigits s
    → length s ≡ 11
    → all_equal s ≡ false
    → cpf_check 9 s ≡ int_at s 9
    → cpf_check 10 s ≡ int_at s 10
    → validate_cpf s ≡ true
unfolding validate_cpf
cpf_accepts s h e ne c9 c10 = rw (digits_only_of_digits s h) (ground arith)

-- Nine digits are completed to an accepted CPF by the two check digits, unless all eleven are equal.
pub cpf_complete :
    (base : Text)
    → IsDigits base
    → length base ≡ 9
    → all_equal (with_check 10 (with_check 9 base)) ≡ false
    → validate_cpf (with_check 10 (with_check 9 base)) ≡ true
cpf_complete base h e ne =
    let ten = with_check 9 base in
    let eleven = with_check 10 ten in
    let (h10, e10, c9, i9) = with_check_lem 9 base h e in
    let (h11, e11, c10, i10) = with_check_lem 10 ten h10 e10 in
    let same : Agree 10 eleven ten =
      λ i p. ap (λ (c : ℕ). c - 48) (get_or-append ten _ i 48 (omega arith)) in
    cpf_accepts eleven h11 e11 ne
      (cpf_check_congr 9 eleven ten (λ i p. same i (omega arith))
        ∙ c9
        ∙ sym i9
        ∙ sym (same 9 (omega arith)))
      (c10 ∙ sym i10)
