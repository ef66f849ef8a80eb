-- ===== src/Boleto/Barcode.antt =====
-- `_mod10`, `_mod11_bank` and `validate_barcode` of app/boleto/service.py.
use biocodetechpay.Prelude.{
  ℕ, zero, suc, ◌+◌, ◌-◌, ◌*◌, ◌%◌, Bool, true, false, not, ◌&&◌, ◌||◌, List, [], ◌∷◌, ◌++◌,
  reverse, Text, isdigit, strip, length, get_or, slice, drop, ltb, ◌==◌, if◌then◌else◌,
}

-- `int(ch)`
abbrev pub digit_value : ℕ → ℕ
digit_value ch = ch - b'0'

-- What one digit adds to the sum of `_mod10` under weight 2 or 1.
abbrev pub mod10_term : ℕ → ℕ → ℕ
mod10_term weight ch =
    let product = digit_value ch * weight in if ltb product 10 then product else product - 9

-- The loop of `_mod10` over the reversed digits, from index `i`; `weights[i % 2]` is 2 or 1.
abbrev pub mod10_loop : ℕ → Text → ℕ → ℕ
mod10_loop i [] total = total
mod10_loop i (ch ∷ rest) total =
    mod10_loop (i + 1) rest (total + mod10_term (get_or (2 ∷ 1 ∷ []) (i % 2) 0) ch)

unfoldable pub mod10 : Text → ℕ
mod10 digits =
    let remainder = mod10_loop 0 (reverse digits) 0 % 10 in
    if remainder == 0 then 0 else 10 - remainder

-- `list(range(2, 10))`
abbrev pub mod11_weights : List ℕ
mod11_weights = 2 ∷ 3 ∷ 4 ∷ 5 ∷ 6 ∷ 7 ∷ 8 ∷ 9 ∷ []

abbrev pub mod11_loop : ℕ → Text → ℕ → ℕ
mod11_loop i [] total = total
mod11_loop i (ch ∷ rest) total =
    mod11_loop (i + 1) rest (total + digit_value ch * get_or mod11_weights (i % 8) 0)

unfoldable pub mod11_bank : Text → ℕ
mod11_bank digits =
    let remainder = mod11_loop 0 (reverse digits) 0 % 11 in
    if remainder == 0 || remainder == 1 then 1 else 11 - remainder

-- `int(cleaned[i])`; every index below is within the length that was tested.
abbrev pub digit_at : Text → ℕ → ℕ
digit_at s i = digit_value (get_or s i b'0')

-- The loop over the blocks of twelve from block `i`, with `n` blocks to go.
abbrev pub utility_blocks : ℕ → ℕ → Text → Bool
utility_blocks zero i cleaned = true
utility_blocks (suc n) i cleaned =
    if not (mod10 (slice (i * 12) (i * 12 + 11) cleaned) == digit_at cleaned (i * 12 + 11))
    then false
    else utility_blocks n (i + 1) cleaned

unfoldable pub validate_barcode : Text → Bool
validate_barcode barcode =
    let cleaned = strip barcode in
    if not (isdigit cleaned)
    then false
    else if length cleaned == 47
    then mod10 (slice 0 9 cleaned) == digit_at cleaned 9
      && mod10 (slice 10 20 cleaned) == digit_at cleaned 20
      && mod10 (slice 21 31 cleaned) == digit_at cleaned 31
    else if length cleaned == 44 && not (get_or cleaned 0 b'0' == b'8')
    then mod11_bank (slice 0 4 cleaned ++ drop 5 cleaned) == digit_at cleaned 4
    else if length cleaned == 48 && get_or cleaned 0 b'0' == b'8'
    then utility_blocks 4 0 cleaned
    else if length cleaned == 44 && get_or cleaned 0 b'0' == b'8'
    then true
    else false
