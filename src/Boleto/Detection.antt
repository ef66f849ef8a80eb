-- ===== src/Boleto/Detection.antt =====
-- The modulo-10 digit of a field catches every error in one digit, so that two typeable lines that
-- differ in one digit of a field are never both accepted.
use biocodetechpay.Prelude.{
  ℕ, zero, suc, ◌+◌, ◌-◌, ◌%◌, ◌<◌, ◌≡◌, refl, sym, ◌∙◌, ap, true, ◌⊎◌, inl, inr, List, [], ◌∷◌,
  ◌++◌, reverse, Text, is_digit, length, get_or, arith, if◌then◌else◌, ◌==◌,
}
use mathlib.Core.List.{reverse-append, reverse-cons, append_assoc}
use biocodetechpay.Boleto.Barcode.{mod10, mod10_term, mod10_loop}

-- The weight at an index is 2 or 1.
weight : ℕ → ℕ
weight i = get_or (2 ∷ 1 ∷ []) (i % 2) 0

-- A sum that starts higher ends higher by as much.
mod10_loop_acc : (s : Text) (i t : ℕ) → mod10_loop i s t ≡ mod10_loop i s 0 + t
mod10_loop_acc [] i t = omega arith
mod10_loop_acc (c ∷ s) i t =
    let w = mod10_term (get_or (2 ∷ 1 ∷ []) (i % 2) 0) c in
    omega (arith, mod10_loop_acc s (i + 1) (t + w), mod10_loop_acc s (i + 1) (0 + w))

mod10_loop-append :
    (s r : Text) (i t : ℕ)
    → mod10_loop i (s ++ r) t ≡ mod10_loop (i + length s) r (mod10_loop i s t)
mod10_loop-append [] r i t = let e : i + 0 ≡ i = omega arith in rw e
mod10_loop-append (c ∷ s) r i t =
    let e : i + suc (length s) ≡ i + 1 + length s = omega arith in
    rw e (mod10_loop-append s r (i + 1) (t + mod10_term (get_or (2 ∷ 1 ∷ []) (i % 2) 0) c))

abbrev luhn_weights : List ℕ
luhn_weights = 2 ∷ 1 ∷ []

weight_cases : (k : ℕ) → k < 2 → (get_or luhn_weights k 0 ≡ 2) ⊎ (get_or luhn_weights k 0 ≡ 1)
weight_cases zero h = inl refl
weight_cases (suc zero) h = inr refl
weight_cases (suc (suc k)) h = absurd (omega arith)

-- Doubling with the digits of the product added is one to one on the digits, and so is weight 1.
term_facts :
    (w a b : ℕ)
    → (w ≡ 2) ⊎ (w ≡ 1)
    → is_digit a ≡ true
    → is_digit b ≡ true
    → (mod10_term w a < 10) × (mod10_term w a ≡ mod10_term w b → a ≡ b)
term_facts w a b (inl e) ha hb = rw e (ground arith)
term_facts w a b (inr e) ha hb = rw e (ground arith)

-- The sum over a text, with the term of the digit at one place set apart.
mod10_loop_at :
    (p q : Text) (a : ℕ)
    → mod10_loop 0 (p ++ a ∷ q) 0
      ≡ mod10_term (weight (length p)) a + (mod10_loop 0 p 0 + mod10_loop (length p + 1) q 0)
unfolding weight
mod10_loop_at p q a =
    let z : 0 + length p ≡ length p = omega arith in
    let w = mod10_term (get_or (2 ∷ 1 ∷ []) (length p % 2) 0) a in
    rw (mod10_loop-append p (a ∷ q) 0 0)
      (rw z (omega (arith, mod10_loop_acc q (length p + 1) (mod10_loop 0 p 0 + w))))

abbrev close : ℕ → ℕ
close total = let remainder = total % 10 in if remainder == 0 then 0 else 10 - remainder

close_injective : (k x y : ℕ) → x < 10 → y < 10 → close (x + k) ≡ close (y + k) → x ≡ y
close_injective k x y hx hy e = ground arith

reverse_at : (xs ys : Text) (a : ℕ) → reverse (xs ++ a ∷ ys) ≡ reverse ys ++ a ∷ reverse xs
reverse_at xs ys a = simp (reverse-append, reverse-cons, append_assoc)

-- Two runs of digits that differ in at most one place and have the same check digit are the same:
-- an error in a single digit is always detected.
pub mod10_detects :
    (xs ys : Text) (a b : ℕ)
    → is_digit a ≡ true
    → is_digit b ≡ true
    → mod10 (xs ++ a ∷ ys) ≡ mod10 (xs ++ b ∷ ys)
    → a ≡ b
unfolding mod10 weight
mod10_detects xs ys a b ha hb e =
    let p = reverse ys in
    let q = reverse xs in
    let w = weight (length p) in
    let k = mod10_loop 0 p 0 + mod10_loop (length p + 1) q 0 in
    let cases = weight_cases (length p % 2) (omega arith) in
    let total = λ (c : ℕ). ap (λ s. mod10_loop 0 s 0) (reverse_at xs ys c) ∙ mod10_loop_at p q c in
    let same : close (mod10_term w a + k) ≡ close (mod10_term w b + k) =
      sym (ap close (total a)) ∙ e ∙ ap close (total b) in
    (term_facts w a b cases ha hb).1 (
      close_injective k (mod10_term w a) (mod10_term w b) (term_facts w a b cases ha hb).0
        (term_facts w b a cases hb ha).0 same)
