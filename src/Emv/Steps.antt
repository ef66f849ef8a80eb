-- ===== src/Emv/Steps.antt =====
-- One round of the loop on a text that has a field at the position.
use biocodetechpay.Prelude.{
  ℕ, suc, ◌+◌, ◌-◌, ◌<◌, ◌≡◌, refl, ℤ, pos, ◌+ℤ◌, leb_ℤ, ltb_ℤ, int_laws, Bool, true, false, ◌++◌,
  some, Text, length, length-append, take-append, drop-append, arith, min,
}
use biocodetechpay.Money.Format.{two_digits, two_digits_lem}
use biocodetechpay.Emv.Tlv.{scan, yields, int_text, py_slice}

pub pos-add : (a b : ℕ) → pos a +ℤ pos b ≡ pos (a + b)
pos-add a b = omega int_laws

-- The middle of a text, by the positions where it begins and ends.
pub py_slice-append :
    (pre mid post : Text)
    → py_slice (pos (length pre)) (pos (length pre + length mid)) (pre ++ (mid ++ post)) ≡ mid
unfolding py_slice
py_slice-append pre mid post =
    let n = length-append pre (mid ++ post) in
    let m = length-append mid post in
    let i : min (length pre) (length (pre ++ (mid ++ post))) ≡ length pre = omega (arith, n, m) in
    let j : min (length pre + length mid) (length (pre ++ (mid ++ post)))
        ≡ length pre + length mid =
      omega (arith, n, m) in
    let k : length pre + length mid - length pre ≡ length mid = omega arith in
    rw (i, j, k, drop-append pre (mid ++ post)) (take-append mid post)

-- The two digits of a length are read back.
pub int_text-two_digits : (n : ℕ) → n < 100 → int_text (two_digits n) ≡ some (pos n)
unfolding int_text
int_text-two_digits n h = rw (two_digits_lem n h) (ground arith)

pub length-two_digits : (n : ℕ) → n < 100 → length (two_digits n) ≡ 2
length-two_digits n h = rw (two_digits_lem n h) refl

pub scan_step :
    (stop : Text → Bool) (fuel : ℕ) (p n : ℤ) (emv tag value : Text)
    → leb_ℤ (p +ℤ pos 4) (pos (length emv)) ≡ true
    → py_slice p (p +ℤ pos 2) emv ≡ tag
    → stop tag ≡ false
    → int_text (py_slice (p +ℤ pos 2) (p +ℤ pos 4) emv) ≡ some n
    → ltb_ℤ (pos (length emv)) (p +ℤ pos 4 +ℤ n) ≡ false
    → py_slice (p +ℤ pos 4) (p +ℤ pos 4 +ℤ n) emv ≡ value
    → scan stop (suc fuel) p emv ≡ yields (tag, value) (scan stop fuel (p +ℤ pos 4 +ℤ n) emv)
unfolding scan
scan_step stop fuel p n emv tag value h1 h2 h3 h4 h5 h6 =
    rw (h1, h2, h3) (rw (h4, scan) (rw (h5, scan) (rw (h2, h6) refl)))
