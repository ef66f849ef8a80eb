-- ===== src/Money.antt =====
-- Money in whole cents, and Python's `Decimal.quantize(Decimal("0.01"), ROUND_HALF_UP)` on
-- amounts that are not negative (app/core/fees.py, app/pix/service.py).
pub mod Format
use biocodetechpay.Prelude.{ℕ, ◌+◌, ◌*◌, ◌/◌, ◌≤◌, ◌<◌, ◌≡◌, arith}

abbrev pub Cents : Type 0
Cents = ℕ

-- Reais and cents, for the amounts that the source writes as `Decimal("3.00")`.
abbrev pub reais : ℕ → ℕ → Cents
reais r c = 100 * r + c

-- An amount of `n / 10000` cents to the nearest whole cent, a half upwards.
unfoldable pub quantize : ℕ → Cents
quantize n = (n + 5000) / 10000

pub quantize_nearest : (n : ℕ) → (10000 * quantize n ≤ n + 5000) × (n < 10000 * quantize n + 5000)
unfolding quantize
quantize_nearest n = omega arith

pub quantize_mono : (m n : ℕ) → m ≤ n → quantize m ≤ quantize n
unfolding quantize
quantize_mono m n h = omega arith

pub quantize_whole : (c : ℕ) → quantize (c * 10000) ≡ c
unfolding quantize
quantize_whole c = omega arith
