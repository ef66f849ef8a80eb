-- ===== src/Antifraud/Score.antt =====
-- When the engine rejects, what its score means, and that a riskier transaction never scores lower.
use biocodetechpay.Prelude.{
  ℕ, ◌≤◌, ◌<◌, ◌≡◌, ◌↔◌, Bool, false, not, ◌&&◌, ◌||◌, ltb, leb, [], min, arith,
}
use biocodetechpay.Antifraud.{
  AntifraudTransaction, analyze, low, high, engine_rules, level_of, run_rules, approval_limit,
}

-- Two of the three lesser signals: the night hours, more than R$300.00, more than three attempts.
abbrev pub two_signals : AntifraudTransaction → Bool
two_signals t =
    let night = leb 22 t.hour || ltb t.hour 6 in
    let large = ltb 30000 t.value in
    let many = ltb 3 t.attempts_last_24h in (night && large) || (night && many) || (large && many)

-- A transaction is rejected exactly when it is above R$1000.00 or shows two of the three signals:
-- night hours, more than R$300.00, more than three attempts in a day.
pub analyze_approved :
    (t : AntifraudTransaction) → (analyze t).approved ≡ not (ltb 100000 t.value || two_signals t)
unfolding analyze
analyze_approved t = ground arith

-- What a capped total means, for any total.
levels_of_total :
    (total : ℕ)
    → let score = min total 100 in
      (score ≤ 100)
      × ((level_of score ≡ low) ↔ (score < 30))
      × ((level_of score ≡ high) ↔ (60 ≤ score))
      × ((ltb score approval_limit ≡ false) ↔ (level_of score ≡ high))
levels_of_total total = ground arith

-- The score is at most 100; the risk is low exactly below 30 and high exactly from 60 on, and a
-- transaction is rejected exactly at high risk.
pub analyze_levels :
    (t : AntifraudTransaction)
    → ((analyze t).score ≤ 100)
      × (((analyze t).risk_level ≡ low) ↔ ((analyze t).score < 30))
      × (((analyze t).risk_level ≡ high) ↔ (60 ≤ (analyze t).score))
      × (((analyze t).approved ≡ false) ↔ ((analyze t).risk_level ≡ high))
unfolding analyze
analyze_levels t = levels_of_total (run_rules engine_rules t 0 []).0

-- At the same hour, with at least as much money and at least as many attempts, the score is at least
-- as high.
pub analyze_mono :
    (t u : AntifraudTransaction)
    → t.hour ≡ u.hour
    → t.value ≤ u.value
    → t.attempts_last_24h ≤ u.attempts_last_24h
    → (analyze t).score ≤ (analyze u).score
unfolding analyze
analyze_mono t u h v a = ground arith
