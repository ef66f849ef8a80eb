-- ===== src/Antifraud/Tests.antt =====
-- Runs of the engine, and the theorems at inputs that meet their hypotheses.
use biocodetechpay.Prelude.{◌≡◌, refl, true, false}
use biocodetechpay.Antifraud.{AntifraudTransaction, analyze}

abbrev evening : AntifraudTransaction
evening = record { value = 25000; hour = 23; minute = 10; attempts_last_24h = 2 }

abbrev late_and_large : AntifraudTransaction
late_and_large = record { value = 30001; hour = 23; minute = 10; attempts_last_24h = 2 }

evening_passes : (analyze evening).approved ≡ true
unfolding analyze
evening_passes = refl

late_and_large_fails : (analyze late_and_large).approved ≡ false
unfolding analyze
late_and_large_fails = refl
