-- ===== src/Pix/Velocity.antt =====
-- When the screening lets a transfer through.
use biocodetechpay.Prelude.{
  ℕ, ◌≡◌, ◌≤◌, ◌<◌, ◌↔◌, Bool, false, not, ◌||◌, ltb, ◌==◌, if◌then◌else◌, arith, none, some,
  Bool-cases, inl, inr,
}
use biocodetechpay.Money.{Cents}
use biocodetechpay.Store.{Db}
use biocodetechpay.Antifraud.{AntifraudTransaction, validate, analyze}
use biocodetechpay.Antifraud.Score.{analyze_approved, two_signals}
use biocodetechpay.Pix.Screen.{passed, blocked, Clock, recent_attempts, screen_antifraud, screened}

validate_lem :
    (t : AntifraudTransaction)
    → t.hour < 24
    → t.minute < 60
    → validate t ≡ (if ltb 100 t.attempts_last_24h then none else some t)
unfolding validate
validate_lem t hh hm = ground arith

-- The decision once the request is known to be valid.
decide_lem :
    (b large signals : Bool)
    → b ≡ not (large || signals)
    → ((if b then passed else blocked) ≡ passed) ↔ ((large ≡ false) × (signals ≡ false))
decide_lem b large signals h = ground arith

-- With the clock's hour below 24 and minute below 60, a transfer of a positive amount passes exactly
-- if it is at most R$1000.00 and shows at most one of the three signals night, more than R$300.00 and
-- more than three sent transactions of the user within a day, and these are at most a hundred.
pub screen_passes :
    (value : Cents) (user_id : ℕ) (clock : Clock) (db : Db)
    → 0 < value
    → clock.hour < 24
    → clock.minute < 60
    → let t = screened value user_id clock db in
      (screen_antifraud value user_id clock db ≡ passed) ↔ (
        ((value ≤ 100000) × (two_signals t ≡ false)) × (recent_attempts user_id clock.now db ≤ 100))
unfolding screen_antifraud
screen_passes value user_id clock db hv hh hm =
    let t = screened value user_id clock db in
    let nonzero : value == 0 ≡ false = ground arith in
    let ok = validate_lem t hh hm in
    let d =
      decide_lem (analyze t).approved (ltb 100000 value) (two_signals t) (analyze_approved t) in
    elim (Bool-cases (ltb 100 (recent_attempts user_id clock.now db))) [
      | inl many ↦
          rw (nonzero, ok, many, screen_antifraud)
            (λ e. absurd (ground arith), λ w. absurd (ground (arith, many, w.1)))
      | inr few ↦
          rw (nonzero, ok, few, screen_antifraud)
            (
              (λ e. ((ground (arith, (d.0 e).0), (d.0 e).1), ground (arith, few))),
              (λ w. d.1 (ground (arith, w.0.0), w.0.1)),
            )
    ]
