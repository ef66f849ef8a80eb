-- ===== src/Antifraud.antt =====
-- The anti-fraud rule engine, app/antifraude/rules.py, with the request that
-- app/antifraude/schemas.py validates. A time is the pair of numbers that its text `HH:MM` stands
-- for; values are cents.
pub mod Score
mod Tests
use biocodetechpay.Prelude.{
  ℕ, ◌+◌, min, Bool, true, false, not, ◌&&◌, ◌||◌, List, [], ◌∷◌, ◌++◌, Option, none, some, ltb,
  leb, if◌then◌else◌,
}
use biocodetechpay.Money.{Cents, reais}

pub record AntifraudTransaction : Type 0 where
  pub value : Cents
  pub hour : ℕ
  pub minute : ℕ
  pub attempts_last_24h : ℕ

-- `validate_time` and `validate_attempts`, on the numbers that `int` has read: `none` is the raise.
unfoldable pub validate : AntifraudTransaction → Option AntifraudTransaction
validate t =
    if leb t.hour 23 && leb t.minute 59
    then (if ltb 100 t.attempts_last_24h then none else some t)
    else none

-- The subclasses of `AntifraudRule`, with the limits of their constructors.
pub data Rule : Type 0 where
  night_time : Rule
  high_value : Cents → Rule
  excessive_attempts : ℕ → Rule
  extreme_value : Cents → Rule

abbrev pub points : Rule → ℕ
points night_time = 40
points (high_value limit) = 30
points (excessive_attempts limit) = 50
points (extreme_value limit) = 60

abbrev pub evaluate : Rule → AntifraudTransaction → Bool
evaluate night_time t = leb 22 t.hour || ltb t.hour 6
evaluate (high_value limit) t = ltb limit t.value
evaluate (excessive_attempts limit) t = ltb limit t.attempts_last_24h
evaluate (extreme_value limit) t = ltb limit t.value

-- `AntifraudEngine.rules`
abbrev pub engine_rules : List Rule
engine_rules =
    night_time ∷ high_value (reais 300 0) ∷ excessive_attempts 3 ∷ extreme_value (reais 1000 0) ∷ []

-- `AntifraudEngine.approval_limit`
abbrev pub approval_limit : ℕ
approval_limit = 60

pub data RiskLevel : Type 0 where
  low medium high : RiskLevel

pub record Assessment : Type 0 where
  pub score : ℕ
  pub approved : Bool
  pub triggered : List Rule
  pub risk_level : RiskLevel

-- The loop of `analyze`, on the score and the triggered rules so far.
abbrev pub run_rules : List Rule → AntifraudTransaction → ℕ → List Rule → ℕ × List Rule
run_rules [] t score triggered = (score, triggered)
run_rules (r ∷ rules) t score triggered =
    run_rules rules t (if evaluate r t then score + points r else score)
      (if evaluate r t then triggered ++ r ∷ [] else triggered)

abbrev pub level_of : ℕ → RiskLevel
level_of score = if ltb score 30 then low else if ltb score 60 then medium else high

-- Recommendation and reason are texts that the level and the approval determine. The fallback text
-- "No rules triggered" stands for the empty list of rules.
unfoldable pub analyze : AntifraudTransaction → Assessment
analyze t =
    let (total, triggered) = run_rules engine_rules t 0 [] in
    let score = min total 100 in
    record {
      score = score;
      approved = ltb score approval_limit;
      triggered = triggered;
      risk_level = level_of score;
    }
