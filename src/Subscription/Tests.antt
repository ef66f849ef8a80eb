-- ===== src/Subscription/Tests.antt =====
-- Runs of the plan, and the theorems at an account with a balance.
use biocodetechpay.Prelude.{
  ◌*◌, ◌≡◌, true, refl, pos, ◌-ℤ◌, ◌≤ℤ◌, false, none, some, [], ◌∷◌, arith,
}
use biocodetechpay.Subscription.{
  Account, expired, balance_method, day, subscription_amount, subscription_period, get_subscription,
  check_expiry, expire_or_renew, subscribe_with_balance, activate, new_subscription,
  with_subscription, trial_method,
}
use biocodetechpay.Subscription.Charges.{
  get, buy, cancel, trial, step, run, run-solvent, subscription_of,
}

-- R$25.00 and no plan yet.
abbrev fresh : Account
fresh = record { balance = pos 2500; subscription = none }

abbrev bought : Account
bought = record {
  balance = pos 1510;
  subscription = some (
      activate 0 subscription_period balance_method none subscription_amount (some 0) true
        new_subscription);
}

abbrev tried : Account
tried =
    with_subscription
      (record (activate 0 86400 trial_method none 0 none false new_subscription) {
        trial_used = true;
      })
      fresh

-- Bought on the first day, renewed on day 31 and, for want of money, expired on day 62.
two_months : (run fresh (buy 0 ∷ get (31 * day) ∷ get (62 * day) ∷ [])).balance ≡ pos 520
unfolding run step get_subscription check_expiry expire_or_renew subscribe_with_balance ◌-ℤ◌
two_months = refl

expired_then :
    (subscription_of (run fresh (buy 0 ∷ get (31 * day) ∷ get (62 * day) ∷ []))).status ≡ expired
unfolding run step get_subscription check_expiry expire_or_renew subscribe_with_balance ◌-ℤ◌
expired_then = refl

run-solvent_example : pos 0 ≤ℤ (run fresh (trial 0 ∷ buy 5 ∷ cancel ∷ get (40 * day) ∷ [])).balance
run-solvent_example =
    run-solvent fresh (trial 0 ∷ buy 5 ∷ cancel ∷ get (40 * day) ∷ []) (omega arith)

abbrev cancelled : Account
cancelled = record {
  balance = pos 1510;
  subscription = some (
      activate 0 subscription_period balance_method none subscription_amount (some 0) false
        new_subscription);
}
