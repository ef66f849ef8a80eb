-- ===== src/Subscription/Charges.antt =====
-- What the plan may charge, and when, over any sequence of calls.
use biocodetechpay.Prelude.{
  ℕ, ◌≡◌, ◌≤◌, ◌<◌, ◌⊎◌, refl, ℤ, pos, ◌-ℤ◌, ◌≤ℤ◌, Bool, true, Option, none, some, List, [], ◌∷◌,
  arith,
}
use biocodetechpay.Subscription.{
  Account, UserSubscription, Answer, done, refused, trial_already_used, active, expired,
  subscription_amount, get_or_create, get_subscription, check_expiry, expire_or_renew,
  subscribe_with_balance, subscribe_with_card, cancel_subscription, activate_trial,
  admin_grant_subscription,
}

-- The calls of the service, with the clock and what the query for the card finds.
pub data Call : Type 0 where
  get : ℕ → Call
  buy : ℕ → Call
  buy_with_card : ℕ → Option Bool → ℕ → Call
  cancel : Call
  trial : ℕ → Call
  grant : ℕ → Call

-- The account after an answer: a refusal leaves it.
abbrev pub settle : Account → Answer → Account
settle a (done a') = a'
settle a (refused e) = a

unfoldable pub step : Account → Call → Account
step a (get now) = get_subscription now a
step a (buy now) = settle a (subscribe_with_balance now a)
step a (buy_with_card now card card_id) = settle a (subscribe_with_card now card card_id a)
step a cancel = settle a (cancel_subscription a)
step a (trial now) = settle a (activate_trial now a)
step a (grant now) = settle a (admin_grant_subscription now a)

unfoldable pub run : Account → List Call → Account
run a [] = a
run a (call ∷ calls) = run (step a call) calls

check_expiry_charge :
    (now : ℕ) (b : ℤ) (sub : UserSubscription)
    → ((check_expiry now b sub).balance ≡ b)
      ⊎ ((check_expiry now b sub).balance ≡ b -ℤ pos subscription_amount)
unfolding check_expiry expire_or_renew
check_expiry_charge now b sub = ground arith

step-solvent : (a : Account) (call : Call) → pos 0 ≤ℤ a.balance → pos 0 ≤ℤ (step a call).balance
unfolding step get_subscription check_expiry expire_or_renew subscribe_with_balance
    subscribe_with_card cancel_subscription activate_trial admin_grant_subscription ◌-ℤ◌
step-solvent a (get now) h = ground arith
step-solvent a (buy now) h = ground arith
step-solvent a (buy_with_card now none card_id) h = h
step-solvent a (buy_with_card now (some blocked) card_id) h = ground arith
step-solvent a cancel h = ground arith
step-solvent a (trial now) h = ground arith
step-solvent a (grant now) h = ground arith

-- No sequence of calls drives a balance below zero that was not below it.
pub run-solvent :
    (a : Account) (calls : List Call) → pos 0 ≤ℤ a.balance → pos 0 ≤ℤ (run a calls).balance
unfolding run
run-solvent a [] h = h
run-solvent a (call ∷ calls) h = run-solvent (step a call) calls (step-solvent a call h)

abbrev pub subscription_of : Account → UserSubscription
subscription_of a = get_or_create a.subscription

step-trial_used :
    (a : Account) (call : Call)
    → (subscription_of a).trial_used ≡ true
    → (subscription_of (step a call)).trial_used ≡ true
unfolding step get_subscription check_expiry expire_or_renew subscribe_with_balance
    subscribe_with_card cancel_subscription activate_trial admin_grant_subscription
step-trial_used a (get now) h = ground arith
step-trial_used a (buy now) h = ground arith
step-trial_used a (buy_with_card now none card_id) h = h
step-trial_used a (buy_with_card now (some blocked) card_id) h = ground arith
step-trial_used a cancel h = ground arith
step-trial_used a (trial now) h = ground arith
step-trial_used a (grant now) h = ground arith

run-trial_used :
    (a : Account) (calls : List Call)
    → (subscription_of a).trial_used ≡ true
    → (subscription_of (run a calls)).trial_used ≡ true
unfolding run
run-trial_used a [] h = h
run-trial_used a (call ∷ calls) h = run-trial_used (step a call) calls (step-trial_used a call h)

-- A trial that was granted is refused ever after, whatever was called in between.
pub trial_once :
    (a a' : Account) (now later : ℕ) (calls : List Call)
    → activate_trial now a ≡ done a'
    → activate_trial later (run a' calls) ≡ refused trial_already_used
unfolding activate_trial
trial_once a a' now later calls h =
    let used : (subscription_of a').trial_used ≡ true = ground (arith, h) in
    rw (run-trial_used a' calls used) refl

-- A plan that is reported as active has not expired, and reporting charges nothing or one month.
pub get_is_current :
    (a : Account) (now e : ℕ)
    → let a' = get_subscription now a in
      ((a'.balance ≡ a.balance) ⊎ (a'.balance ≡ a.balance -ℤ pos subscription_amount))
      × ((subscription_of a').status ≡ active → (subscription_of a').expires_at ≡ some e → now ≤ e)
unfolding get_subscription check_expiry expire_or_renew
get_is_current a now e = (check_expiry_charge now a.balance (subscription_of a), ground arith)

-- After the cancellation of a plan with a date of expiry, reporting never charges, and reports a
-- plan past its date as expired.
pub cancel_stops_renewal :
    (a a' : Account) (now e : ℕ)
    → cancel_subscription a ≡ done a'
    → (subscription_of a).expires_at ≡ some e
    → let a'' = get_subscription now a' in
      (a''.balance ≡ a.balance) × (e < now → (subscription_of a'').status ≡ expired)
unfolding cancel_subscription get_subscription check_expiry expire_or_renew
cancel_stops_renewal a a' now e h he = ground arith
