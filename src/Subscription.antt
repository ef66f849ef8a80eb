-- ===== src/Subscription.antt =====
-- The monthly plan, app/minha_conta/service.py with app/minha_conta/models.py: one subscription for
-- each user, paid from the balance or by card, tried for a day, granted by an administrator. The
-- state of an operation is the user's balance and the user's subscription, which `_get_or_create`
-- has returned; a failed call changes neither. Times are in seconds.
pub mod Charges
mod Tests
use biocodetechpay.Prelude.{
  ℕ, ◌+◌, ◌*◌, ℤ, pos, ◌-ℤ◌, ltb_ℤ, leb_ℤ, Bool, true, false, not, ◌&&◌, Option, none, some, ltb,
  ◌==◌, if◌then◌else◌,
}
use biocodetechpay.Money.{Cents, reais}

pub data SubscriptionStatus : Type 0 where
  active inactive expired : SubscriptionStatus

-- `PaymentMethod`, with the two further texts that the service writes into the column.
pub data PaymentMethod : Type 0 where
  balance_method credit_card trial_method admin_grant : PaymentMethod

pub record UserSubscription : Type 0 where
  pub status : SubscriptionStatus
  pub plan_amount : Cents
  pub payment_method : Option PaymentMethod
  pub card_id : Option ℕ
  pub subscribed_at : Option ℕ
  pub expires_at : Option ℕ
  pub last_renewed_at : Option ℕ
  pub auto_renew : Bool
  pub trial_used : Bool

abbrev pub subscription_amount : Cents
subscription_amount = reais 9 90

abbrev pub day : ℕ
day = 86400

-- `timedelta(days=SUBSCRIPTION_DAYS)`
abbrev pub subscription_period : ℕ
subscription_period = 30 * day

-- `timedelta(hours=TRIAL_HOURS)`
abbrev pub trial_period : ℕ
trial_period = 24 * 3600

-- The row of a new user: the defaults of the columns.
abbrev pub new_subscription : UserSubscription
new_subscription = record {
  status = inactive;
  plan_amount = subscription_amount;
  payment_method = none;
  card_id = none;
  subscribed_at = none;
  expires_at = none;
  last_renewed_at = none;
  auto_renew = true;
  trial_used = false;
}

-- `_get_or_create`
abbrev pub get_or_create : Option UserSubscription → UserSubscription
get_or_create none = new_subscription
get_or_create (some sub) = sub

abbrev pub is_active : SubscriptionStatus → Bool
is_active active = true
is_active _ = false

-- The user's balance, and the user's row of the table, if there is one.
pub record Account : Type 0 where
  pub balance : ℤ
  pub subscription : Option UserSubscription

abbrev pub with_subscription : UserSubscription → Account → Account
with_subscription sub a = record a { subscription = some sub }

-- `_check_expiry` when the plan has expired at `exp`, before `now`.
unfoldable pub expire_or_renew : ℕ → ℤ → UserSubscription → Account
expire_or_renew now balance sub =
    if sub.auto_renew && leb_ℤ (pos subscription_amount) balance
    then record {
      balance = balance -ℤ pos subscription_amount;
      subscription = some (record sub {
        expires_at = some (now + subscription_period);
        last_renewed_at = some now;
      });
    }
    else record { balance = balance; subscription = some (record sub { status = expired }) }

-- `_check_expiry`
unfoldable pub check_expiry : ℕ → ℤ → UserSubscription → Account
check_expiry now balance sub = elim sub.expires_at [
  | none ↦ record { balance = balance; subscription = some sub }
  | some exp ↦
      if is_active sub.status && ltb exp now
      then expire_or_renew now balance sub
      else record { balance = balance; subscription = some sub }
]

unfoldable pub get_subscription : ℕ → Account → Account
get_subscription now a = check_expiry now a.balance (get_or_create a.subscription)

-- The fields that every activation writes.
abbrev pub activate :
    ℕ → ℕ → PaymentMethod → Option ℕ → Cents → Option ℕ → Bool → UserSubscription → UserSubscription
activate now period method card amount renewed auto sub = record sub {
  status = active;
  payment_method = some method;
  card_id = card;
  plan_amount = amount;
  subscribed_at = some now;
  expires_at = some (now + period);
  last_renewed_at = renewed;
  auto_renew = auto;
}

-- A raise is an error value, one for each message.
pub data SubscriptionError : Type 0 where
  insufficient_balance card_not_found card_blocked nothing_to_cancel trial_already_used
        already_active :
      SubscriptionError

pub data Answer : Type 0 where
  done : Account → Answer
  refused : SubscriptionError → Answer

unfoldable pub subscribe_with_balance : ℕ → Account → Answer
subscribe_with_balance now a =
    if ltb_ℤ a.balance (pos subscription_amount)
    then refused insufficient_balance
    else done (record {
      balance = a.balance -ℤ pos subscription_amount;
      subscription = some (
          activate now subscription_period balance_method none subscription_amount (some now) true
            (get_or_create a.subscription));
    })

-- The card that the query finds among the user's, and whether it is blocked.
unfoldable pub subscribe_with_card : ℕ → Option Bool → ℕ → Account → Answer
subscribe_with_card now none card_id a = refused card_not_found
subscribe_with_card now (some is_blocked) card_id a =
    if is_blocked
    then refused card_blocked
    else done (
        with_subscription
          (activate now subscription_period credit_card (some card_id) subscription_amount
            (some now) true (get_or_create a.subscription))
          a)

-- `_get_or_create` commits the row that it creates, also where the call raises after it; that row
-- has no effect, since the next call would create the same.
unfoldable pub cancel_subscription : Account → Answer
cancel_subscription a =
    let sub = get_or_create a.subscription in
    if not (is_active sub.status)
    then refused nothing_to_cancel
    else done (with_subscription (record sub { auto_renew = false }) a)

unfoldable pub activate_trial : ℕ → Account → Answer
activate_trial now a =
    let sub = get_or_create a.subscription in
    if sub.trial_used
    then refused trial_already_used
    else if is_active sub.status
    then refused already_active
    else done (
        with_subscription
          (record (activate now trial_period trial_method none 0 none false sub) {
            trial_used = true;
          })
          a)

unfoldable pub admin_grant_subscription : ℕ → Account → Answer
admin_grant_subscription now a = done (
    with_subscription
      (activate now subscription_period admin_grant none 0 (some now) false
        (get_or_create a.subscription))
      a)
