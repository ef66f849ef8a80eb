-- ===== src/Pix/Outcome.antt =====
-- What a service call returns: the database as it is left (a raise discards what was not committed)
-- and the result or the exception.
use biocodetechpay.Prelude.{Text, ◌≡◌, refl, ◌⊎◌, inl, inr}
use biocodetechpay.Store.{Db}

-- The exceptions of app/pix/service.py and app/pix/internal_transfer.py, one for each message.
pub data PixError : Type 0 where
  user_not_found sender_not_found self_transfer insufficient_balance not_scheduled : PixError
  gateway_refused : Text → PixError

pub data Result (A : Type 0) : Type 0 where
  ok : A → Result A
  err : PixError → Result A

abbrev pub Outcome : Type 0 → Type 0
Outcome A = Db × Result A

pub Result-cases :
    {A : Type 0} (r : Result A) → ((a : A) × (r ≡ ok a)) ⊎ ((e : PixError) × (r ≡ err e))
Result-cases (ok a) = inl (a, refl)
Result-cases (err e) = inr (e, refl)
