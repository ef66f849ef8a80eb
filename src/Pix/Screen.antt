-- ===== src/Pix/Screen.antt =====
-- `_screen_antifraud` of app/pix/router.py, which runs before a transfer. The hour and the minute are
-- those of the clock that also gives `now` in seconds; the clocks of rows and of the call agree.
use biocodetechpay.Prelude.{
  ℕ, ◌+◌, ◌*◌, Bool, ◌&&◌, none, some, leb, count_where, ◌==◌, if◌then◌else◌,
}
use biocodetechpay.Money.{Cents}
use biocodetechpay.Store.{Db, PixTransaction, sent, type_eq}
use biocodetechpay.Antifraud.{AntifraudTransaction, validate, analyze}

-- The transaction goes on, is answered with status 403, or fails the validation of the request.
pub data Screening : Type 0 where
  passed blocked invalid : Screening

pub record Clock : Type 0 where
  pub now : ℕ
  pub hour : ℕ
  pub minute : ℕ

-- `created_at >= now - timedelta(hours=24)`, written as a sum.
abbrev pub is_recent_attempt : ℕ → ℕ → PixTransaction → Bool
is_recent_attempt user_id now t =
    t.user_id == user_id && type_eq t.type sent && leb now (t.created_at + 24 * 3600)

abbrev pub recent_attempts : ℕ → ℕ → Db → ℕ
recent_attempts user_id now db = count_where (is_recent_attempt user_id now) db.transactions

abbrev pub screened : Cents → ℕ → Clock → Db → AntifraudTransaction
screened value user_id clock db = record {
  value = value;
  hour = clock.hour;
  minute = clock.minute;
  attempts_last_24h = recent_attempts user_id clock.now db;
}

-- A value of zero fails the bound of the field.
unfoldable pub screen_antifraud : Cents → ℕ → Clock → Db → Screening
unfolding validate analyze
screen_antifraud value user_id clock db =
    if value == 0 then invalid else elim (validate (screened value user_id clock db)) [
      | none ↦ invalid
      | some t ↦ if (analyze t).approved then passed else blocked
    ]
