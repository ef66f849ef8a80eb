-- ===== src/Auth/Recovery.antt =====
-- The recovery of a password: `request_password_reset`, `validate_recovery_code` and
-- `confirm_password_reset` of app/auth/router.py.
use biocodetechpay.Prelude.{
  ℕ, Bool, false, not, none, some, Text, text_eq, first, update_first, if◌then◌else◌,
}
use biocodetechpay.Store.{Db, User}
use biocodetechpay.Pix.Matrix.{has_email}
use biocodetechpay.Http.{Http, success, failure}
use biocodetechpay.Auth.Session.{Hasher}
use biocodetechpay.Auth.Account.{is_recent}

abbrev pub set_code : Hasher → ℕ → Text → ℕ → User → User
set_code hasher salt recovery_code now u = record u {
  password_reset_token = some (hasher.hash salt recovery_code);
  password_reset_sent_at = some now;
}

-- `request_password_reset`; the code is the one that is drawn and sent by mail. The answer is always
-- the same.
unfoldable pub request_password_reset : Hasher → ℕ → Text → Text → ℕ → Db → Http (Unit {0})
request_password_reset hasher salt recovery_code email now db =
    elim (first (has_email email) db.users) [
      | none ↦ (db, success tt)
      | some user ↦ if is_recent now user.password_reset_sent_at then (db, success tt) else (
        record db {
          users = update_first (has_email email) (set_code hasher salt recovery_code now) db.users;
        },
        success tt,
      )
    ]

-- A user with a stored code that the given one matches.
abbrev pub accepts : Hasher → Text → User → Bool
accepts hasher recovery_code u = elim u.password_reset_token [
  | none ↦ false
  | some token ↦ hasher.verify recovery_code token
]

-- `validate_recovery_code`
unfoldable pub validate_recovery_code : Hasher → Text → Db → Http (Unit {0})
validate_recovery_code hasher recovery_code db =
    elim (first (accepts hasher recovery_code) db.users) [
      | none ↦ (db, failure 400)
      | some c ↦ (db, success tt)
    ]

abbrev pub set_password : Hasher → ℕ → Text → User → User
set_password hasher salt new_password u = record u {
  hashed_password = hasher.hash salt new_password;
  password_reset_token = none;
  password_reset_sent_at = none;
}

-- `confirm_password_reset`
unfoldable pub confirm_password_reset : Hasher → ℕ → Text → Text → Text → Db → Http (Unit {0})
confirm_password_reset hasher salt recovery_code new_password confirm_password db =
    if not (text_eq new_password confirm_password)
    then (db, failure 400)
    else elim (first (accepts hasher recovery_code) db.users) [
      | none ↦ (db, failure 400)
      | some user ↦ (
        record db {
          users =
              update_first (accepts hasher recovery_code) (set_password hasher salt new_password)
                db.users;
        },
        success tt,
      )
    ]
