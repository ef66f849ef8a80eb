-- ===== src/Auth/Account.antt =====
-- Accounts: `register`, `verify_email` and `resend_verification` of app/auth/router.py, and
-- `deposit_funds` of app/auth/service.py. The request of `register` has passed the bounds on the
-- lengths of its fields.
use biocodetechpay.Prelude.{
  ℕ, ◌+◌, ℤ, pos, ◌+ℤ◌, Bool, true, false, not, ◌||◌, Option, none, some, ◌∷◌, Text, text_eq,
  is_digit, keep_if, strip, first, update_first, ltb, leb_ℤ, ltb_ℤ, if◌then◌else◌,
}
use biocodetechpay.Money.{reais}
use biocodetechpay.Documents.{validate_document}
use biocodetechpay.Store.{Db, User, Contact, column_eq, find_user, update_user, set_balance}
use biocodetechpay.Emv.Parse.{upper}
use biocodetechpay.Http.{Http, success, failure}
use biocodetechpay.Charge.Inbound.{has_document, is_empty}
use biocodetechpay.Auth.Limiter.{Store, rate_limit, reg_max, reg_window}
use biocodetechpay.Auth.Session.{Hasher, Jwt, TokenSettings, Cookies, issue, find_by_document}

-- `UserCreate`, with the address of the client, the fresh identifiers, the salt and the clocks.
pub record Registration : Type 0 where
  pub name : Text
  pub cpf_cnpj : Text
  pub email : Text
  pub password : Text
  pub phone : Text
  pub contact : Contact
  pub client_ip : Text
  pub new_id : ℕ
  pub email_token : Text
  pub pix_random_key : Text
  pub salt : ℕ
  pub monotonic : ℕ
  pub now : ℕ

-- The validators of `UserCreate`: digits alone, and the state in capitals.
abbrev pub clean : (Text → Text) → Option Text → Option Text
clean f none = none
clean f (some s) = some (f s)

abbrev pub registered_contact : Registration → Contact
registered_contact r = record r.contact {
  phone = some (keep_if is_digit r.phone);
  address_state = clean (λ s. strip (upper s)) r.contact.address_state;
  address_zip = clean (keep_if is_digit) r.contact.address_zip;
}

-- `balance` and `credit_limit` have the defaults of their columns.
abbrev pub new_user : Hasher → Registration → User
new_user hasher r = record {
  id = r.new_id;
  name = r.name;
  cpf_cnpj = keep_if is_digit r.cpf_cnpj;
  email = r.email;
  balance = pos 0;
  credit_limit = reais 10000 0;
  pix_random_key = some r.pix_random_key;
  pix_email_key = none;
  email_verified = false;
  document_verified = true;
  hashed_password = hasher.hash r.salt r.password;
  asaas_customer_id = none;
  is_active = true;
  is_admin = false;
  email_verification_token = some r.email_token;
  email_verification_sent_at = some r.now;
  password_reset_token = none;
  password_reset_sent_at = none;
  contact = registered_contact r;
}

abbrev pub add_user : User → Db → Db
add_user u db = record db { users = u ∷ db.users }

abbrev pub is_taken : Registration → User → Bool
is_taken r u = text_eq u.email r.email || text_eq u.cpf_cnpj (keep_if is_digit r.cpf_cnpj)

unfoldable pub create_account : Hasher → Registration → Db → Http (Unit {0})
create_account hasher r db =
    if not (validate_document (keep_if is_digit r.cpf_cnpj)).0
    then (db, failure 422)
    else elim (first (is_taken r) db.users) [
      | some db_user ↦ (db, failure 400)
      | none ↦ (add_user (new_user hasher r) db, success tt)
    ]

-- `register`
unfoldable pub register : Hasher → Store → Registration → Db → Store × Http (Unit {0})
unfolding create_account
register hasher store r db =
    let (store', allowed) = rate_limit store r.client_ip reg_max reg_window r.monotonic in
    (store', if allowed then create_account hasher r db else (db, failure 429))

abbrev pub has_verification : Text → User → Bool
has_verification token u = column_eq u.email_verification_token token

abbrev pub is_older : ℕ → ℕ → Option ℕ → Bool
is_older seconds now none = false
is_older seconds now (some sent_at) = ltb (sent_at + seconds) now

abbrev pub mark_verified : User → User
mark_verified u = record u { email_verified = true; email_verification_token = none }

-- `verify_email`, with the cookies of the redirection.
unfoldable pub verify_email : Jwt → TokenSettings → Text → ℕ → Db → Http Cookies
verify_email jwt settings token now db = elim (first (has_verification token) db.users) [
  | none ↦ (db, failure 400)
  | some user ↦ if is_older 86400 now user.email_verification_sent_at then (db, failure 400) else (
    record db { users = update_first (has_verification token) mark_verified db.users },
    success (issue jwt settings now user),
  )
]

-- Less than five minutes ago.
abbrev pub is_recent : ℕ → Option ℕ → Bool
is_recent now none = false
is_recent now (some sent_at) = ltb now (sent_at + 300)

abbrev pub renew_token : Text → ℕ → User → User
renew_token token now u = record u {
  email_verification_token = some token;
  email_verification_sent_at = some now;
}

-- `resend_verification`
unfoldable pub resend_verification : Text → Text → ℕ → Db → Http (Unit {0})
resend_verification cpf_cnpj new_token now db =
    if is_empty (strip cpf_cnpj)
    then (db, failure 400)
    else elim (find_by_document (strip cpf_cnpj) db) [
      | none ↦ (db, success tt)
      | some user ↦
          if user.email_verified
          then (db, success tt)
          else if is_recent now user.email_verification_sent_at
          then (db, failure 429)
          else (
            record db {
              users =
                  update_first (has_document (strip cpf_cnpj)) (renew_token new_token now) db.users;
            },
            success tt,
          )
    ]

-- `deposit_funds`, as the endpoint `deposit` calls it: the new balance, or the status of the refusal.
unfoldable pub deposit_funds : ℕ → ℤ → Db → Http ℤ
deposit_funds user_id amount db =
    if leb_ℤ amount (pos 0)
    then (db, failure 400)
    else if ltb_ℤ (pos (reais 1000000 0)) amount
    then (db, failure 400)
    else elim (find_user user_id db) [
      | none ↦ (db, failure 400)
      | some user ↦ (
        update_user user_id (set_balance (user.balance +ℤ amount)) db,
        success (user.balance +ℤ amount),
      )
    ]
