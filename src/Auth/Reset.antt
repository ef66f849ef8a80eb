-- ===== src/Auth/Reset.antt =====
-- What the recovery of a password gives, and that a code serves once.
use biocodetechpay.Prelude.{
  ℕ, ◌≡◌, refl, true, false, none, some, Text, text_eq_refl, arith, first, update_first,
  count_where, first-update_first_both, first-update_first_new, count_where-update_first,
  first-count_none, first-passes, keep_if, is_digit,
}
use biocodetechpay.Store.{Db, User, has_id}
use biocodetechpay.Pix.Matrix.{has_email}
use biocodetechpay.Http.{success, failure}
use biocodetechpay.Charge.Inbound.{has_document}
use biocodetechpay.Auth.Session.{
  Hasher, Jwt, TokenSettings, LoginRequest, issue, find_by_document, check_password,
}
use biocodetechpay.Auth.Account.{is_recent}
use biocodetechpay.Auth.Recovery.{
  request_password_reset, confirm_password_reset, accepts, set_code, set_password,
}

confirmed_lem :
    (hasher : Hasher) (salt : ℕ) (code password : Text) (db : Db) (u : User)
    → first (accepts hasher code) db.users ≡ some u
    → confirm_password_reset hasher salt code password password db ≡ (
      record db {
        users = update_first (accepts hasher code) (set_password hasher salt password) db.users;
      },
      success tt,
    )
unfolding confirm_password_reset
confirmed_lem hasher salt code password db u found =
    rw (text_eq_refl password, confirm_password_reset) (rw found refl)

refused_lem :
    (hasher : Hasher) (salt : ℕ) (code password : Text) (db : Db)
    → first (accepts hasher code) db.users ≡ none
    → confirm_password_reset hasher salt code password password db ≡ (db, failure 400)
unfolding confirm_password_reset
refused_lem hasher salt code password db used =
    rw (text_eq_refl password, confirm_password_reset) (rw used refl)

asked_lem :
    (hasher : Hasher) (salt now : ℕ) (code : Text) (db : Db) (u : User)
    → first (has_email u.email) db.users ≡ some u
    → is_recent now u.password_reset_sent_at ≡ false
    → request_password_reset hasher salt code u.email now db ≡ (
      record db {
        users = update_first (has_email u.email) (set_code hasher salt code now) db.users;
      },
      success tt,
    )
unfolding request_password_reset
asked_lem hasher salt now code db u by_mail free =
    rw (by_mail, request_password_reset) (rw free refl)

-- A code that one account accepts sets the password of that account, and is refused ever after: the
-- second confirmation changes nothing.
pub code_serves_once :
    (hasher : Hasher) (salt salt' : ℕ) (code password password' : Text) (db : Db) (u : User)
    → first (accepts hasher code) db.users ≡ some u
    → first (has_id u.id) db.users ≡ some u
    → count_where (accepts hasher code) db.users ≡ 1
    → let db' = (confirm_password_reset hasher salt code password password db).0 in
      (first (has_id u.id) db'.users ≡ some (set_password hasher salt password u))
      × (confirm_password_reset hasher salt' code password' password' db' ≡ (db', failure 400))
code_serves_once hasher salt salt' code password password' db u found own one =
    let p = accepts hasher code in
    let f = set_password hasher salt password in
    let db' : Db = record db { users = update_first p f db.users } in
    let used : first p db'.users ≡ none =
      first-count_none p db'.users
        (omega (arith, count_where-update_first p f db.users u found refl, one)) in
    rw (confirmed_lem hasher salt code password db u found) (
      first-update_first_both (has_id u.id) p f db.users u own found (ground arith),
      refused_lem hasher salt' code password' db' used,
    )

opened_lem :
    (hasher : Hasher) (jwt : Jwt) (settings : TokenSettings) (request : LoginRequest) (db : Db)
    (u : User)
    → find_by_document (keep_if is_digit request.cpf_cnpj) db ≡ some u
    → hasher.verify request.password u.hashed_password ≡ true
    → u.email_verified ≡ true
    → check_password hasher jwt settings request db ≡ success (issue jwt settings request.now u)
unfolding check_password
opened_lem hasher jwt settings request db u found right verified =
    rw (found, check_password) (rw (right, verified) refl)

-- A code that was requested for the address of an account, more than five minutes after the one
-- before, and that no account accepted until then, sets the password of that account, and a verified
-- user then opens a session with it.
pub reset_logs_in :
    (hasher : Hasher) (jwt : Jwt) (settings : TokenSettings) (request : LoginRequest)
    (salt salt' now : ℕ) (code : Text) (db : Db) (u : User)
    → first (has_email u.email) db.users ≡ some u
    → find_by_document (keep_if is_digit request.cpf_cnpj) db ≡ some u
    → u.email_verified ≡ true
    → is_recent now u.password_reset_sent_at ≡ false
    → first (accepts hasher code) db.users ≡ none
    → let requested = (request_password_reset hasher salt code u.email now db).0 in
      let reset =
        (confirm_password_reset hasher salt' code request.password request.password requested).0 in
      let u' = set_password hasher salt' request.password (set_code hasher salt code now u) in
      check_password hasher jwt settings request reset ≡ success (issue jwt settings request.now u')
reset_logs_in hasher jwt settings request salt salt' now code db u by_mail by_document verified free
      fresh =
    let document = keep_if is_digit request.cpf_cnpj in
    let f = set_code hasher salt code now in
    let p = accepts hasher code in
    let u1 = f u in
    let db1 : Db = record db { users = update_first (has_email u.email) f db.users } in
    let matches : first p db1.users ≡ some u1 =
      first-update_first_new p (has_email u.email) f db.users u fresh by_mail
        (hasher.verify-hash salt code) in
    let found1 : find_by_document document db1 ≡ some u1 =
      first-update_first_both (has_document document) (has_email u.email) f db.users u by_document
        by_mail (first-passes (has_document document) db.users u by_document) in
    let found2 =
      first-update_first_both (has_document document) p (set_password hasher salt' request.password)
        db1.users u1 found1 matches (first-passes (has_document document) db.users u by_document) in
    rw (asked_lem hasher salt now code db u by_mail free) (
      rw (confirmed_lem hasher salt' code request.password db1 u1 matches) (
        opened_lem hasher jwt settings request _ _ found2
          (hasher.verify-hash salt' request.password) verified))
