-- ===== src/Auth/Enrolment.antt =====
-- From the registration to the first session.
use biocodetechpay.Prelude.{
  ℕ, ◌+◌, ◌≡◌, ◌≤◌, refl, sym, ◌∙◌, ap, true, false, none, some, arith, text_eq_refl, text_eq,
  first, keep_if, is_digit, ltb,
}
use biocodetechpay.Documents.{validate_document}
use biocodetechpay.Store.{Db, User}
use biocodetechpay.Http.{success, failure}
use biocodetechpay.Auth.Session.{
  Hasher, Jwt, TokenSettings, LoginRequest, issue, find_by_document, check_password,
}
use biocodetechpay.Auth.Account.{
  Registration, new_user, add_user, is_taken, create_account, verify_email, mark_verified,
}

module _ (hasher : Hasher) (jwt : Jwt) (settings : TokenSettings) (r : Registration)
    (request : LoginRequest) (db : Db)
    (same_document : keep_if is_digit request.cpf_cnpj ≡ keep_if is_digit r.cpf_cnpj)
    (same_password : request.password ≡ r.password) where
  found_by :
      (u : User)
      → u.cpf_cnpj ≡ keep_if is_digit r.cpf_cnpj
      → find_by_document (keep_if is_digit request.cpf_cnpj) (add_user u db) ≡ some u
  found_by u own =
      let hit : text_eq u.cpf_cnpj (keep_if is_digit request.cpf_cnpj) ≡ true =
        ap (λ d. text_eq d (keep_if is_digit request.cpf_cnpj)) (own ∙ sym same_document)
        ∙ text_eq_refl (keep_if is_digit request.cpf_cnpj) in
      rw hit refl

  right_password : hasher.verify request.password (hasher.hash r.salt r.password) ≡ true
  right_password =
      ap (λ p. hasher.verify p (hasher.hash r.salt r.password)) same_password
      ∙ hasher.verify-hash r.salt r.password

  -- A registration with a valid document that, like the address, no account has adds the account.
  -- Its password is then refused for want of the confirmation; the link confirms the address within
  -- 24 hours, and the password then opens a session.
  pub registered_logs_in :
      (later : ℕ)
      → (validate_document (keep_if is_digit r.cpf_cnpj)).0 ≡ true
      → first (is_taken r) db.users ≡ none
      → later ≤ r.now + 86400
      → let registered = add_user (new_user hasher r) db in
        let verified = add_user (mark_verified (new_user hasher r)) db in
        (create_account hasher r db ≡ (registered, success tt))
        × (check_password hasher jwt settings request registered ≡ failure 403)
        × (verify_email jwt settings r.email_token later registered
            ≡ (verified, success (issue jwt settings later (new_user hasher r))))
        × (check_password hasher jwt settings request verified
            ≡ success (issue jwt settings request.now (mark_verified (new_user hasher r))))
  unfolding create_account verify_email check_password
  registered_logs_in later valid free in_time =
      let in_time' : ltb (r.now + 86400) later ≡ false = ground arith in
      (
        rw (valid, free, create_account) refl,
        rw (found_by (new_user hasher r) refl, check_password) (rw right_password refl),
        rw (text_eq_refl r.email_token, verify_email)
            (rw in_time' (rw (text_eq_refl r.email_token) refl)),
        rw (found_by (mark_verified (new_user hasher r)) refl, check_password)
            (rw right_password refl),
      )
