-- ===== src/Auth/Access.antt =====
-- Who gets into a session, and who does not.
use biocodetechpay.Prelude.{
  ℕ, ◌+◌, ◌*◌, ◌≡◌, ◌≤◌, refl, ◌∙◌, ap, true, false, none, some, [], ◌∷◌, ◌++◌, Text, codes,
  is_digit, keep_if, text_eq→eq, first-passes,
}
use biocodetechpay.Store.{Db, User}
use biocodetechpay.Http.{success, failure}
use biocodetechpay.Charge.Inbound.{has_document, is_empty, or_text}
use biocodetechpay.Auth.Session.{
  Hasher, Jwt, TokenSettings, Claims, LoginRequest, access_claims, refresh_claims, issue,
  find_by_document, check_password, decode_access_token, after_space, before_space, access_user,
  refreshed_user, refresh_session, get_current_user,
}

or_text_left : (s t : Text) → is_empty s ≡ false → or_text s t ≡ s
or_text_left [] t h = absurd (cc)
or_text_left (c ∷ s) t h = refl

-- What follows the word `Bearer ` is the token.
bearer :
    (jwt : Jwt) (c : Claims)
    → or_text
        (after_space (codes "Bearer " ++ jwt.encode c))
        (before_space (codes "Bearer " ++ jwt.encode c))
      ≡ jwt.encode c
bearer jwt c = or_text_left (jwt.encode c) _ (jwt.encode-some c)

decode_own :
    (jwt : Jwt) (c : Claims) (now : ℕ)
    → now ≤ c.exp
    → c.is_refresh ≡ false
    → decode_access_token jwt now (codes "Bearer " ++ jwt.encode c) ≡ some c
unfolding decode_access_token
decode_own jwt c now h access =
    rw (bearer jwt c, decode_access_token) (rw (jwt.decode-encode c now h) (rw access refl))

pub own_document :
    (user : User) (cpf : Text) (db : Db) → find_by_document cpf db ≡ some user → user.cpf_cnpj ≡ cpf
own_document user cpf db h =
    text_eq→eq user.cpf_cnpj cpf (first-passes (has_document cpf) db.users user h)

-- A correct password of a verified user who is in the database opens a session: until the access
-- token expires, its cookies stand for that user.
pub login_opens :
    (hasher : Hasher) (jwt : Jwt) (settings : TokenSettings) (request : LoginRequest) (db : Db)
    (user : User) (later : ℕ)
    → find_by_document (keep_if is_digit request.cpf_cnpj) db ≡ some user
    → is_empty user.cpf_cnpj ≡ false
    → hasher.verify request.password user.hashed_password ≡ true
    → user.email_verified ≡ true
    → later ≤ request.now + settings.access_minutes * 60
    → let cookies = issue jwt settings request.now user in
      (check_password hasher jwt settings request db ≡ success cookies)
      × (get_current_user jwt settings later cookies db ≡ (cookies, success user))
unfolding check_password get_current_user access_user
login_opens hasher jwt settings request db user later found some_document right verified fresh =
    let claims = access_claims settings request.now user in
    let found' : find_by_document user.cpf_cnpj db ≡ some user =
      ap (λ d. find_by_document d db)
        (own_document user (keep_if is_digit request.cpf_cnpj) db found)
      ∙ found in
    (
      rw (found, check_password) (rw (right, verified) refl),
      rw (decode_own jwt claims later fresh refl, get_current_user)
          (rw some_document (rw found' (rw verified refl))),
    )

-- A user who is not active is refused a renewal of the session, but still opens a new one with the
-- password, and its cookies stand for that user.
pub inactive_logs_in :
    (hasher : Hasher) (jwt : Jwt) (settings : TokenSettings) (request : LoginRequest) (db : Db)
    (user : User) (later : ℕ)
    → find_by_document (keep_if is_digit request.cpf_cnpj) db ≡ some user
    → is_empty user.cpf_cnpj ≡ false
    → hasher.verify request.password user.hashed_password ≡ true
    → user.email_verified ≡ true
    → user.is_active ≡ false
    → later ≤ request.now + settings.access_minutes * 60
    → later ≤ request.now + settings.refresh_minutes * 60
    → let cookies = issue jwt settings request.now user in
      (refresh_session jwt settings later cookies db ≡ failure 401)
      × (check_password hasher jwt settings request db ≡ success cookies)
      × (get_current_user jwt settings later cookies db ≡ (cookies, success user))
unfolding refresh_session refreshed_user
inactive_logs_in hasher jwt settings request db user later found some_document right verified
      inactive fresh fresh' =
    let claims = refresh_claims settings request.now user in
    let found' : find_by_document user.cpf_cnpj db ≡ some user =
      ap (λ d. find_by_document d db)
        (own_document user (keep_if is_digit request.cpf_cnpj) db found)
      ∙ found in
    let opened =
      login_opens hasher jwt settings request db user later found some_document right verified
        fresh in
    let nobody : refreshed_user jwt later (jwt.encode claims) db ≡ none =
      rw (jwt.decode-encode claims later fresh', refreshed_user)
        (rw some_document (rw found' (rw (verified, inactive) refl))) in
    (rw (nobody, refresh_session) refl, opened.0, opened.1)
