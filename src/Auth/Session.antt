-- ===== src/Auth/Session.antt =====
-- Sessions: `login`, `refresh_token` and `logout` of app/auth/router.py, the tokens of
-- app/auth/service.py and the guards of app/auth/dependencies.py. A time of a token is a number of
-- seconds.
use biocodetechpay.Prelude.{
  ℕ, ◌+◌, ◌*◌, ◌≡◌, ◌≤◌, Bool, true, false, not, ◌&&◌, ◌||◌, Option, none, some, [], ◌∷◌, ◌++◌,
  Text, codes, is_digit, keep_if, first, ◌==◌, if◌then◌else◌,
}
use biocodetechpay.Store.{Db, User, PixTransaction, received, confirmed, type_eq, status_eq}
use biocodetechpay.Http.{Response, success, failure}
use biocodetechpay.Charge.Inbound.{has_document, is_empty, or_text}
use biocodetechpay.Auth.Limiter.{Store, rate_limit, login_max, login_window}

-- The library of password hashes: a hash takes the salt that it draws.
pub record Hasher : Type 0 where
  pub hash : ℕ → Text → Text
  pub verify : Text → Text → Bool
  pub verify-hash : (salt : ℕ) (password : Text) → verify password (hash salt password) ≡ true

-- The payload of a token.
pub record Claims : Type 0 where
  pub sub : Text
  pub name : Text
  pub exp : ℕ
  pub is_refresh : Bool

-- The library of signed tokens, with the secret of the settings: a token that it has signed is read
-- until it expires.
pub record Jwt : Type 0 where
  pub encode : Claims → Text
  pub decode : ℕ → Text → Option Claims
  pub encode-some : (c : Claims) → is_empty (encode c) ≡ false
  pub decode-encode : (c : Claims) (now : ℕ) → now ≤ c.exp → decode now (encode c) ≡ some c

-- `ACCESS_TOKEN_EXPIRE_MINUTES` and `REFRESH_TOKEN_EXPIRE_MINUTES`
pub record TokenSettings : Type 0 where
  pub access_minutes : ℕ
  pub refresh_minutes : ℕ

-- An empty cookie counts as absent.
pub record Cookies : Type 0 where
  pub access_token : Option Text
  pub refresh_token : Option Text

abbrev pub access_claims : TokenSettings → ℕ → User → Claims
access_claims settings now user = record {
  sub = user.cpf_cnpj;
  name = user.name;
  exp = now + settings.access_minutes * 60;
  is_refresh = false;
}

abbrev pub refresh_claims : TokenSettings → ℕ → User → Claims
refresh_claims settings now user = record {
  sub = user.cpf_cnpj;
  name = user.name;
  exp = now + settings.refresh_minutes * 60;
  is_refresh = true;
}

-- The two cookies of a session.
abbrev pub issue : Jwt → TokenSettings → ℕ → User → Cookies
issue jwt settings now user = record {
  access_token = some (codes "Bearer " ++ jwt.encode (access_claims settings now user));
  refresh_token = some (jwt.encode (refresh_claims settings now user));
}

abbrev pub find_by_document : Text → Db → Option User
find_by_document cpf_cnpj db = first (has_document cpf_cnpj) db.users

pub record LoginRequest : Type 0 where
  pub client_ip : Text
  pub cpf_cnpj : Text
  pub password : Text
  pub monotonic : ℕ
  pub now : ℕ

unfoldable pub check_password : Hasher → Jwt → TokenSettings → LoginRequest → Db → Response Cookies
check_password hasher jwt settings request db =
    elim (find_by_document (keep_if is_digit request.cpf_cnpj) db) [
      | none ↦ failure 401
      | some user ↦
          if not (hasher.verify request.password user.hashed_password)
          then failure 401
          else if not user.email_verified
          then failure 403
          else success (issue jwt settings request.now user)
    ]

-- `login`
unfoldable pub login :
    Hasher → Jwt → TokenSettings → Store → LoginRequest → Db → Store × Response Cookies
unfolding check_password
login hasher jwt settings store request db =
    let (store', allowed) =
      rate_limit store request.client_ip login_max login_window request.monotonic in
    (store', if allowed then check_password hasher jwt settings request db else failure 429)

abbrev pub logout : Cookies → Cookies
logout cookies = record { access_token = none; refresh_token = none }

-- `raw_cookie.partition(" ")`
abbrev pub before_space : Text → Text
before_space [] = []
before_space (c ∷ s) = if c == b' ' then [] else c ∷ before_space s

abbrev pub after_space : Text → Text
after_space [] = []
after_space (c ∷ s) = if c == b' ' then s else after_space s

-- `_decode_access_token`
unfoldable pub decode_access_token : Jwt → ℕ → Text → Option Claims
decode_access_token jwt now raw_cookie =
    elim (jwt.decode now (or_text (after_space raw_cookie) (before_space raw_cookie))) [
      | none ↦ none
      | some payload ↦ if payload.is_refresh then none else some payload
    ]

abbrev pub may_refresh : User → Bool
may_refresh user = user.email_verified && user.is_active

-- The user whom a refresh token stands for.
unfoldable pub refreshed_user : Jwt → ℕ → Text → Db → Option User
refreshed_user jwt now refresh_raw db = elim (jwt.decode now refresh_raw) [
  | none ↦ none
  | some payload ↦
      if not payload.is_refresh || is_empty payload.sub
      then none
      else elim (find_by_document payload.sub db) [
        | none ↦ none
        | some user ↦ if may_refresh user then some user else none
      ]
]

-- `_try_refresh`
unfoldable pub try_refresh : Jwt → TokenSettings → ℕ → Text → Db → Option (User × Cookies)
unfolding refreshed_user
try_refresh jwt settings now refresh_raw db = elim (refreshed_user jwt now refresh_raw db) [
  | none ↦ none
  | some user ↦ some (user, issue jwt settings now user)
]

-- The endpoint `refresh_token`
unfoldable pub refresh_session : Jwt → TokenSettings → ℕ → Cookies → Db → Response Cookies
unfolding refreshed_user
refresh_session jwt settings now cookies db = elim cookies.refresh_token [
  | none ↦ failure 401
  | some refresh ↦ elim (refreshed_user jwt now refresh db) [
    | none ↦ failure 401
    | some user ↦ success (issue jwt settings now user)
  ]
]

-- The user of the access token.
unfoldable pub access_user : Jwt → ℕ → Cookies → Db → Option User
unfolding decode_access_token
access_user jwt now cookies db = elim cookies.access_token [
  | none ↦ none
  | some raw ↦ elim (decode_access_token jwt now raw) [
    | none ↦ none
    | some payload ↦ if is_empty payload.sub then none else find_by_document payload.sub db
  ]
]

abbrev pub gate : User → Response User
gate user = if user.email_verified then success user else failure 403

-- `get_current_user`, with the cookies that it leaves.
unfoldable pub get_current_user : Jwt → TokenSettings → ℕ → Cookies → Db → Cookies × Response User
unfolding access_user try_refresh
get_current_user jwt settings now cookies db = elim (access_user jwt now cookies db) [
  | some user ↦ (cookies, gate user)
  | none ↦ elim cookies.refresh_token [
    | none ↦ (cookies, failure 401)
    | some refresh ↦ elim (try_refresh jwt settings now refresh db) [
      | none ↦ (cookies, failure 401)
      | some (user, renewed) ↦ (renewed, gate user)
    ]
  ]
]

-- `require_admin`, after `get_current_user`.
abbrev pub require_admin : Response User → Response User
require_admin (success user) = if user.is_admin then success user else failure 403
require_admin (failure code) = failure code

abbrev pub is_deposit_of : User → PixTransaction → Bool
is_deposit_of user t =
    t.user_id == user.id && type_eq t.type received && status_eq t.status confirmed

-- `require_active_account`, after `get_current_user`.
abbrev pub require_active_account : Db → Response User → Response User
require_active_account db (failure code) = failure code
require_active_account db (success user) = elim (first (is_deposit_of user) db.transactions) [
  | none ↦ failure 403
  | some has_deposit ↦ success user
]
