-- ===== src/Auth/Tests.antt =====
-- Sessions and accounts with a plain hash and plain tokens, and the theorems at inputs that meet
-- their hypotheses.
use biocodetechpay.Prelude.{
  ℕ, ◌≡◌, ◌≤◌, refl, Bool, true, false, none, some, Option, Text, codes, arith, [], ◌∷◌, ◌++◌, List,
  text_eq, text_eq_refl, count_where, first, leb, if◌then◌else◌, keep_if, is_digit, length, zero,
  suc,
}
use biocodetechpay.Documents.{validate_document, validate_cpf, cpf_check}
use biocodetechpay.Store.{Db, User, has_id}
use biocodetechpay.Pix.Samples.{ana, bia, bank}
use biocodetechpay.Http.{success, failure}
use biocodetechpay.Auth.Limiter.{no_attempts, purge}
use biocodetechpay.Auth.Window.{Attempt, allowed_times, within, window_bounds}
use biocodetechpay.Auth.Session.{
  Hasher, Jwt, Claims, TokenSettings, Cookies, LoginRequest, issue, check_password,
  get_current_user,
}
use biocodetechpay.Auth.Admitted.{HasToken, authenticated}
use biocodetechpay.Auth.Account.{
  Registration, new_user, add_user, mark_verified, create_account, verify_email,
}
use biocodetechpay.Auth.Enrolment.{registered_logs_in}
use biocodetechpay.Auth.Recovery.{
  set_code, set_password, request_password_reset, confirm_password_reset,
}
use biocodetechpay.Auth.Reset.{code_serves_once, reset_logs_in}

-- A hash that is the password itself.
abbrev plain : Hasher
plain = record {
  hash = λ salt password. password;
  verify = text_eq;
  verify-hash = λ salt password. text_eq_refl password;
}

-- A token that is a flag, the expiry, the length of the subject, the subject and the name.
abbrev split_at : ℕ → Text → Text × Text
split_at zero s = ([], s)
split_at (suc n) [] = ([], [])
split_at (suc n) (c ∷ s) = let (a, b) = split_at n s in (c ∷ a, b)

abbrev as_bool : ℕ → Bool
as_bool zero = false
as_bool (suc n) = true

abbrev flag : Bool → ℕ
flag true = 1
flag false = 0

abbrev write : Claims → Text
write c = flag c.is_refresh ∷ (c.exp ∷ (length c.sub ∷ (c.sub ++ c.name)))

abbrev read : ℕ → Text → Option Claims
read now (f ∷ exp ∷ n ∷ rest) =
    if leb now exp
    then some (record {
      sub = (split_at n rest).0;
      name = (split_at n rest).1;
      exp = exp;
      is_refresh = as_bool f;
    })
    else none
read now _ = none

split_at-append : (s t : Text) → split_at (length s) (s ++ t) ≡ (s, t)
split_at-append [] t = refl
split_at-append (c ∷ s) t = rw (split_at-append s t) refl

as_bool-flag : (b : Bool) → as_bool (flag b) ≡ b
as_bool-flag true = refl
as_bool-flag false = refl

le→leb : (a b : ℕ) → a ≤ b → leb a b ≡ true
le→leb a b h = ground arith

read-write : (c : Claims) (now : ℕ) → now ≤ c.exp → read now (write c) ≡ some c
read-write c now h =
    rw (le→leb now c.exp h) (rw (split_at-append c.sub c.name, as_bool-flag c.is_refresh) refl)

abbrev unsigned : Jwt
unsigned = record {
  encode = write;
  decode = read;
  encode-some = λ c. refl;
  decode-encode = read-write;
}

abbrev minutes : TokenSettings
minutes = record { access_minutes = 15; refresh_minutes = 600 }

abbrev at_six : List Attempt
at_six =
    record { client_ip = codes "a"; time = 1 }
    ∷ record { client_ip = codes "a"; time = 2 }
    ∷ record { client_ip = codes "b"; time = 3 }
    ∷ record { client_ip = codes "a"; time = 4 }
    ∷ record { client_ip = codes "a"; time = 70 }
    ∷ []

-- The third attempt of the first address is refused; after the window it may go on.
two_allowed : allowed_times 2 60 (codes "a") no_attempts at_six ≡ 1 ∷ 2 ∷ 70 ∷ []
unfolding allowed_times purge
two_allowed = refl

window_bounds_example :
    count_where (within 1 60) (allowed_times 2 60 (codes "a") no_attempts at_six) ≤ 2
window_bounds_example = window_bounds 2 60 1 (codes "a") at_six (omega arith)

abbrev carla : User
carla = record ana { hashed_password = codes "segredo" }

abbrev town : Db
town = record bank { users = carla ∷ bia ∷ [] }

abbrev knock : LoginRequest
knock = record {
  client_ip = codes "a";
  cpf_cnpj = codes "529.982.247-25";
  password = codes "segredo";
  monotonic = 5;
  now = 1000;
}

abbrev suspended : User
suspended = record carla { is_active = false }

abbrev shut_town : Db
shut_town = record bank { users = suspended ∷ [] }

-- After two hours the access token has expired, and the refresh token lets carla in within its ten
-- hours.
abbrev evening : Cookies
evening = issue unsigned minutes 1000 carla

renewed : (get_current_user unsigned minutes 9000 evening town).1 ≡ success carla
unfolding get_current_user
renewed = refl

authenticated_example : (carla.email_verified ≡ true) × HasToken unsigned 9000 evening carla
authenticated_example = authenticated unsigned minutes 9000 evening town carla renewed

abbrev newcomer : Registration
newcomer = record {
  name = codes "Davi";
  cpf_cnpj = codes "111.444.777-35";
  email = codes "davi@example.com";
  password = codes "senha-1";
  phone = codes "11999990000";
  contact = ana.contact;
  client_ip = codes "a";
  new_id = 77;
  email_token = codes "tok";
  pix_random_key = codes "key";
  salt = 3;
  monotonic = 9;
  now = 2000;
}

abbrev first_login : LoginRequest
first_login = record knock {
  cpf_cnpj = codes "11144477735";
  password = codes "senha-1";
  now = 9000;
}

valid_document : (validate_document (keep_if is_digit newcomer.cpf_cnpj)).0 ≡ true
unfolding validate_document validate_cpf cpf_check
valid_document = refl

registered_logs_in_example :
    let registered = add_user (new_user plain newcomer) town in
    let verified = add_user (mark_verified (new_user plain newcomer)) town in
    (create_account plain newcomer town ≡ (registered, success tt))
    × (check_password plain unsigned minutes first_login registered ≡ failure 403)
    × (verify_email unsigned minutes (codes "tok") 8000 registered
        ≡ (verified, success (issue unsigned minutes 8000 (new_user plain newcomer))))
    × (check_password plain unsigned minutes first_login verified
        ≡ success (issue unsigned minutes 9000 (mark_verified (new_user plain newcomer))))
registered_logs_in_example =
    registered_logs_in plain unsigned minutes newcomer first_login town refl refl 8000
      valid_document refl (omega arith)

abbrev coded : Db
coded = record bank { users = set_code plain 1 (codes "AB-12") 3000 carla ∷ bia ∷ [] }

code_serves_once_example :
    let db' =
      (confirm_password_reset plain 2 (codes "AB-12") (codes "nova-1") (codes "nova-1") coded).0 in
    (first (has_id 1) db'.users
      ≡ some (set_password plain 2 (codes "nova-1") (set_code plain 1 (codes "AB-12") 3000 carla)))
    × (confirm_password_reset plain 4 (codes "AB-12") (codes "nova-2") (codes "nova-2") db'
        ≡ (db', failure 400))
code_serves_once_example =
    code_serves_once plain 2 4 (codes "AB-12") (codes "nova-1") (codes "nova-2") coded
      (set_code plain 1 (codes "AB-12") 3000 carla) refl refl refl

reset_logs_in_example :
    let requested = (request_password_reset plain 1 (codes "AB-12") carla.email 3000 town).0 in
    let reset =
      (confirm_password_reset plain 2
        (codes "AB-12")
        (codes "segredo")
        (codes "segredo")
        requested).0 in
    check_password plain unsigned minutes knock reset
    ≡ success (
        issue unsigned minutes 1000
          (set_password plain 2 (codes "segredo") (set_code plain 1 (codes "AB-12") 3000 carla)))
reset_logs_in_example =
    reset_logs_in plain unsigned minutes knock 1 2 3000 (codes "AB-12") town carla refl refl refl
      refl refl
