-- ===== src/Api/Keys.antt =====
-- The keys of an account: `_normalize_pix_key`, `get_minhas_chaves`, `register_email_pix_key` and
-- `remove_email_pix_key` of app/pix/router.py, and `mask_cpf_cnpj` of app/core/utils.py.
use biocodetechpay.Prelude.{
  ℕ, ◌-◌, Bool, false, not, ◌&&◌, ◌==◌, Option, none, some, List, [], ◌∷◌, ◌++◌, Text, codes,
  text_eq, is_digit, keep_if, length, starts_with, slice, take, drop, strip, lower, ltb, leb, first,
  any, if◌then◌else◌,
}
use biocodetechpay.Store.{
  Db, User, PixKeyType, cpf, cnpj, email, phone, random, column_eq, find_user, update_user,
}
use biocodetechpay.Http.{Http, success, failure}

abbrev pub digits_of : Text → Text
digits_of s = keep_if is_digit s

-- A leading country code is taken off.
abbrev pub national : Text → Text
national digits =
    if starts_with digits (codes "55") && ltb 11 (length digits) then drop 2 digits else digits

-- `_normalize_pix_key`
unfoldable pub normalize_pix_key : PixKeyType → Text → Text
normalize_pix_key phone chave = codes "+55" ++ national (digits_of chave)
normalize_pix_key cpf chave = digits_of chave
normalize_pix_key cnpj chave = digits_of chave
normalize_pix_key email chave = lower (strip chave)
normalize_pix_key random chave = strip chave

abbrev pub masked_cpf_of : Text → Text
masked_cpf_of d = codes "***." ++ slice 3 6 d ++ codes "." ++ slice 6 9 d ++ codes "-**"

abbrev pub masked_cnpj_of : Text → Text
masked_cnpj_of d = codes "**.***." ++ slice 5 8 d ++ codes "/" ++ slice 8 12 d ++ codes "-**"

-- `doc[:3] + "***" + doc[-2:]`
abbrev pub masked_text : Text → Text
masked_text doc = take 3 doc ++ codes "***" ++ drop (length doc - 2) doc

-- `doc.split("@")`
unfoldable pub split_at : ℕ → Text → List Text
split_at sep [] = [] ∷ []
split_at sep (c ∷ s) =
    let rest = split_at sep s in
    if c == sep
    then [] ∷ rest
    else elim rest [ [] ↦ (c ∷ []) ∷ [] | part ∷ parts ↦ (c ∷ part) ∷ parts ]

-- The two parts of an address; with any other number of parts the assignment raises.
abbrev pub masked_address : List Text → Option Text
masked_address (user ∷ domain ∷ []) = some (take 2 user ++ codes "***@" ++ domain)
masked_address _ = none

-- `mask_cpf_cnpj`; `none` is the `ValueError`.
unfoldable pub mask_cpf_cnpj : Text → Option Text
unfolding split_at
mask_cpf_cnpj doc =
    if length (digits_of doc) == 11
    then some (masked_cpf_of (digits_of doc))
    else if length (digits_of doc) == 14
    then some (masked_cnpj_of (digits_of doc))
    else if any (λ c. c == b'@') doc
    then masked_address (split_at b'@' doc)
    else some (masked_text doc)

-- The identifier that `get_minhas_chaves` shows.
unfoldable pub your_identifier : User → Text
your_identifier current_user =
    let raw = digits_of current_user.cpf_cnpj in
    if length raw == 11
    then masked_cpf_of raw
    else if length raw == 14
    then masked_cnpj_of raw
    else if leb 5 (length raw)
    then masked_text raw
    else codes "***"

-- The key that an account can register is its own address.
abbrev pub email_key_of : User → Text
email_key_of u = lower (strip u.email)

abbrev pub has_email_key : User → Bool
has_email_key u = elim u.pix_email_key [
  | none ↦ false
  | some key ↦ not (length key == 0) && text_eq (lower key) (email_key_of u)
]

abbrev pub holds_key : Text → ℕ → User → Bool
holds_key key user_id u = column_eq u.pix_email_key key && not (u.id == user_id)

abbrev pub set_email_key : Option Text → User → User
set_email_key key u = record u { pix_email_key = key }

-- `register_email_pix_key`
unfoldable pub register_email_pix_key : User → Db → Http Text
register_email_pix_key current_user db =
    let key = email_key_of current_user in
    if has_email_key current_user
    then (db, success key)
    else elim (first (holds_key key current_user.id) db.users) [
      | some conflict ↦ (db, failure 409)
      | none ↦ elim (find_user current_user.id db) [
        | none ↦ (db, failure 404)
        | some live_user ↦ (update_user current_user.id (set_email_key (some key)) db, success key)
      ]
    ]

-- `remove_email_pix_key`
unfoldable pub remove_email_pix_key : User → Db → Db
remove_email_pix_key current_user db = elim current_user.pix_email_key [
  | none ↦ db
  | some key ↦ if length key == 0 then db else update_user current_user.id (set_email_key none) db
]
