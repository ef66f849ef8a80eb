-- ===== src/Admin/Users.antt =====
-- The administrator's operations on accounts: `toggle_user_active`, `admin_send_verification`,
-- `edit_user` and `delete_user` of app/web_routes.py.
use biocodetechpay.Prelude.{
  ℕ, ℤ, pos, pos_part, ltb_ℤ, Bool, false, not, ◌||◌, Option, none, some, List, [], ◌∷◌, Text,
  text_eq, strip, length, ltb, keep_if, ◌==◌, if◌then◌else◌,
}
use biocodetechpay.Money.{Cents}
use biocodetechpay.Store.{
  Db, User, Contact, PixTransaction, BoletoTransaction, find_user, update_user, has_id,
}
use biocodetechpay.Emv.Parse.{upper}
use biocodetechpay.Http.{Http, success, failure}
use biocodetechpay.Charge.Inbound.{is_empty}
use biocodetechpay.Auth.Account.{renew_token}

abbrev pub set_active : Bool → User → User
set_active active u = record u { is_active = active }

-- `toggle_user_active`
unfoldable pub toggle_user_active : ℕ → Bool → Db → Http Bool
toggle_user_active user_id active db = elim (find_user user_id db) [
  | none ↦ (db, failure 404)
  | some target ↦
      if target.is_admin
      then (db, failure 400)
      else (update_user user_id (set_active active) db, success active)
]

-- `admin_send_verification`; the last argument but one says whether the mail was sent.
unfoldable pub admin_send_verification : ℕ → Text → ℕ → Bool → Db → Http (Unit {0})
admin_send_verification user_id new_token now sent db = elim (find_user user_id db) [
  | none ↦ (db, failure 404)
  | some target ↦ if target.email_verified then (db, failure 400) else (
    update_user user_id (renew_token new_token now) db,
    if sent then success tt else failure 503,
  )
]

-- `AdminEditUserRequest`
pub record AdminEditUserRequest : Type 0 where
  pub name : Option Text
  pub phone : Option Text
  pub address_street : Option Text
  pub address_number : Option Text
  pub address_complement : Option Text
  pub address_city : Option Text
  pub address_state : Option Text
  pub address_zip : Option Text
  pub email_verified : Option Bool
  pub document_verified : Option Bool
  pub credit_limit : Option ℤ

-- The refusals of the fields.
abbrev pub bad_name : Option Text → Bool
bad_name none = false
bad_name (some s) = is_empty (strip s) || ltb 100 (length (strip s))

abbrev pub bad_state : Option Text → Bool
bad_state none = false
bad_state (some s) = ltb 2 (length (upper (strip s)))

abbrev pub bad_limit : Option ℤ → Bool
bad_limit none = false
bad_limit (some limit) = ltb_ℤ limit (pos 0)

abbrev pub is_refused : AdminEditUserRequest → Bool
is_refused p = bad_name p.name || bad_state p.address_state || bad_limit p.credit_limit

-- `text or None`
abbrev pub text_or_none : Text → Option Text
text_or_none [] = none
text_or_none (c ∷ s) = some (c ∷ s)

-- A field that the request leaves out stays.
abbrev pub edited {ℓ} : {A : Type ℓ} → Option A → A → A
edited none old = old
edited (some new) old = new

abbrev pub edited_text : Option Text → Option Text → Option Text
edited_text none old = old
edited_text (some s) old = text_or_none (strip s)

abbrev pub edited_state : Option Text → Option Text → Option Text
edited_state none old = old
edited_state (some s) old = text_or_none (upper (strip s))

abbrev pub edited_name : Option Text → Text → Text
edited_name none old = old
edited_name (some s) old = strip s

-- The limit that is written is not negative.
abbrev pub edited_limit : Option ℤ → Cents → Cents
edited_limit none old = old
edited_limit (some limit) old = pos_part limit

abbrev pub edited_contact : AdminEditUserRequest → Contact → Contact
edited_contact p c = record {
  phone = edited_text p.phone c.phone;
  address_street = edited_text p.address_street c.address_street;
  address_number = edited_text p.address_number c.address_number;
  address_complement = edited_text p.address_complement c.address_complement;
  address_city = edited_text p.address_city c.address_city;
  address_state = edited_state p.address_state c.address_state;
  address_zip = edited_text p.address_zip c.address_zip;
}

abbrev pub apply_edit : AdminEditUserRequest → User → User
apply_edit p u = record u {
  name = edited_name p.name u.name;
  email_verified = edited p.email_verified u.email_verified;
  document_verified = edited p.document_verified u.document_verified;
  credit_limit = edited_limit p.credit_limit u.credit_limit;
  contact = edited_contact p u.contact;
}

-- `edit_user`. A refusal leaves the fields that were assigned before it uncommitted.
unfoldable pub edit_user : ℕ → AdminEditUserRequest → Db → Http (Unit {0})
edit_user user_id p db = elim (find_user user_id db) [
  | none ↦ (db, failure 404)
  | some target ↦
      if is_refused p
      then (db, failure 400)
      else (update_user user_id (apply_edit p) db, success tt)
]

abbrev pub of_other : ℕ → PixTransaction → Bool
of_other user_id t = not (t.user_id == user_id)

abbrev pub boleto_of_other : ℕ → BoletoTransaction → Bool
boleto_of_other user_id t = not (t.user_id == user_id)

-- `db.delete` of the row.
abbrev pub remove_first {ℓ} : {A : Type ℓ} → (A → Bool) → List A → List A
remove_first p [] = []
remove_first p (x ∷ xs) = if p x then xs else x ∷ remove_first p xs

abbrev pub without : ℕ → Db → Db
without user_id db = record db {
  users = remove_first (has_id user_id) db.users;
  transactions = keep_if (of_other user_id) db.transactions;
  boletos = keep_if (boleto_of_other user_id) db.boletos;
}

-- `delete_user`; the cards of the user go too.
unfoldable pub delete_user : Text → ℕ → ℕ → Db → Http (Unit {0})
delete_user matrix_email admin_id user_id db = elim (find_user user_id db) [
  | none ↦ (db, failure 404)
  | some target ↦
      if target.is_admin
      then (db, failure 400)
      else if text_eq target.email matrix_email
      then (db, failure 400)
      else if target.id == admin_id
      then (db, failure 400)
      else (without user_id db, success tt)
]
