-- ===== src/Store.antt =====
-- The database: the rows of app/auth/models.py, app/pix/models.py and app/boleto/models.py that the
-- services read and write, and the queries that they share. Identifiers are only compared, so they
-- are numbers; money is in whole cents, what the Numeric(15, 2) columns hold; a time is a number of
-- seconds. `Session` calls act on the value of `Db` that a function returns.
pub mod Total
pub mod Unique
use biocodetechpay.Prelude.{
  ℕ, ◌+◌, ◌≡◌, refl, ◌⊎◌, inl, inr, ℤ, Bool, true, false, ◌&&◌, ◌||◌, List, [], ◌∷◌, Option, none,
  some, Text, text_eq, first, update_first, update_all, sum_where, ◌==◌, if◌then◌else◌,
}
use biocodetechpay.Money.{Cents}

-- The contact columns of `User`.
pub record Contact : Type 0 where
  pub phone : Option Text
  pub address_street : Option Text
  pub address_number : Option Text
  pub address_complement : Option Text
  pub address_city : Option Text
  pub address_state : Option Text
  pub address_zip : Option Text

-- `User`. Nullable columns are options.
pub record User : Type 0 where
  pub id : ℕ
  pub name : Text
  pub cpf_cnpj : Text
  pub email : Text
  pub balance : ℤ
  pub credit_limit : Cents
  pub pix_random_key : Option Text
  pub pix_email_key : Option Text
  pub email_verified : Bool
  pub document_verified : Bool
  pub hashed_password : Text
  pub asaas_customer_id : Option Text
  pub is_active : Bool
  pub is_admin : Bool
  pub email_verification_token : Option Text
  pub email_verification_sent_at : Option ℕ
  pub password_reset_token : Option Text
  pub password_reset_sent_at : Option ℕ
  pub contact : Contact

pub data PixStatus : Type 0 where
  created processing confirmed failed canceled scheduled : PixStatus

pub data TransactionType : Type 0 where
  sent received : TransactionType

pub data PixKeyType : Type 0 where
  cpf cnpj email phone random : PixKeyType

pub record PixTransaction : Type 0 where
  pub id : ℕ
  pub value : Cents
  pub pix_key : Text
  pub key_type : PixKeyType
  pub type : TransactionType
  pub status : PixStatus
  pub user_id : ℕ
  pub idempotency_key : Text
  pub correlation_id : Text
  pub scheduled_date : Option ℕ
  pub recipient_name : Option Text
  pub fee_amount : Option Cents
  pub created_at : ℕ
  pub payload_hash : Option Text
  pub copy_paste_code : Option Text
  pub expires_at : Option ℕ

abbrev pub or_zero : Option Cents → Cents
or_zero none = 0
or_zero (some fee) = fee

-- `fee_amount or 0`, `coalesce(fee_amount, 0)`
abbrev pub fee_of : PixTransaction → Cents
fee_of t = or_zero t.fee_amount

pub data LedgerEntryType : Type 0 where
  debit credit : LedgerEntryType

pub data LedgerEntryStatus : Type 0 where
  pending settled reversed : LedgerEntryStatus

pub record LedgerEntry : Type 0 where
  pub id : ℕ
  pub account_id : ℕ
  pub entry_type : LedgerEntryType
  pub amount : Cents
  pub status : LedgerEntryStatus
  pub tx_id : ℕ
  pub settled_at : Option ℕ

-- The only status that the payment writes is `PAID`. Its value is signed, as the request's is.
pub record BoletoTransaction : Type 0 where
  pub id : ℕ
  pub value : ℤ
  pub barcode : Text
  pub user_id : ℕ
  pub fee_amount : Cents

pub record Db : Type 0 where
  pub users : List User
  pub transactions : List PixTransaction
  pub ledger_entries : List LedgerEntry
  pub boletos : List BoletoTransaction

-- The comparisons of enumeration values.
abbrev pub status_eq : PixStatus → PixStatus → Bool
status_eq created created = true
status_eq processing processing = true
status_eq confirmed confirmed = true
status_eq failed failed = true
status_eq canceled canceled = true
status_eq scheduled scheduled = true
status_eq _ _ = false

abbrev pub type_eq : TransactionType → TransactionType → Bool
type_eq sent sent = true
type_eq received received = true
type_eq _ _ = false

pub TransactionType-cases : (type : TransactionType) → (type ≡ sent) ⊎ (type ≡ received)
TransactionType-cases sent = inl refl
TransactionType-cases received = inr refl

abbrev pub is_pending : LedgerEntryStatus → Bool
is_pending pending = true
is_pending _ = false

-- A nullable column compared with a text: null equals nothing.
abbrev pub column_eq : Option Text → Text → Bool
column_eq none t = false
column_eq (some s) t = text_eq s t

-- `db.query(User).filter(User.id == user_id).first()`
abbrev pub has_id : ℕ → User → Bool
has_id user_id u = u.id == user_id

abbrev pub find_user : ℕ → Db → Option User
find_user user_id db = first (has_id user_id) db.users

-- An assignment to the fields of the user with that id.
abbrev pub update_user : ℕ → (User → User) → Db → Db
update_user user_id f db = record db { users = update_first (has_id user_id) f db.users }

abbrev pub set_balance : ℤ → User → User
set_balance b u = record u { balance = b }

-- `db.query(PixTransaction).filter(PixTransaction.id == pix_id).first()`
abbrev pub has_tx_id : ℕ → PixTransaction → Bool
has_tx_id pix_id t = t.id == pix_id

abbrev pub find_transaction : ℕ → Db → Option PixTransaction
find_transaction pix_id db = first (has_tx_id pix_id) db.transactions

abbrev pub update_transaction : ℕ → (PixTransaction → PixTransaction) → Db → Db
update_transaction pix_id f db = record db {
  transactions = update_first (has_tx_id pix_id) f db.transactions;
}

abbrev pub set_status : PixStatus → PixTransaction → PixTransaction
set_status s t = record t { status = s }

-- `db.add` of a new row.
abbrev pub add_transaction : PixTransaction → Db → Db
add_transaction t db = record db { transactions = t ∷ db.transactions }
