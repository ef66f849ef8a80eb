-- ===== src/Admin/Identity.antt =====
-- What the administrator's operations on accounts leave alone.
use biocodetechpay.Prelude.{
  text_eq, ℕ, ◌≡◌, refl, ap, some, Bool, false, List, [], ◌∷◌, map, Text, ℤ, arith, inl, inr,
  Option-cases, Bool-cases, update_first, keep_if, count_where, ◌==◌,
}
use biocodetechpay.Store.{Db, User, PixTransaction, find_user, has_id}
use biocodetechpay.Http.{success}
use biocodetechpay.Admin.Users.{
  AdminEditUserRequest, edit_user, apply_edit, is_refused, delete_user, of_other,
}

-- The fields that an edit is not to touch.
pub record Identity : Type 0 where
  pub id : ℕ
  pub cpf_cnpj : Text
  pub email : Text
  pub balance : ℤ
  pub hashed_password : Text
  pub is_admin : Bool
  pub is_active : Bool

abbrev pub identity : User → Identity
identity u = record {
  id = u.id;
  cpf_cnpj = u.cpf_cnpj;
  email = u.email;
  balance = u.balance;
  hashed_password = u.hashed_password;
  is_admin = u.is_admin;
  is_active = u.is_active;
}

map-update_first :
    (p : User → Bool) (f : User → User) (users : List User)
    → ((u : User) → identity (f u) ≡ identity u)
    → map identity (update_first p f users) ≡ map identity users
map-update_first p f [] same = refl
map-update_first p f (u ∷ users) same = elim (Bool-cases (p u)) [
  | inl hit ↦ rw hit (ap (λ x. x ∷ map identity users) (same u))
  | inr miss ↦ rw miss (ap (λ xs. identity u ∷ xs) (map-update_first p f users same))
]

-- No edit, accepted or refused, changes identifier, document, address, balance, password, or the
-- flags of administrator and activity of any account.
pub edit_keeps_identity :
    (user_id : ℕ) (p : AdminEditUserRequest) (db : Db)
    → map identity (edit_user user_id p db).0.users ≡ map identity db.users
unfolding edit_user
edit_keeps_identity user_id p db = elim (Option-cases (find_user user_id db)) [
  | inl unknown ↦ rw (unknown, edit_user) refl
  | inr (u, e) ↦ elim (Bool-cases (is_refused p)) [
    | inl bad ↦ rw (e, edit_user) (rw bad refl)
    | inr good ↦
        rw (e, edit_user)
          (rw good (map-update_first (has_id user_id) (apply_edit p) db.users (λ u. refl)))
  ]
]

of_gone :
    (user_id : ℕ) (rows : List PixTransaction)
    → count_where (λ t. t.user_id == user_id) (keep_if (of_other user_id) rows) ≡ 0
of_gone user_id [] = refl
of_gone user_id (t ∷ rows) = elim (Bool-cases (t.user_id == user_id)) [
  | inl own ↦ rw own (of_gone user_id rows)
  | inr other ↦ rw other (ground (arith, other, of_gone user_id rows))
]

-- The deletion of an account that is neither an administrator, nor the matrix account, nor the caller
-- removes every transaction of the account and leaves its ledger entries, pending ones among them.
pub delete_leaves_ledger :
    (m : Text) (admin_id user_id : ℕ) (db : Db) (u : User)
    → find_user user_id db ≡ some u
    → u.is_admin ≡ false
    → text_eq u.email m ≡ false
    → (u.id == admin_id) ≡ false
    → let (db', response) = delete_user m admin_id user_id db in
      (response ≡ success tt)
      × (count_where (λ t. t.user_id == user_id) db'.transactions ≡ 0)
      × (db'.ledger_entries ≡ db.ledger_entries)
unfolding delete_user
delete_leaves_ledger m admin_id user_id db u h plain other_mail other_id =
    rw (h, delete_user)
      (rw (plain, other_mail) (rw other_id (refl, of_gone user_id db.transactions, refl)))
