-- ===== src/Api/Statement.antt =====
-- `list_statement` of app/pix/service.py: the latest transactions of a user, and the totals. The sum
-- of what was received, which the source computes as well, appears in no answer.
use biocodetechpay.Prelude.{
  ℕ, ℤ, pos, Bool, true, ◌&&◌, ◌==◌, Option, none, some, List, [], ◌∷◌, keep_if, length, take, leb,
  sum_where, if◌then◌else◌,
}
use biocodetechpay.Money.{Cents}
use biocodetechpay.Store.{
  Db, PixTransaction, PixStatus, confirmed, sent, status_eq, type_eq, find_user,
}

abbrev pub has_status : Option PixStatus → PixTransaction → Bool
has_status none t = true
has_status (some status) t = status_eq t.status status

abbrev pub is_listed : ℕ → Option PixStatus → PixTransaction → Bool
is_listed user_id status t = t.user_id == user_id && has_status status t

-- `order_by(PixTransaction.created_at.desc())`
unfoldable pub insert_desc : PixTransaction → List PixTransaction → List PixTransaction
insert_desc t [] = t ∷ []
insert_desc t (x ∷ rows) =
    let rest = insert_desc t rows in
    if leb x.created_at t.created_at then t ∷ x ∷ rows else x ∷ rest

unfoldable pub latest_first : List PixTransaction → List PixTransaction
unfolding insert_desc
latest_first [] = []
latest_first (t ∷ rows) = insert_desc t (latest_first rows)

abbrev pub is_spent : ℕ → PixTransaction → Bool
is_spent user_id t = t.user_id == user_id && type_eq t.type sent && status_eq t.status confirmed

pub record Statement : Type 0 where
  pub total_transactions : ℕ
  pub total_value : Cents
  pub balance : ℤ
  pub transactions : List PixTransaction

unfoldable pub list_statement : ℕ → ℕ → Option PixStatus → Db → Statement
unfolding latest_first
list_statement user_id limit status db =
    let rows = take limit (latest_first (keep_if (is_listed user_id status) db.transactions)) in
    record {
      total_transactions = length rows;
      total_value = sum_where (is_spent user_id) (λ t. t.value) db.transactions;
      balance = elim (find_user user_id db) [ none ↦ pos 0 | some user ↦ user.balance ];
      transactions = rows;
    }
