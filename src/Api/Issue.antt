-- ===== src/Api/Issue.antt =====
-- The charges that a user issues: `ensure_asaas_customer` and `create_pix_charge_with_qrcode` of
-- app/pix/service.py, `create_pix_charge_endpoint` and `generate_pix_charge` of app/pix/router.py.
use biocodetechpay.Prelude.{
  ℕ, ◌+◌, ltb, ◌*◌, Bool, ◌||◌, ◌==◌, Option, none, some, [], ◌∷◌, ◌++◌, Text, codes, length, take,
  if◌then◌else◌,
}
use biocodetechpay.Money.{Cents}
use biocodetechpay.Store.{
  Db, User, PixTransaction, random, received, created, find_user, update_user, add_transaction,
}
use biocodetechpay.Emv.Build.{build_pix_static_emv}
use biocodetechpay.Http.{Http, Response, success, failure, id_text}
use biocodetechpay.Qrcode.Rows.{can_insert}

-- The charge that the gateway answers with.
pub record ChargeData : Type 0 where
  pub charge_id : ℕ
  pub qr_code : Text
  pub expires_at : Option ℕ

-- The gateway: whether it is configured, the identifier of the customer that it creates, and the
-- charge; `none` is an exception.
pub record IssueGateway : Type 0 where
  pub is_configured : Bool
  pub new_customer : Option Text
  pub new_charge : Option ChargeData

abbrev pub set_customer : Text → User → User
set_customer customer_id u = record u { asaas_customer_id = some customer_id }

-- An absent or empty column.
abbrev pub customer_of : User → Text
customer_of u = elim u.asaas_customer_id [ none ↦ [] | some customer_id ↦ customer_id ]

-- The customer is created at the gateway, and its identifier committed.
abbrev pub create_customer : IssueGateway → ℕ → Db → Http (Option Text)
create_customer gateway user_id db = elim gateway.new_customer [
  | none ↦ (db, failure 500)
  | some customer_id ↦
      (update_user user_id (set_customer customer_id) db, success (some customer_id))
]

-- `ensure_asaas_customer`; the statuses are those with which `create_pix_charge_endpoint` answers the
-- `ValueError` and the other exceptions.
unfoldable pub ensure_asaas_customer : IssueGateway → ℕ → Db → Http (Option Text)
ensure_asaas_customer gateway user_id db =
    if gateway.is_configured
    then elim (find_user user_id db) [
      | none ↦ (db, failure 400)
      | some user ↦ elim (customer_of user) [
        | [] ↦ create_customer gateway user_id db
        | c ∷ s ↦ (db, success (some (c ∷ s)))
      ]
    ]
    else (db, success none)

-- The arguments of both ways to issue a charge, with the fresh identifiers and the clock.
pub record IssueCall : Type 0 where
  pub value : Cents
  pub description : Text
  pub due_date : Option ℕ
  pub user_id : ℕ
  pub idempotency_key : Text
  pub correlation_id : Text
  pub gateway : IssueGateway
  pub new_id : ℕ
  pub local_key : ℕ
  pub now : ℕ

abbrev pub charge_row : IssueCall → ℕ → Text → Text → Option Text → Option ℕ → PixTransaction
charge_row c id pix_key idempotency_key copy_paste_code expires_at = record {
  id = id;
  value = c.value;
  pix_key = pix_key;
  key_type = random;
  type = received;
  status = created;
  user_id = c.user_id;
  idempotency_key = idempotency_key;
  correlation_id = c.correlation_id;
  scheduled_date = none;
  recipient_name = none;
  fee_amount = none;
  created_at = c.now;
  payload_hash = none;
  copy_paste_code = copy_paste_code;
  expires_at = expires_at;
}

-- `db.add` and `db.commit`, which raises where a unique column clashes.
abbrev pub commit_row : PixTransaction → Db → Http PixTransaction
commit_row row db =
    if can_insert row db then (add_transaction row db, success row) else (db, failure 500)

abbrev pub local_charge : IssueCall → PixTransaction
local_charge c =
    charge_row c c.new_id (codes "local-charge-" ++ id_text c.local_key) c.idempotency_key none none

abbrev pub gateway_charge : IssueCall → ChargeData → PixTransaction
gateway_charge c d = charge_row c d.charge_id (take 200 d.qr_code) c.idempotency_key none none

-- The charge for a customer.
abbrev pub charge_customer : IssueCall → Text → Db → Http PixTransaction
charge_customer c [] db = commit_row (local_charge c) db
charge_customer c (x ∷ customer_id) db = elim c.gateway.new_charge [
  | none ↦ (db, failure 500)
  | some charge_data ↦ commit_row (gateway_charge c charge_data) db
]

-- `create_pix_charge_with_qrcode`
unfoldable pub create_pix_charge_with_qrcode : IssueCall → Db → Http PixTransaction
create_pix_charge_with_qrcode c db =
    let (db', customer) = ensure_asaas_customer c.gateway c.user_id db in
    elim customer [
      | failure code ↦ (db', failure code)
      | success customer_id ↦ elim customer_id [
        | none ↦ commit_row (local_charge c) db'
        | some id ↦ charge_customer c id db'
      ]
    ]

-- R$1,000,000.00
abbrev pub max_charge : Cents
max_charge = 100000000

-- `create_pix_charge_endpoint`. Its `HTTPException`s are caught by the last clause of the `try`,
-- which answers with status 500.
unfoldable pub create_pix_charge_endpoint : IssueCall → Db → Http PixTransaction
create_pix_charge_endpoint c db =
    if c.value == 0 || ltb max_charge c.value
    then (db, failure 500)
    else if length c.description == 0 || ltb 500 (length c.description)
    then (db, failure 500)
    else create_pix_charge_with_qrcode c db

-- The row of a real charge of `generate_pix_charge`.
abbrev pub real_charge : IssueCall → ChargeData → PixTransaction
real_charge c d =
    charge_row c d.charge_id (take 200 d.qr_code) (codes "cobrar-" ++ c.correlation_id)
      (some d.qr_code) d.expires_at

-- The row of the fallback; without a date of expiry it is open for a day.
abbrev pub simulated_charge : IssueCall → PixTransaction
simulated_charge c =
    charge_row c c.new_id (id_text c.new_id) (codes "charge-" ++ id_text c.new_id)
      (some (build_pix_static_emv (id_text c.new_id) c.value))
      (elim c.due_date [ none ↦ some (c.now + 24 * 3600) | some date ↦ some date ])

-- The real charge for a customer; `none` where none was made.
abbrev pub real_row : IssueCall → Response (Option Text) → Option PixTransaction
real_row c (failure code) = none
real_row c (success none) = none
real_row c (success (some [])) = none
real_row c (success (some (x ∷ customer_id))) = elim c.gateway.new_charge [
  | none ↦ none
  | some charge_data ↦ some (real_charge c charge_data)
]

abbrev pub simulate : IssueCall → Db → Http PixTransaction
simulate c db = commit_row (simulated_charge c) db

-- The attempt at a real charge. What `ensure_asaas_customer` has committed stays when it fails.
unfoldable pub attempt_charge : IssueCall → Db → Http PixTransaction
attempt_charge c db =
    let (db', customer) = ensure_asaas_customer c.gateway c.user_id db in
    elim (real_row c customer) [
      | none ↦ simulate c db'
      | some row ↦
          if can_insert row db' then (add_transaction row db', success row) else simulate c db'
    ]

-- `generate_pix_charge`
unfoldable pub generate_pix_charge : IssueCall → Db → Http PixTransaction
unfolding attempt_charge
generate_pix_charge c db =
    if c.gateway.is_configured
    then (if c.value == 0 then simulate c db else attempt_charge c db)
    else simulate c db
