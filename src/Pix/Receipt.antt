-- ===== src/Pix/Receipt.antt =====
-- The credit of an incoming payment, `credit_pix_receipt` of app/pix/service.py.
use biocodetechpay.Prelude.{
  ◌+◌, ◌-◌, ◌*◌, min, pos, ◌+ℤ◌, true, Option, none, some, Text, ◌==◌, if◌then◌else◌,
}
use biocodetechpay.Money.{Cents, reais, quantize}
use biocodetechpay.Fees.{calculate_pix_fee}
use biocodetechpay.Store.{Db, User, update_user}
use biocodetechpay.Pix.Matrix.{credit_fee}

-- `CREDIT_LIMIT_CAP`
abbrev pub credit_limit_cap : Cents
credit_limit_cap = reais 50000 0

abbrev pub receive_fee_of : User → Cents → Option Cents → Cents
receive_fee_of receiver gross (some fee_override) = fee_override
receive_fee_of receiver gross none = calculate_pix_fee receiver.cpf_cnpj gross true true

-- Half of the gross value is added to the limit; the sum is capped before it is rounded.
abbrev pub raised_limit : Cents → Cents → Cents
raised_limit current gross =
    quantize (min (current * 10000 + gross * 5000) (credit_limit_cap * 10000))

-- The database, the net credit and the fee. The subtraction stops at zero, as `max(0, …)` does.
unfoldable pub credit_pix_receipt : Text → Db → User → Cents → Option Cents → Db × Cents × Cents
credit_pix_receipt matrix_email db receiver gross fee_override =
    let receive_fee = receive_fee_of receiver gross fee_override in
    let net = gross - receive_fee in
    let limit = raised_limit receiver.credit_limit gross in
    let credited =
      update_user receiver.id
        (λ u. record u { balance = receiver.balance +ℤ pos net; credit_limit = limit }) db in
    (
      if receive_fee == 0 then credited else credit_fee matrix_email receive_fee credited,
      net,
      receive_fee,
    )
