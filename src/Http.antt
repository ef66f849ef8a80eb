-- ===== src/Http.antt =====
-- What an endpoint answers: the database as it is left, with a value or with the status code of the
-- `HTTPException` that it raises. A raise discards what was not committed.
use biocodetechpay.Prelude.{ℕ, Text}
use biocodetechpay.Money.Format.{print_nat}
use biocodetechpay.Store.{Db}

pub data Response {ℓ} (A : Type ℓ) : Type ℓ where
  success : A → Response A
  failure : ℕ → Response A

abbrev pub Http {ℓ} : Type ℓ → Type ℓ
Http A = Db × Response A

-- The text of an identifier, where the source builds a key from it.
abbrev pub id_text : ℕ → Text
id_text i = print_nat i
