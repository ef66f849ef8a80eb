-- ===== src/Qrcode/Lookup.antt =====
-- `_find_internal_qrcode_charge` of app/pix/router.py. The identifiers that its two regular
-- expressions find in the code are arguments.
use biocodetechpay.Prelude.{
  ℕ, Bool, true, false, ◌&&◌, ◌||◌, Option, none, some, List, [], ◌∷◌, ◌++◌, Text, codes, text_eq,
  take, first, contains, if◌then◌else◌,
}
use biocodetechpay.Store.{
  Db, PixTransaction, PixStatus, created, confirmed, received, type_eq, status_eq, has_tx_id,
}
use biocodetechpay.Http.{id_text}

-- What the payer's code says: `_UUID_RE.findall` and `_ASAAS_ID_RE.findall` of the payload.
pub record Code : Type 0 where
  pub payload : Text
  pub uuids : List ℕ
  pub asaas_ids : List ℕ

abbrev pub is_charge : PixStatus → PixTransaction → Bool
is_charge status t = type_eq t.type received && status_eq t.status status

abbrev pub charge_with_id : PixStatus → ℕ → PixTransaction → Bool
charge_with_id status i t = has_tx_id i t && is_charge status t

-- `LIKE '%uuid%'`
abbrev pub charge_with_key_like : PixStatus → ℕ → PixTransaction → Bool
charge_with_key_like status i t = contains t.pix_key (id_text i) && is_charge status t

abbrev pub charge_with_key : Text → PixTransaction → Bool
charge_with_key pix_key t = text_eq t.pix_key pix_key && is_charge created t

-- The row that the first of the candidates finds.
abbrev pub first_of :
    (ℕ → PixTransaction → Bool) → List ℕ → List PixTransaction → Option PixTransaction
first_of p [] rows = none
first_of p (i ∷ ids) rows = elim (first (p i) rows) [ some t ↦ some t | none ↦ first_of p ids rows ]

abbrev pub or_row : Option PixTransaction → Option PixTransaction → Option PixTransaction
or_row (some t) u = some t
or_row none u = u

abbrev pub is_some : Option PixTransaction → Bool
is_some none = false
is_some (some t) = true

abbrev pub at_gateway : Code → Bool
at_gateway c = contains c.payload (codes "asaas.com")

unfoldable pub open_charge : Code → List PixTransaction → Option PixTransaction
open_charge c rows = or_row (first_of (charge_with_id created) c.uuids rows) (
    or_row (first_of (charge_with_id created) c.asaas_ids rows) (
      or_row (first (charge_with_key (take 200 c.payload)) rows)
        (if at_gateway c then first_of (charge_with_key_like created) c.uuids rows else none)))

unfoldable pub paid_charge : Code → List PixTransaction → Bool
paid_charge c rows =
    is_some (first_of (charge_with_id confirmed) (c.uuids ++ c.asaas_ids) rows)
    || at_gateway c && is_some (first_of (charge_with_key_like confirmed) c.uuids rows)

-- The charge, or whether one was paid before.
unfoldable pub find_internal_qrcode_charge : Code → Db → Option PixTransaction × Bool
unfolding open_charge paid_charge
find_internal_qrcode_charge c db = elim (open_charge c db.transactions) [
  | some charge ↦ (some charge, false)
  | none ↦ (none, paid_charge c db.transactions)
]
