-- ===== src/Qrcode/Replay.antt =====
-- A payment of a code that is repeated: the client's retry gets the stored row, and pays nothing.
use biocodetechpay.Prelude.{
  ◌≡◌, refl, sym, ◌∙◌, ap, none, some, Text, inl, inr, first, ◌==◌, Option-cases, Bool-cases,
  if◌then◌else◌,
}
use biocodetechpay.Money.{Cents}
use biocodetechpay.Store.{Db, User, PixTransaction, find_user}
use biocodetechpay.Pix.Screen.{screen_antifraud, passed, blocked, invalid, Screening}
use biocodetechpay.Emv.Parse.{validate_pix_crc}
use biocodetechpay.Http.{Response, success, failure}
use biocodetechpay.Qrcode.Lookup.{find_internal_qrcode_charge}
use biocodetechpay.Qrcode.Call.{QrCall, find_by_header, is_paid_before}
use biocodetechpay.Qrcode.Pay.{pay_pix_qrcode, route_payment}
use biocodetechpay.Qrcode.Call.{NotOwn}
use biocodetechpay.Qrcode.Guarded.{Repeats, pay_by_gateway-Repeats, pay_internal-Repeats}

route_payment-Repeats :
    (m : Text) (s : User) (c : QrCall) (db : Db) → NotOwn c db → Repeats c (route_payment m s c db)
unfolding route_payment
route_payment-Repeats m s c db other = elim (Bool-cases (find_internal_qrcode_charge c.code db).1) [
  | inl paid ↦ rw (paid, route_payment) tt
  | inr unpaid ↦ elim (Option-cases (find_internal_qrcode_charge c.code db).0) [
    | inl external ↦ rw (unpaid, external, route_payment) (pay_by_gateway-Repeats s c db)
    | inr (charge, h) ↦
        rw (unpaid, h, route_payment) (pay_internal-Repeats m c s charge db (other charge h))
  ]
]

screened-Repeats :
    (m : Text) (s : User) (c : QrCall) (db : Db) (v : Cents) (screening : Screening)
    → Repeats c (route_payment m s c db)
    → Repeats c (
        if v == 0 then route_payment m s c db else elim screening [
          | passed ↦ route_payment m s c db
          | blocked ↦ (db, failure 403)
          | invalid ↦ (db, failure 500)
        ])
screened-Repeats m s c db v passed h = elim (Bool-cases (v == 0)) [
  | inl e ↦ rw e h
  | inr e ↦ rw e h
]
screened-Repeats m s c db v blocked h = elim (Bool-cases (v == 0)) [
  | inl e ↦ rw e h
  | inr e ↦ rw e tt
]
screened-Repeats m s c db v invalid h = elim (Bool-cases (v == 0)) [
  | inl e ↦ rw e h
  | inr e ↦ rw e tt
]

pay_pix_qrcode-Repeats :
    (m : Text) (c : QrCall) (db : Db) → NotOwn c db → Repeats c (pay_pix_qrcode m c db)
unfolding pay_pix_qrcode
pay_pix_qrcode-Repeats m c db other = elim (Bool-cases (validate_pix_crc c.code.payload)) [
  | inr damaged ↦ rw (damaged, pay_pix_qrcode) tt
  | inl intact ↦ elim (Option-cases (find_by_header c db)) [
    | inr (t, e) ↦ rw (intact, e, pay_pix_qrcode) (inl e)
    | inl new ↦ elim (Option-cases (first (is_paid_before c) db.transactions)) [
      | inr (t, e) ↦ rw (intact, new, e, pay_pix_qrcode) (inr (new, e))
      | inl unpaid ↦ elim (Option-cases (find_user c.user_id db)) [
        | inl unknown ↦ rw (intact, new, unpaid, unknown, pay_pix_qrcode) tt
        | inr (s, hs) ↦
            let value : Cents = elim c.value [ none ↦ 0 | some v ↦ v ] in
            rw (intact, new, unpaid, hs, pay_pix_qrcode)
              (screened-Repeats m s c db value (screen_antifraud value c.user_id c.clock db)
                (route_payment-Repeats m s c db other))
      ]
    ]
  ]
]

answers : (t : PixTransaction) → failure 422 ≡ success t → ⊥
answers t h = cc

-- Once the payment of a code that is not the payer's own charge has returned a row, the same call
-- again returns the same row, and changes nothing.
pub qr_payment_replays :
    (m : Text) (c : QrCall) (db db' : Db) (t : PixTransaction)
    → NotOwn c db
    → pay_pix_qrcode m c db ≡ (db', success t)
    → pay_pix_qrcode m c db' ≡ (db', success t)
unfolding pay_pix_qrcode
qr_payment_replays m c db db' t other h =
    let found : Repeats c (db', success t) = rw h at (pay_pix_qrcode-Repeats m c db other) in
    elim (Bool-cases (validate_pix_crc c.code.payload)) [
      | inr damaged ↦
          let refused : pay_pix_qrcode m c db ≡ (db, failure 422) =
            rw (damaged, pay_pix_qrcode) refl in
          absurd (answers t (ap (λ (x : Db × Response PixTransaction). x.1) (sym refused ∙ h)))
      | inl intact ↦ elim found [
        | inl e ↦ rw (intact, e, pay_pix_qrcode) refl
        | inr (new, e) ↦ rw (intact, new, e, pay_pix_qrcode) refl
      ]
    ]
