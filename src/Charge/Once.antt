-- ===== src/Charge/Once.antt =====
-- Payment events in sequence: a payment is credited once, however often it is delivered.
use biocodetechpay.Prelude.{
  true, false, ◌⊎◌, ℕ, ◌≡◌, ◌≢◌, refl, none, some, Text, arith, Option-cases, Bool-cases, inl, inr,
  List, [], ◌∷◌, All, ltb,
}
use biocodetechpay.Store.{Db, PixTransaction, find_transaction, confirmed, status_eq}
use biocodetechpay.Charge.Inbound.{
  Payment, no_matching_user, receive_payment, receive_unknown, receive_charge, key_taken,
  inbound_tx, resolve_recipient,
}
use biocodetechpay.Charge.Settle.{
  credit_inbound_refused, inbound_row, settle_row, settle_row-fields, receive_charge_lem,
  receive_known, settled_row, receive_new,
}

-- The row of a payment that was credited, now or before.
abbrev HasConfirmed : ℕ → Db → Type 0
HasConfirmed i db = (t : PixTransaction) × (find_transaction i db ≡ some t) × (t.status ≡ confirmed)

-- No row has the identifier, and another row has its key.
abbrev Blocked : ℕ → Db → Type 0
Blocked i db = (find_transaction i db ≡ none) × (key_taken i db ≡ true)

confirmed_absorbs :
    (m key : Text) (i : ℕ) (p : Payment) (db : Db)
    → p.payment_id ≡ some i
    → HasConfirmed i db
    → (receive_payment m key p db).0 ≡ db
unfolding receive_charge
confirmed_absorbs m key i p db hp (t, hi, hs) = rw (receive_known m key i p db t hp hi) (rw hs)

pub receive_unknown_refused :
    (m key : Text) (i : ℕ) (p : Payment) (db : Db)
    → key_taken i db ≡ true
    → (receive_unknown m key i p db).0 ≡ db
unfolding receive_unknown
receive_unknown_refused m key i p db taken = elim (Bool-cases (ltb 0 p.value)) [
  | inr zero_value ↦ rw (zero_value, receive_unknown) refl
  | inl positive ↦ elim (Option-cases (resolve_recipient key p db)) [
    | inl nobody ↦ rw (positive, receive_unknown) (rw nobody refl)
    | inr (r, e) ↦
        rw (positive, receive_unknown) (rw e (rw (credit_inbound_refused m i p r db taken) refl))
  ]
]

Blocked-absorbs :
    (m key : Text) (i : ℕ) (p : Payment) (db : Db)
    → p.payment_id ≡ some i
    → Blocked i db
    → (receive_payment m key p db).0 ≡ db
Blocked-absorbs m key i p db hp (gone, taken) =
    rw (receive_new m key i p db hp gone) (receive_unknown_refused m key i p db taken)

unknown_confirms :
    (m key : Text) (i : ℕ) (p : Payment) (db : Db)
    → key_taken i db ≡ false
    → (receive_unknown m key i p db).1 ≢ no_matching_user
    → HasConfirmed i (receive_unknown m key i p db).0
unfolding receive_unknown
unknown_confirms m key i p db new h = elim (Bool-cases (ltb 0 p.value)) [
  | inr zero_value ↦ absurd (h (rw (zero_value, receive_unknown) refl))
  | inl positive ↦ elim (Option-cases (resolve_recipient key p db)) [
    | inl nobody ↦ absurd (h (rw (positive, receive_unknown) (rw nobody refl)))
    | inr (r, e) ↦
        rw (positive, receive_unknown)
          (rw e (inbound_tx i p r.id p.value 0, inbound_row m i p r db new, refl))
  ]
]

known_confirms :
    (m : Text) (i : ℕ) (p : Payment) (db : Db) (t : PixTransaction)
    → find_transaction i db ≡ some t
    → HasConfirmed i (receive_charge m p t db).0
unfolding receive_charge
known_confirms m i p db t h = elim (Bool-cases (status_eq t.status confirmed)) [
  | inl e ↦ rw (e, receive_charge) (t, h, ground arith)
  | inr e ↦
      rw (receive_charge_lem m p t db (ground arith))
        (settle_row p t, settled_row m i p t db h, (settle_row-fields p t).1)
]

-- A delivery is left unclaimed, leaves a confirmed row, or is refused by the database.
claimed_confirms :
    (m key : Text) (i : ℕ) (p : Payment) (db : Db)
    → p.payment_id ≡ some i
    → (receive_payment m key p db).1 ≢ no_matching_user
    → HasConfirmed i (receive_payment m key p db).0 ⊎ Blocked i (receive_payment m key p db).0
claimed_confirms m key i p db hp h = elim (Option-cases (find_transaction i db)) [
  | inr (t, e) ↦ inl (rw (receive_known m key i p db t hp e) (known_confirms m i p db t e))
  | inl e ↦ elim (Bool-cases (key_taken i db)) [
    | inl taken ↦ inr (rw (Blocked-absorbs m key i p db hp (e, taken)) (e, taken))
    | inr new ↦
        let e' = receive_new m key i p db hp e in
        inl (rw e' (unknown_confirms m key i p db new (rw e' at h)))
  ]
]

-- Deliveries in the order in which they arrive.
abbrev pub receive_all : Text → Text → List Payment → Db → Db
receive_all m key [] db = db
receive_all m key (p ∷ payments) db = receive_all m key payments (receive_payment m key p db).0

abbrev pub IsFor : ℕ → Payment → Type 0
IsFor i p = p.payment_id ≡ some i

absorbs :
    (m key : Text) (i : ℕ) (p : Payment) (db : Db)
    → p.payment_id ≡ some i
    → HasConfirmed i db ⊎ Blocked i db
    → (receive_payment m key p db).0 ≡ db
absorbs m key i p db hp (inl h) = confirmed_absorbs m key i p db hp h
absorbs m key i p db hp (inr h) = Blocked-absorbs m key i p db hp h

deliveries_absorbed :
    (m key : Text) (i : ℕ) (payments : List Payment) (db : Db)
    → All (IsFor i) payments
    → HasConfirmed i db ⊎ Blocked i db
    → receive_all m key payments db ≡ db
deliveries_absorbed m key i [] db hs h = refl
deliveries_absorbed m key i (p ∷ payments) db hs h =
    rw (absorbs m key i p db hs.0 h) (deliveries_absorbed m key i payments db hs.1 h)

-- After a delivery that found a receiver or a charge, further events for the same payment, whatever
-- they say and however many they are, leave the whole database as it is.
pub payment_credited_once :
    (m key : Text) (i : ℕ) (p : Payment) (later : List Payment) (db : Db)
    → p.payment_id ≡ some i
    → All (IsFor i) later
    → (receive_payment m key p db).1 ≢ no_matching_user
    → receive_all m key (p ∷ later) db ≡ (receive_payment m key p db).0
payment_credited_once m key i p later db hp hl h =
    deliveries_absorbed m key i later (receive_payment m key p db).0 hl
      (claimed_confirms m key i p db hp h)
