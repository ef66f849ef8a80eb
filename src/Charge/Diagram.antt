-- ===== src/Charge/Diagram.antt =====
-- The diagram of the status of a transaction, as far as the gateway's events move it.
use biocodetechpay.Prelude.{
  ℕ, ◌≡◌, ◌≢◌, refl, sym, ◌∙◌, ap, none, some, Option, Text, arith, true, false, ◌==◌, inl, inr,
  Bool-cases, Option-cases, ==_iff, first-update_first_self, first, ltb, first-passes, List, [],
  ◌∷◌,
}
use biocodetechpay.Store.{
  Db, User, PixTransaction, PixStatus, processing, confirmed, failed, set_status, find_transaction,
  update_transaction, status_eq, has_tx_id,
}
use biocodetechpay.Pix.Ledger.{settle_ledger_entries, reverse_ledger_entries}
use biocodetechpay.Pix.Deferred.{
  own_id, done_db, done_event, confirm, enrich-fields, debit_sender-transactions,
}
use biocodetechpay.Pix.Webhook.{enrich, TransferEvent, done, failed_event, transfer_event}
use biocodetechpay.Pix.Events.{failed_db, failed_event_lem, event_final}
use biocodetechpay.Charge.Credits.{credit_receiver-transactions}
use biocodetechpay.Charge.Inbound.{
  Payment, fill_name, receive_payment, receive_charge, receive_unknown, credit_inbound, key_taken,
  inbound_tx, resolve_recipient,
}
use biocodetechpay.Charge.Book.{other_row}
use biocodetechpay.Charge.Settle.{
  receive_known, receive_new, receive_charge_lem, settle_row, settle_row-fields, credit_inbound_lem,
  credit_inbound_refused,
}
use biocodetechpay.Charge.Gate.{
  WebhookEvent, transfer, lifecycle, payment, unhandled, process_webhook_event,
}

-- The moves of the diagram: a transfer in processing is settled or fails, and whatever is not
-- confirmed is confirmed by a payment.
pub data Moves : PixStatus → PixStatus → Type 0 where
  stay : (s : PixStatus) → Moves s s
  settle : Moves processing confirmed
  fail : Moves processing failed
  pay : (s : PixStatus) → s ≢ confirmed → Moves s confirmed

-- The row is still there, with its value, its kind and its user, and its status has moved along the
-- diagram.
abbrev pub Follows : ℕ → PixTransaction → List PixTransaction → Type 0
Follows j t rows =
    (t' : PixTransaction) × (first (has_tx_id j) rows ≡ some t')
    × Moves t.status t'.status
    × (t'.value ≡ t.value)
    × (t'.type ≡ t.type)
    × (t'.user_id ≡ t.user_id)

abbrev Along : PixTransaction → PixTransaction → Type 0
Along t t' =
    Moves t.status t'.status × (t'.value ≡ t.value) × (t'.type ≡ t.type) × (t'.user_id ≡ t.user_id)

still :
    (j : ℕ) (t : PixTransaction) (rows : List PixTransaction)
    → first (has_tx_id j) rows ≡ some t
    → Follows j t rows
still j t rows h = (t, h, stay t.status, refl, refl, refl)

passes :
    (j : ℕ) (db : Db) (t : PixTransaction) → find_transaction j db ≡ some t → (t.id == j) ≡ true
passes j db t h = first-passes (has_tx_id j) db.transactions t h

updated :
    (j k : ℕ) (f : PixTransaction → PixTransaction) (db : Db) (t : PixTransaction)
    → find_transaction j db ≡ some t
    → ((y : PixTransaction) → (f y).id ≡ y.id)
    → ((k == j) ≡ true → Along t (f t))
    → Follows j t (update_transaction k f db).transactions
updated j k f db t h same along = elim (Bool-cases (k == j)) [
  | inr other ↦ (t, other_row j f k db same other ∙ h, stay t.status, refl, refl, refl)
  | inl hit ↦
      let e : k ≡ j = (==_iff k j).0 hit in
      let row : find_transaction j (update_transaction j f db) ≡ some (f t) =
        first-update_first_self (has_tx_id j) f db.transactions t h
          (ap (λ i. i == j) (same t) ∙ passes j db t h) in
      let (moved, value, type, user) = along hit in
      (
        f t,
        ap (λ n. find_transaction j (update_transaction n f db)) e ∙ row,
        moved,
        value,
        type,
        user,
      )
]

enrich-rest :
    (name : Option Text) (t : PixTransaction)
    → ((enrich name t).value ≡ t.value)
      × ((enrich name t).type ≡ t.type)
      × ((enrich name t).user_id ≡ t.user_id)
enrich-rest none t = (refl, refl, refl)
enrich-rest (some name) t = ground arith

fill_name-rest :
    (name : Text) (t : PixTransaction)
    → ((fill_name name t).value ≡ t.value)
      × ((fill_name name t).type ≡ t.type)
      × ((fill_name name t).user_id ≡ t.user_id)
fill_name-rest [] t = (refl, refl, refl)
fill_name-rest (c ∷ name) t = ground arith

moves_to : (a b b' : PixStatus) → b' ≡ b → Moves a b → Moves a b'
moves_to a b b' e m = rw e m

settle_from : (a : PixStatus) → a ≡ processing → Moves a confirmed
settle_from a e = rw e settle

fail_from : (a : PixStatus) → a ≡ processing → Moves a failed
fail_from a e = rw e fail

same_row :
    (i j : ℕ) (db : Db) (u t : PixTransaction)
    → find_transaction i db ≡ some u
    → find_transaction j db ≡ some t
    → (u.id == j) ≡ true
    → u ≡ t
same_row i j db u t hu ht e =
    let i_j : i ≡ j = own_id i db u hu ∙ (==_iff u.id j).0 e in
    let found : some u ≡ some t = sym hu ∙ ap (λ n. find_transaction n db) i_j ∙ ht in cc

module _ (m : Text) (j : ℕ) (db : Db) (t : PixTransaction)
    (h : find_transaction j db ≡ some t) where
  done_db-Follows :
      (name : Option Text) (now i : ℕ) (u : PixTransaction)
      → find_transaction i db ≡ some u
      → u.status ≡ processing
      → Follows j t (done_db m name now u db).transactions
  unfolding done_db settle_ledger_entries
  done_db-Follows name now i u hu hs =
      let along : (u.id == j) ≡ true → Along t (confirm name t) = λ e.
        let same = same_row i j db u t hu h e in
        let status : t.status ≡ processing =
          ap (λ (x : PixTransaction). x.status) (sym same) ∙ hs in
        let (value, type, user) = enrich-rest name (set_status confirmed t) in
        (
          moves_to t.status confirmed (confirm name t).status
              (enrich-fields name (set_status confirmed t)).0 (settle_from t.status status),
          value,
          type,
          user,
        ) in
      rw (debit_sender-transactions m u db) (
        updated j u.id (confirm name) db t h (λ y. (enrich-fields name (set_status confirmed y)).1)
          along)

  failed_db-Follows :
      (now i : ℕ) (u : PixTransaction)
      → find_transaction i db ≡ some u
      → u.status ≡ processing
      → Follows j t (failed_db now u db).transactions
  unfolding failed_db reverse_ledger_entries
  failed_db-Follows now i u hu hs =
      updated j u.id (set_status failed) db t h (λ y. refl)
        (λ e.
          let same = same_row i j db u t hu h e in
          let status : t.status ≡ processing =
            ap (λ (x : PixTransaction). x.status) (sym same) ∙ hs in
          (fail_from t.status status, refl, refl, refl))

  moving_event-Follows :
      (name : Option Text) (now i : ℕ) (event : TransferEvent) (u : PixTransaction)
      → find_transaction i db ≡ some u
      → u.status ≡ processing
      → Follows j t (transfer_event m name now event i db).0.transactions
  moving_event-Follows name now i done u hu hs =
      rw (done_event m name now i db u hu hs) (done_db-Follows name now i u hu hs)
  moving_event-Follows name now i failed_event u hu hs =
      rw (failed_event_lem m name now i db u hu hs) (failed_db-Follows now i u hu hs)

  transfer_event-Follows :
      (name : Option Text) (now i : ℕ) (event : TransferEvent)
      → Follows j t (transfer_event m name now event i db).0.transactions
  unfolding transfer_event
  transfer_event-Follows name now i event = elim (Option-cases (find_transaction i db)) [
    | inl unknown ↦ rw (unknown, transfer_event) (still j t db.transactions h)
    | inr (u, hu) ↦ elim (Bool-cases (status_eq u.status processing)) [
      | inr other ↦
          rw (event_final m name now i event db u hu (ground (arith, other)))
            (still j t db.transactions h)
      | inl moving ↦ moving_event-Follows name now i event u hu (ground (arith, moving))
    ]
  ]

  receive_charge-Follows :
      (p : Payment) (i : ℕ) (u : PixTransaction)
      → find_transaction i db ≡ some u
      → Follows j t (receive_charge m p u db).0.transactions
  unfolding receive_charge settle_row
  receive_charge-Follows p i u hu = elim (Bool-cases (status_eq u.status confirmed)) [
    | inl paid ↦ rw (paid, receive_charge) (still j t db.transactions h)
    | inr unpaid ↦ rw (receive_charge_lem m p u db (ground (arith, unpaid))) (
        rw (credit_receiver-transactions m u (update_transaction u.id (settle_row p) db)) (
          updated j u.id (settle_row p) db t h (λ y. (settle_row-fields p y).0)
            (λ e.
              let same = same_row i j db u t hu h e in
              let open_row : t.status ≢ confirmed =
                ground (arith, unpaid, ap (λ (x : PixTransaction). x.status) same) in
              let (value, type, user) = fill_name-rest p.customer_name (set_status confirmed t) in
              (
                moves_to t.status confirmed _ (settle_row-fields p t).1 (pay t.status open_row),
                value,
                type,
                user,
              ))))
  ]

  new_id_apart : (i : ℕ) → find_transaction i db ≡ none → (i == j) ≡ false
  new_id_apart i gone = elim (Bool-cases (i == j)) [
    | inr other ↦ other
    | inl hit ↦
        let lost : some t ≡ none =
          sym h ∙ ap (λ n. find_transaction n db) (sym ((==_iff i j).0 hit)) ∙ gone in
        absurd (cc)
  ]

  credit_inbound-Follows :
      (p : Payment) (i : ℕ) (r : User)
      → find_transaction i db ≡ none
      → Follows j t (credit_inbound m i p r db).0.transactions
  credit_inbound-Follows p i r gone = elim (Bool-cases (key_taken i db)) [
    | inl taken ↦ rw (credit_inbound_refused m i p r db taken) (still j t db.transactions h)
    | inr new ↦
        rw ((credit_inbound_lem m i p r db new).0)
          (still j t (inbound_tx i p r.id p.value 0 ∷ db.transactions) (rw (new_id_apart i gone) h))
  ]

  receive_unknown-Follows :
      (key : Text) (p : Payment) (i : ℕ)
      → find_transaction i db ≡ none
      → Follows j t (receive_unknown m key i p db).0.transactions
  unfolding receive_unknown
  receive_unknown-Follows key p i gone = elim (Bool-cases (ltb 0 p.value)) [
    | inr zero_value ↦ rw (zero_value, receive_unknown) (still j t db.transactions h)
    | inl positive ↦ elim (Option-cases (resolve_recipient key p db)) [
      | inl nobody ↦ rw (positive, receive_unknown) (rw nobody (still j t db.transactions h))
      | inr (r, e) ↦ rw (positive, receive_unknown) (rw e (credit_inbound-Follows p i r gone))
    ]
  ]

  receive_payment-Follows :
      (key : Text) (p : Payment) → Follows j t (receive_payment m key p db).0.transactions
  unfolding receive_payment
  receive_payment-Follows key p = elim (Option-cases p.payment_id) [
    | inl missing ↦ rw (missing, receive_payment) (still j t db.transactions h)
    | inr (i, hp) ↦ elim (Option-cases (find_transaction i db)) [
      | inl gone ↦ rw (receive_new m key i p db hp gone) (receive_unknown-Follows key p i gone)
      | inr (u, hu) ↦ rw (receive_known m key i p db u hp hu) (receive_charge-Follows p i u hu)
    ]
  ]

-- Whatever event the webhook processes, every transaction of the database is still there, with its
-- value, kind and user, and its status has moved along the diagram: a confirmed one stays confirmed.
pub process_webhook_event-Follows :
    (m key : Text) (event : WebhookEvent) (j : ℕ) (db : Db) (t : PixTransaction)
    → find_transaction j db ≡ some t
    → Follows j t (process_webhook_event m key event db).0.transactions
unfolding process_webhook_event
process_webhook_event-Follows m key (transfer event none name now) j db t h =
    still j t db.transactions h
process_webhook_event-Follows m key (transfer event (some i) name now) j db t h =
    transfer_event-Follows m j db t h name now i event
process_webhook_event-Follows m key lifecycle j db t h = still j t db.transactions h
process_webhook_event-Follows m key (payment p) j db t h = receive_payment-Follows m j db t h key p
process_webhook_event-Follows m key unhandled j db t h = still j t db.transactions h
