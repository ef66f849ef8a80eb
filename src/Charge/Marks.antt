-- ===== src/Charge/Marks.antt =====
-- The loop of the verification of deposits: what it moves, and that the rows which it adds tell of
-- every deposit that it credits.
use biocodetechpay.Prelude.{
  any, ℕ, ◌+◌, ◌≡◌, refl, pos, ◌+ℤ◌, int_laws, parts_of_eq, none, some, Option, Text, arith,
  Bool-cases, inl, inr, Bool, true, false, List, [], ◌∷◌, All, ltb, text_eq_refl, is_digit, keep_if,
  sum_where, count_where, ◌||◌, ◌&&◌, not, if◌then◌else◌, sym, ==_iff, first-passes,
}
use biocodetechpay.Store.{Db, User, PixTransaction, find_user, has_id, has_tx_id, add_transaction}
use biocodetechpay.Store.Total.{total_balance}
use biocodetechpay.Http.{id_text}
use biocodetechpay.Charge.Credits.{
  free_credit, paid_in, credit_pix_receipt_free, free_credit-total, find_user-free_credit,
}
use biocodetechpay.Charge.Deposit.{
  DepositCredit, DepositRun, is_due, already_credited, deposit_step, deposit_loop, credit_deposit,
  deposit_tx, has_idempotency_key, verify_key, inbound_key, has_correlation, seen_payment,
  sender_matches,
}

pub own_user : (i : ℕ) (db : Db) (u : User) → find_user i db ≡ some u → u.id ≡ i
own_user i db u h = (==_iff _ _).0 (first-passes (has_id i) db.users u h)

or_right : (a b : Bool) → b ≡ true → (a || b) ≡ true
or_right true b h = refl
or_right false b h = h

-- The user is in the session, with the same document.
abbrev pub Kept : ℕ → Text → DepositRun → Type 0
Kept i cpf_cnpj run = (u : User) × (find_user i run.db ≡ some u) × (u.cpf_cnpj ≡ cpf_cnpj)

-- What one set of rows tells, the other tells.
abbrev pub Below : List PixTransaction → List PixTransaction → Type 0
Below rows rows' = (p : PixTransaction → Bool) → any p rows ≡ true → any p rows' ≡ true

seen_payment-Below :
    (payment : Option ℕ) (rows rows' : List PixTransaction)
    → Below rows rows'
    → seen_payment payment rows ≡ true
    → seen_payment payment rows' ≡ true
seen_payment-Below none rows rows' h e = e
seen_payment-Below (some i) rows rows' h e =
    ground (arith, h (has_tx_id i), h (has_idempotency_key (inbound_key i)))

already_credited-Below :
    (c : DepositCredit) (rows rows' : List PixTransaction)
    → Below rows rows'
    → already_credited c rows ≡ true
    → already_credited c rows' ≡ true
already_credited-Below c rows rows' h e = ground (
  arith,
  h (has_idempotency_key (verify_key c.id)),
  seen_payment-Below c.payment rows rows' h,
  h (has_correlation (id_text c.id)),
)

and_false : (a b c : Bool) → c ≡ true → (a && b && not c) ≡ false
and_false a b true h = ground arith
and_false a b false h = ground arith

not_due_marked :
    (doc : Text) (c : DepositCredit) (later : List PixTransaction)
    → already_credited c later ≡ true
    → is_due doc later c ≡ false
not_due_marked doc c later h =
    and_false (sender_matches (keep_if is_digit c.sender_doc) doc) (ltb 0 c.value)
      (already_credited c later) h

not_due_grows :
    (a b c d : Bool) → (c ≡ true → d ≡ true) → (a && b && not c) ≡ false → (a && b && not d) ≡ false
not_due_grows a b true d h e = and_false a b d (h refl)
not_due_grows true true false d h e = absurd (cc)
not_due_grows true false false d h e = refl
not_due_grows false b false d h e = refl

not_due_later :
    (doc : Text) (c : DepositCredit) (rows later : List PixTransaction)
    → Below rows later
    → is_due doc rows c ≡ false
    → is_due doc later c ≡ false
not_due_later doc c rows later h e =
    not_due_grows (sender_matches (keep_if is_digit c.sender_doc) doc) (ltb 0 c.value)
      (already_credited c rows) (already_credited c later) (already_credited-Below c rows later h) e

-- One deposit that is due, credited to a user of the session.
module _ (m key : Text) (now i : ℕ) (doc : Text) (rows : List PixTransaction) where
  step_idle :
      (c : DepositCredit) (run : DepositRun)
      → is_due doc rows c ≡ false
      → deposit_step m key now i doc rows c run ≡ run
  unfolding deposit_step
  step_idle c run h = rw (h, deposit_step) refl

  step_due :
      (c : DepositCredit) (run : DepositRun) (u : User)
      → is_due doc rows c ≡ true
      → find_user i run.db ≡ some u
      → deposit_step m key now i doc rows c run ≡ record {
        db = add_transaction (deposit_tx key now u.id c c.value 0) (free_credit u c.value run.db);
        credited_count = run.credited_count + 1;
        credited_total = run.credited_total + c.value;
      }
  unfolding deposit_step credit_deposit
  step_due c run u h e =
      rw (h, deposit_step) (rw e (rw (credit_pix_receipt_free m run.db u c.value) refl))

  step-Kept :
      (cpf : Text) (c : DepositCredit) (run : DepositRun)
      → Kept i cpf run
      → Kept i cpf (deposit_step m key now i doc rows c run)
  unfolding paid_in
  step-Kept cpf c run (u, e, d) = elim (Bool-cases (is_due doc rows c)) [
    | inr idle ↦ rw (step_idle c run idle) (u, e, d)
    | inl due ↦
        let own : find_user u.id run.db ≡ some u = rw (sym (own_user i run.db u e)) at e in
        rw (step_due c run u due e) (
          paid_in u c.value u,
          rw (sym (own_user i run.db u e)) (find_user-free_credit u c.value run.db own),
          d,
        )
  ]

  step_moves :
      (cpf : Text) (c : DepositCredit) (run : DepositRun)
      → Kept i cpf run
      → let run' = deposit_step m key now i doc rows c run in
        let paid = if is_due doc rows c then c.value else 0 in
        (total_balance run'.db.users ≡ total_balance run.db.users +ℤ pos paid)
        × (run'.credited_total ≡ run.credited_total + paid)
  step_moves cpf c run (u, e, d) = elim (Bool-cases (is_due doc rows c)) [
    | inr idle ↦ rw (step_idle c run idle) (rw idle (omega int_laws, omega arith))
    | inl due ↦
        let own : find_user u.id run.db ≡ some u = rw (sym (own_user i run.db u e)) at e in
        rw (step_due c run u due e) (rw due (free_credit-total u c.value run.db own, refl))
  ]

  step_counts :
      (cpf : Text) (c : DepositCredit) (run : DepositRun)
      → Kept i cpf run
      → (deposit_step m key now i doc rows c run).credited_count
        ≡ run.credited_count + (if is_due doc rows c then 1 else 0)
  step_counts cpf c run (u, e, d) = elim (Bool-cases (is_due doc rows c)) [
    | inr idle ↦ rw (step_idle c run idle) (rw idle (omega arith))
    | inl due ↦ rw (step_due c run u due e) (rw due refl)
  ]

  step-Below :
      (cpf : Text) (c : DepositCredit) (run : DepositRun)
      → Kept i cpf run
      → Below run.db.transactions (deposit_step m key now i doc rows c run).db.transactions
  unfolding free_credit
  step-Below cpf c run (u, e, d) p h = elim (Bool-cases (is_due doc rows c)) [
    | inr idle ↦ rw (step_idle c run idle) h
    | inl due ↦ rw (step_due c run u due e) (or_right (p (deposit_tx key now u.id c c.value 0)) _ h)
  ]

  -- After the step the rows tell of the deposit, if they do not show that it was none.
  step_marks :
      (cpf : Text) (c : DepositCredit) (run : DepositRun)
      → Kept i cpf run
      → is_due doc rows c ≡ true
      → already_credited c (deposit_step m key now i doc rows c run).db.transactions ≡ true
  unfolding free_credit
  step_marks cpf c run (u, e, d) due =
      rw (step_due c run u due e) (ground (arith, text_eq_refl (verify_key c.id)))

  pub loop-Below :
      (cpf : Text) (credits : List DepositCredit) (run : DepositRun)
      → Kept i cpf run
      → Below run.db.transactions (deposit_loop m key now i doc rows credits run).db.transactions
  unfolding deposit_loop
  loop-Below cpf [] run kept p h = h
  loop-Below cpf (c ∷ credits) run kept p h =
      loop-Below cpf credits (deposit_step m key now i doc rows c run) (step-Kept cpf c run kept) p
        (step-Below cpf c run kept p h)

  pub loop-Kept :
      (cpf : Text) (credits : List DepositCredit) (run : DepositRun)
      → Kept i cpf run
      → Kept i cpf (deposit_loop m key now i doc rows credits run)
  unfolding deposit_loop
  loop-Kept cpf [] run kept = kept
  loop-Kept cpf (c ∷ credits) run kept =
      loop-Kept cpf credits (deposit_step m key now i doc rows c run) (step-Kept cpf c run kept)

  pub loop_moves :
      (cpf : Text) (credits : List DepositCredit) (run : DepositRun)
      → Kept i cpf run
      → let run' = deposit_loop m key now i doc rows credits run in
        let paid = sum_where (is_due doc rows) (λ c. c.value) credits in
        (total_balance run'.db.users ≡ total_balance run.db.users +ℤ pos paid)
        × (run'.credited_total ≡ run.credited_total + paid)
  unfolding deposit_loop
  loop_moves cpf [] run kept = (omega int_laws, omega arith)
  loop_moves cpf (c ∷ credits) run kept =
      let run' = deposit_step m key now i doc rows c run in
      let step = step_moves cpf c run kept in
      let rest = loop_moves cpf credits run' (step-Kept cpf c run kept) in
      (
        omega (int_laws, parts_of_eq _ _ rest.0, parts_of_eq _ _ step.0),
        omega (arith, rest.1, step.1),
      )

  -- No deposit of the list is due, once the rows tell all that the loop has added.
  pub loop_exhausts :
      (cpf : Text) (credits : List DepositCredit) (run : DepositRun) (later : List PixTransaction)
      → Kept i cpf run
      → Below rows later
      → Below (deposit_loop m key now i doc rows credits run).db.transactions later
      → All (λ c. is_due doc later c ≡ false) credits
  unfolding deposit_loop
  loop_exhausts cpf [] run later kept old new = tt
  loop_exhausts cpf (c ∷ credits) run later kept old new =
      let run' = deposit_step m key now i doc rows c run in
      let kept' = step-Kept cpf c run kept in
      (
        elim (Bool-cases (is_due doc rows c)) [
          | inl due ↦
              let marked =
                already_credited-Below c run'.db.transactions later
                  (λ p h. new p (loop-Below cpf credits run' kept' p h))
                  (step_marks cpf c run kept due) in
              not_due_marked doc c later marked
          | inr idle ↦ not_due_later doc c rows later old idle
        ],
        loop_exhausts cpf credits run' later kept' old new,
      )

  pub loop_idle :
      (credits : List DepositCredit) (run : DepositRun)
      → All (λ c. is_due doc rows c ≡ false) credits
      → deposit_loop m key now i doc rows credits run ≡ run
  unfolding deposit_loop
  loop_idle [] run h = refl
  loop_idle (c ∷ credits) run h = rw (step_idle c run h.0) (loop_idle credits run h.1)

  pub loop_counts :
      (cpf : Text) (credits : List DepositCredit) (run : DepositRun)
      → Kept i cpf run
      → (deposit_loop m key now i doc rows credits run).credited_count
        ≡ run.credited_count + count_where (is_due doc rows) credits
  unfolding deposit_loop
  loop_counts cpf [] run kept = omega arith
  loop_counts cpf (c ∷ credits) run kept =
      let run' = deposit_step m key now i doc rows c run in
      omega
        (arith, loop_counts cpf credits run' (step-Kept cpf c run kept), step_counts cpf c run kept)
