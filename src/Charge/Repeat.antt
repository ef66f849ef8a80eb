-- ===== src/Charge/Repeat.antt =====
-- The verification of deposits credits what it reports, and a second one credits nothing.
use biocodetechpay.Prelude.{
  ℕ, ◌≡◌, refl, pos, ◌+ℤ◌, int_laws, parts_of_eq, some, Text, arith, ap, Bool-cases, inl, inr, Bool,
  true, false, ◌&&◌, ◌+◌, Option, none, List, [], ◌∷◌, is_digit, keep_if, sum_where, count_where,
  ◌⊎◌, ◌∙◌, sym, text_eq, ◌==◌, ==_iff,
}
use biocodetechpay.Money.{Cents}
use biocodetechpay.Store.{Db, User, find_user}
use biocodetechpay.Store.Total.{total_balance}
use biocodetechpay.Http.{success, failure, Response}
use biocodetechpay.Charge.Deposit.{
  DepositCredit, DepositRun, is_due, deposit_loop, start_run, commit_deposits, verify_listed,
  verify_static_deposit, ListedCredit, identified, tx_id_of, distinct_ids,
}
use biocodetechpay.Charge.Marks.{
  Kept, loop-Below, loop-Kept, loop_moves, loop_exhausts, loop_idle, loop_counts,
}

-- What a verification that answered has done: nothing, or all that the loop did.
Committed : Db → DepositRun → Type 0
Committed db run =
    ((run.credited_count ≡ 0) × (commit_deposits db run ≡ (db, success (0, 0))))
    ⊎ (commit_deposits db run ≡ (run.db, success (run.credited_count, run.credited_total)))

commit-Committed :
    (db : Db) (run : DepositRun) (r : ℕ × Cents)
    → (commit_deposits db run).1 ≡ success r
    → Committed db run
unfolding commit_deposits Committed
commit-Committed db run r h = elim (Bool-cases (run.credited_count == 0)) [
  | inl idle ↦ inl ((==_iff _ _).0 idle, rw (idle, commit_deposits) refl)
  | inr some_due ↦ elim (Bool-cases (distinct_ids run.db.transactions)) [
    | inl fresh ↦ inr (rw (some_due, commit_deposits) (rw fresh refl))
    | inr clash ↦
        let refused : (commit_deposits db run).1 ≡ failure 500 =
          rw (some_due, commit_deposits) (rw clash refl) in
        absurd (cc)
  ]
]

sum_where-none :
    {A : Type 0} (p : A → Bool) (w : A → ℕ) (xs : List A)
    → count_where p xs ≡ 0
    → sum_where p w xs ≡ 0
sum_where-none p w [] h = refl
sum_where-none p w (x ∷ xs) h = ground (arith, sum_where-none p w xs)

success_parts :
    (a b c d : ℕ) → ◌≡◌ {A = Response (ℕ × ℕ)} (success (a, b)) (success (c, d)) → (a ≡ c) × (b ≡ d)
success_parts a b c d h = (cc, cc)

abbrev document : User → Text
document u = keep_if is_digit u.cpf_cnpj

module _ (m key : Text) (now i : ℕ) (credits : List DepositCredit) where
  abbrev loop_on : Db → Text → DepositRun
  loop_on db doc = deposit_loop m key now i doc db.transactions credits (start_run db)

  verify_lem :
      (db : Db) (u : User)
      → find_user i db ≡ some u
      → text_eq (document u) [] ≡ false
      → verify_listed m key now i (some credits) db ≡ commit_deposits db (loop_on db (document u))
  unfolding verify_listed
  verify_lem db u h d = rw (h, verify_listed) (rw d refl)

  listed_credits :
      (db : Db) (u : User) (count : ℕ) (total : Cents)
      → find_user i db ≡ some u
      → text_eq (keep_if is_digit u.cpf_cnpj) [] ≡ false
      → (verify_listed m key now i (some credits) db).1 ≡ success (count, total)
      → let db' = (verify_listed m key now i (some credits) db).0 in
        let due = is_due (keep_if is_digit u.cpf_cnpj) db.transactions in
        (total_balance db'.users ≡ total_balance db.users +ℤ pos total)
        × (total ≡ sum_where due (λ c. c.value) credits)
        × (count ≡ count_where due credits)
  unfolding Committed
  listed_credits db u count total h d r =
      let run = loop_on db (document u) in
      let kept : Kept i u.cpf_cnpj (start_run db) = (u, h, refl) in
      let moved =
        loop_moves m key now i (document u) db.transactions u.cpf_cnpj credits (start_run db)
          kept in
      let counted =
        loop_counts m key now i (document u) db.transactions u.cpf_cnpj credits (start_run db)
          kept in
      let same = verify_lem db u h d in
      elim (commit-Committed db run (count, total) (rw same at r)) [
        | inl (z, e) ↦
            let parts =
              success_parts 0 0 count total
                (sym (ap (λ (x : Db × Response (ℕ × ℕ)). x.1) (same ∙ e)) ∙ r) in
            let nothing : count_where (is_due (document u) db.transactions) credits ≡ 0 =
              omega (arith, counted, z) in
            rw (same ∙ e) (
              omega (int_laws, parts.1),
              omega (
                arith,
                parts.1,
                sum_where-none (is_due (document u) db.transactions) (λ c. c.value) credits nothing,
              ),
              omega (arith, parts.0, nothing),
            )
        | inr e ↦
            let parts =
              success_parts run.credited_count run.credited_total count total
                (sym (ap (λ (x : Db × Response (ℕ × ℕ)). x.1) (same ∙ e)) ∙ r) in
            rw (same ∙ e) (
              omega (int_laws, parts_of_eq _ _ moved.0, moved.1, parts.1),
              omega (arith, moved.1, parts.1),
              omega (arith, counted, parts.0),
            )
      ]

  verify_after :
      (db : Db) (u : User)
      → find_user i db ≡ some u
      → text_eq (document u) [] ≡ false
      → let db' = (loop_on db (document u)).db in
        verify_listed m key now i (some credits) db' ≡ (db', success (0, 0))
  unfolding commit_deposits
  verify_after db u h d =
      let doc = document u in
      let rows = db.transactions in
      let db' = (loop_on db doc).db in
      let kept : Kept i u.cpf_cnpj (start_run db) = (u, h, refl) in
      let (u', found, same) =
        loop-Kept m key now i doc rows u.cpf_cnpj credits (start_run db) kept in
      let doc' : document u' ≡ doc = ap (keep_if is_digit) same in
      let spent =
        loop_exhausts m key now i doc rows u.cpf_cnpj credits (start_run db) db'.transactions kept
          (loop-Below m key now i doc rows u.cpf_cnpj credits (start_run db) kept) (λ p x. x) in
      let idle = loop_idle m key now i doc db'.transactions credits (start_run db') spent in
      verify_lem db' u' found (rw doc' d) ∙ rw doc' (rw idle refl)

  listed_repeats :
      (db : Db) (u : User) (r : ℕ × Cents)
      → find_user i db ≡ some u
      → text_eq (keep_if is_digit u.cpf_cnpj) [] ≡ false
      → (verify_listed m key now i (some credits) db).1 ≡ success r
      → let db' = (verify_listed m key now i (some credits) db).0 in
        verify_listed m key now i (some credits) db' ≡ (db', success (0, 0))
  unfolding Committed
  listed_repeats db u r h d e =
      let run = loop_on db (document u) in
      let kept : Kept i u.cpf_cnpj (start_run db) = (u, h, refl) in
      let same = verify_lem db u h d in
      elim (commit-Committed db run r (rw same at e)) [
        | inl (z, c) ↦ rw (same ∙ c) (same ∙ c)
        | inr c ↦ rw (same ∙ c) (verify_after db u h d)
      ]

abbrev pub has_identifier : Option ℕ → Bool
has_identifier none = false
has_identifier (some tx_id) = true

-- The gateway gives an identifier with every deposit.
abbrev pub all_identified : List ListedCredit → Bool
all_identified [] = true
all_identified (tx ∷ credits) = has_identifier tx.id && all_identified credits

same_id : (o : Option ℕ) (a b : ℕ) → has_identifier o ≡ true → tx_id_of o a ≡ tx_id_of o b
same_id none a b h = ground arith
same_id (some tx_id) a b h = refl

-- Then no identifier is made, so two calls see the same entries.
identified_lem :
    (fresh fresh' : ℕ → ℕ) (n : ℕ) (credits : List ListedCredit)
    → all_identified credits ≡ true
    → identified fresh n credits ≡ identified fresh' n credits
identified_lem fresh fresh' n [] h = refl
identified_lem fresh fresh' n (tx ∷ credits) h =
    let both : (has_identifier tx.id ≡ true) × (all_identified credits ≡ true) =
      (ground (arith, h), ground (arith, h)) in
    let rest = identified_lem fresh fresh' (n + 1) credits both.1 in
    rw (same_id tx.id (fresh n) (fresh' n) both.0, rest) refl

module _ (m key : Text) (now i : ℕ) (fresh : ℕ → ℕ) (credits : List ListedCredit) where
  -- Where the user has a document, a verification that answers raises the sum of all balances by
  -- exactly the total that it reports, which is the sum of the values of the deposits that are due,
  -- and reports their number, whatever identifiers it makes for deposits without one.
  pub verify_credits :
      (db : Db) (u : User) (count : ℕ) (total : Cents)
      → find_user i db ≡ some u
      → text_eq (keep_if is_digit u.cpf_cnpj) [] ≡ false
      → (verify_static_deposit m key now i fresh (some credits) db).1 ≡ success (count, total)
      → let db' = (verify_static_deposit m key now i fresh (some credits) db).0 in
        let due = is_due (keep_if is_digit u.cpf_cnpj) db.transactions in
        (total_balance db'.users ≡ total_balance db.users +ℤ pos total)
        × (total ≡ sum_where due (λ c. c.value) (identified fresh 0 credits))
        × (count ≡ count_where due (identified fresh 0 credits))
  unfolding verify_static_deposit
  verify_credits = listed_credits m key now i (identified fresh 0 credits)

  -- After a verification that answered, another one with the same list, in which every deposit has
  -- an identifier, answers that it credited nothing, and changes nothing.
  pub verify_repeats :
      (fresh' : ℕ → ℕ) (db : Db) (u : User) (r : ℕ × Cents)
      → all_identified credits ≡ true
      → find_user i db ≡ some u
      → text_eq (keep_if is_digit u.cpf_cnpj) [] ≡ false
      → (verify_static_deposit m key now i fresh (some credits) db).1 ≡ success r
      → let db' = (verify_static_deposit m key now i fresh (some credits) db).0 in
        verify_static_deposit m key now i fresh' (some credits) db' ≡ (db', success (0, 0))
  unfolding verify_static_deposit
  verify_repeats fresh' db u r all h d e =
      let db' = (verify_listed m key now i (some (identified fresh 0 credits)) db).0 in
      ap (λ entries. verify_listed m key now i (some entries) db')
        (identified_lem fresh' fresh 0 credits all)
      ∙ listed_repeats m key now i (identified fresh 0 credits) db u r h d e
