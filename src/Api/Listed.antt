-- ===== src/Api/Listed.antt =====
-- What a statement of `list_statement` shows.
use biocodetechpay.Prelude.{
  ℕ, ◌≡◌, ◌≤◌, ◌∙◌, ap, refl, Bool, true, Option, List, [], ◌∷◌, zero, suc, min, arith, All, length,
  take, keep_if, Bool-cases, inl, inr, leb, count_where,
}
use biocodetechpay.Store.{Db, PixTransaction, PixStatus}
use biocodetechpay.Api.Statement.{list_statement, latest_first, insert_desc, is_listed}

-- The rows pass a test.
abbrev pub Passing : (PixTransaction → Bool) → List PixTransaction → Type 0
Passing p rows = All (λ t. p t ≡ true) rows

-- No row is later than the one before it.
abbrev pub Descending : List PixTransaction → Type 0
Descending [] = Unit
Descending (t ∷ rows) = All (λ u. u.created_at ≤ t.created_at) rows × Descending rows

module _ {κ} (P : PixTransaction → Type κ) where
  All-insert_desc :
      (t : PixTransaction) (rows : List PixTransaction)
      → P t
      → All P rows
      → All P (insert_desc t rows)
  unfolding insert_desc
  All-insert_desc t [] h hs = (h, tt)
  All-insert_desc t (x ∷ rows) h hs = elim (Bool-cases (leb x.created_at t.created_at)) [
    | inl later ↦ rw later (h, hs)
    | inr earlier ↦ rw earlier (hs.0, All-insert_desc t rows h hs.1)
  ]

  All-latest_first : (rows : List PixTransaction) → All P rows → All P (latest_first rows)
  unfolding latest_first
  All-latest_first [] h = tt
  All-latest_first (t ∷ rows) h =
      All-insert_desc t (latest_first rows) h.0 (All-latest_first rows h.1)

  All-take : (n : ℕ) (rows : List PixTransaction) → All P rows → All P (take n rows)
  All-take zero rows h = tt
  All-take (suc n) [] h = tt
  All-take (suc n) (x ∷ rows) h = (h.0, All-take n rows h.1)

All-mono :
    (a b : ℕ) (rows : List PixTransaction)
    → a ≤ b
    → All (λ u. u.created_at ≤ a) rows
    → All (λ u. u.created_at ≤ b) rows
All-mono a b [] le h = tt
All-mono a b (x ∷ rows) le h = (omega (arith, le, h.0), All-mono a b rows le h.1)

insert_desc-Descending :
    (t : PixTransaction) (rows : List PixTransaction)
    → Descending rows
    → Descending (insert_desc t rows)
unfolding insert_desc
insert_desc-Descending t [] h = (tt, tt)
insert_desc-Descending t (x ∷ rows) h = elim (Bool-cases (leb x.created_at t.created_at)) [
  | inl later ↦
      let le : x.created_at ≤ t.created_at = ground (arith, later) in
      rw later ((le, All-mono x.created_at t.created_at rows le h.0), h)
  | inr earlier ↦
      let le : t.created_at ≤ x.created_at = ground (arith, earlier) in
      rw earlier (
        All-insert_desc (λ u. u.created_at ≤ x.created_at) t rows le h.0,
        insert_desc-Descending t rows h.1,
      )
]

latest_first-Descending : (rows : List PixTransaction) → Descending (latest_first rows)
unfolding latest_first
latest_first-Descending [] = tt
latest_first-Descending (t ∷ rows) =
    insert_desc-Descending t (latest_first rows) (latest_first-Descending rows)

take-Descending : (n : ℕ) (rows : List PixTransaction) → Descending rows → Descending (take n rows)
take-Descending zero rows h = tt
take-Descending (suc n) [] h = tt
take-Descending (suc n) (x ∷ rows) h =
    (All-take (λ u. u.created_at ≤ x.created_at) n rows h.0, take-Descending n rows h.1)

keep_if-Passing :
    (p : PixTransaction → Bool) (rows : List PixTransaction) → Passing p (keep_if p rows)
keep_if-Passing p [] = tt
keep_if-Passing p (x ∷ rows) = elim (Bool-cases (p x)) [
  | inl hit ↦ rw hit (hit, keep_if-Passing p rows)
  | inr miss ↦ rw miss (keep_if-Passing p rows)
]

length-insert_desc :
    (t : PixTransaction) (rows : List PixTransaction)
    → length (insert_desc t rows) ≡ suc (length rows)
unfolding insert_desc
length-insert_desc t [] = refl
length-insert_desc t (x ∷ rows) = ground (arith, length-insert_desc t rows)

length-latest_first : (rows : List PixTransaction) → length (latest_first rows) ≡ length rows
unfolding latest_first
length-latest_first [] = refl
length-latest_first (t ∷ rows) =
    length-insert_desc t (latest_first rows) ∙ ap suc (length-latest_first rows)

length-keep_if :
    (p : PixTransaction → Bool) (rows : List PixTransaction)
    → length (keep_if p rows) ≡ count_where p rows
length-keep_if p [] = refl
length-keep_if p (x ∷ rows) = ground (arith, length-keep_if p rows)

length-take-min : (n : ℕ) (rows : List PixTransaction) → length (take n rows) ≡ min n (length rows)
length-take-min zero rows = omega arith
length-take-min (suc n) [] = omega arith
length-take-min (suc n) (x ∷ rows) = omega (arith, length-take-min n rows)

-- A statement shows only transactions of the user with the status that was asked for, none later than
-- the one before it, and as many of them as there are, up to the limit.
pub statement_rows :
    (user_id limit : ℕ) (status : Option PixStatus) (db : Db)
    → let s = list_statement user_id limit status db in
      Passing (is_listed user_id status) s.transactions
      × Descending s.transactions
      × (s.total_transactions ≡ min limit (count_where (is_listed user_id status) db.transactions))
unfolding list_statement
statement_rows user_id limit status db =
    let p = is_listed user_id status in
    let kept = keep_if p db.transactions in
    (
      All-take (λ t. p t ≡ true) limit (latest_first kept)
          (All-latest_first (λ t. p t ≡ true) kept (keep_if-Passing p db.transactions)),
      take-Descending limit (latest_first kept) (latest_first-Descending kept),
      length-take-min limit (latest_first kept)
          ∙ ap (min limit) (length-latest_first kept ∙ length-keep_if p db.transactions),
    )
