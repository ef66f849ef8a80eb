-- ===== src/Reconcile/Days.antt =====
-- The end of a day is reconciled once.
use biocodetechpay.Prelude.{
  ℕ, ◌≡◌, ◌⊎◌, ◌≤◌, ◌<◌, refl, Bool, true, false, ◌&&◌, ltb, List, [], ◌∷◌, Option, none, some,
  Text, arith, any, count_where, ◌==◌, Bool-cases, inl, inr, if◌then◌else◌, ◌+◌,
}
use biocodetechpay.Store.{Db}
use biocodetechpay.Reconcile.Daily.{
  Round, Worker, Cycle, single_audit, end_of_day, failed_end_of_day, round, is_eod_due, is_date,
  run_end_of_day_reconciliation, balance_audit_loop,
}

-- The worker when it starts.
abbrev pub started : Db → Worker
started db = record { db = db; last_eod_date = none; cycles = [] }

abbrev pub is_end_of : ℕ → Cycle → Bool
is_end_of d (end_of_day date) = date == d
is_end_of d (failed_end_of_day date) = false
is_end_of d (single_audit date) = false

-- How often a day was reconciled.
abbrev pub days_ended : ℕ → Worker → ℕ
days_ended d w = count_where (is_end_of d) w.cycles

-- The clock does not go back.
abbrev pub Ascending : ℕ → List Round → Type 0
Ascending last [] = Unit
Ascending last (r ∷ rounds) = (last ≤ r.date) × Ascending r.date rounds

-- A round of that day in the window, with the database at hand.
abbrev pub in_window : ℕ → Round → Bool
in_window d r = r.date == d && r.hour == 3 && ltb r.minute 5 && r.is_reachable

-- What the date of the last reconciliation says of how often day `d` was reconciled.
abbrev Tracks : ℕ → ℕ → Option ℕ → ℕ → Type 0
Tracks d now none n = n ≡ 0
Tracks d now (some last) n = (last ≤ now) × (last < d → n ≡ 0) × (last ≡ d → n ≡ 1) × (n ≤ 1)

abbrev Tracked : ℕ → ℕ → Worker → Type 0
Tracked d now w = Tracks d now w.last_eod_date (days_ended d w)

Tracks-le : (d now : ℕ) (last : Option ℕ) (n : ℕ) → Tracks d now last n → n ≤ 1
Tracks-le d now none n t = omega arith
Tracks-le d now (some last) n t = t.3

later-Tracks :
    (d now now' : ℕ) (last : Option ℕ) (n : ℕ)
    → now ≤ now'
    → Tracks d now last n
    → Tracks d now' last n
later-Tracks d now now' none n le t = t
later-Tracks d now now' (some last) n le t = (omega (arith, le, t.0), t.1, t.2, t.3)

-- A day that is reconciled now was not before.
new_day :
    (d now date : ℕ) (last : Option ℕ) (n : ℕ)
    → now ≤ date
    → is_date last date ≡ false
    → Tracks d now last n
    → Tracks d date (some date) (if date == d then 1 + n else n)
new_day d now date none n le other t = ground arith
new_day d now date (some last) n le other t = ground (arith, other, t)

recorded :
    (d now : ℕ) (last : Option ℕ) (n : ℕ) → is_date last d ≡ true → Tracks d now last n → n ≡ 1
recorded d now none n h t = cc
recorded d now (some last) n h t = ground (arith, h, t)

module _ (m : Text) (d : ℕ) where
  due_round :
      (r : Round) (w : Worker)
      → is_eod_due r w.last_eod_date ≡ true
      → r.is_reachable ≡ true
      → ((round m r w).last_eod_date ≡ some r.date)
        × (days_ended d (round m r w)
            ≡ (if r.date == d then 1 + days_ended d w else days_ended d w))
  unfolding round run_end_of_day_reconciliation
  due_round r w due up = ground (arith, due, up)

  other_round :
      (r : Round) (w : Worker)
      → (is_eod_due r w.last_eod_date && r.is_reachable) ≡ false
      → ((round m r w).last_eod_date ≡ w.last_eod_date)
        × (days_ended d (round m r w) ≡ days_ended d w)
  unfolding round run_end_of_day_reconciliation
  other_round r w other = ground (arith, other)

  round-Tracked :
      (now : ℕ) (r : Round) (w : Worker)
      → now ≤ r.date
      → Tracked d now w
      → Tracked d r.date (round m r w)
  round-Tracked now r w le t = elim (Bool-cases (is_eod_due r w.last_eod_date && r.is_reachable)) [
    | inl hit ↦
        let (last, ended) = due_round r w (ground (arith, hit)) (ground (arith, hit)) in
        rw (last, ended)
          (new_day d now r.date w.last_eod_date (days_ended d w) le (ground (arith, hit)) t)
    | inr miss ↦
        let (last, ended) = other_round r w miss in
        rw (last, ended) (later-Tracks d now r.date w.last_eod_date (days_ended d w) le t)
  ]

  -- After a round of the day in the window, the day was reconciled.
  window_ends :
      (now : ℕ) (r : Round) (w : Worker)
      → now ≤ r.date
      → Tracked d now w
      → in_window d r ≡ true
      → 1 ≤ days_ended d (round m r w)
  window_ends now r w le t hit = elim (Bool-cases (is_eod_due r w.last_eod_date)) [
    | inl due ↦
        let (last, ended) = due_round r w due (ground (arith, hit)) in ground (arith, ended, hit)
    | inr done ↦
        let (last, ended) = other_round r w (ground (arith, done)) in
        let same : r.date ≡ d = ground (arith, hit) in
        let was : is_date w.last_eod_date d ≡ true = rw (← same) (ground (arith, hit, done)) in
        ground (arith, ended, recorded d now w.last_eod_date (days_ended d w) was t)
  ]

  round-grows : (r : Round) (w : Worker) → days_ended d w ≤ days_ended d (round m r w)
  round-grows r w = elim (Bool-cases (is_eod_due r w.last_eod_date && r.is_reachable)) [
    | inl hit ↦ ground (arith, (due_round r w (ground (arith, hit)) (ground (arith, hit))).1)
    | inr miss ↦ ground (arith, (other_round r w miss).1)
  ]

  loop-grows :
      (rounds : List Round) (w : Worker)
      → days_ended d w ≤ days_ended d (balance_audit_loop m rounds w)
  unfolding balance_audit_loop
  loop-grows [] w = omega arith
  loop-grows (r ∷ rounds) w = omega (arith, round-grows r w, loop-grows rounds (round m r w))

  loop-once :
      (now : ℕ) (rounds : List Round) (w : Worker)
      → Ascending now rounds
      → Tracked d now w
      → days_ended d (balance_audit_loop m rounds w) ≤ 1
  unfolding balance_audit_loop
  loop-once now [] w up t = Tracks-le d now w.last_eod_date (days_ended d w) t
  loop-once now (r ∷ rounds) w up t =
      loop-once r.date rounds (round m r w) up.1 (round-Tracked now r w up.0 t)

  loop-ends :
      (now : ℕ) (rounds : List Round) (w : Worker)
      → Ascending now rounds
      → Tracked d now w
      → any (in_window d) rounds ≡ true
      → 1 ≤ days_ended d (balance_audit_loop m rounds w)
  unfolding balance_audit_loop
  loop-ends now [] w up t hit = cc
  loop-ends now (r ∷ rounds) w up t hit = elim (Bool-cases (in_window d r)) [
    | inl here ↦ omega (arith, window_ends now r w up.0 t here, loop-grows rounds (round m r w))
    | inr later ↦
        loop-ends r.date rounds (round m r w) up.1 (round-Tracked now r w up.0 t) (rw later at hit)
  ]

-- While the clock does not go back, no day is reconciled twice, and every day with a round in the
-- window that finds the database at hand is reconciled exactly once.
pub day_ends_once :
    (m : Text) (d : ℕ) (rounds : List Round) (db : Db)
    → Ascending 0 rounds
    → let n = days_ended d (balance_audit_loop m rounds (started db)) in
      (n ≤ 1) × ((any (in_window d) rounds ≡ false) ⊎ (n ≡ 1))
day_ends_once m d rounds db up =
    let once = loop-once m d 0 rounds (started db) up refl in
    (
      once,
      elim (Bool-cases (any (in_window d) rounds)) [
        | inr never ↦ inl never
        | inl hit ↦ inr (
            let ends = loop-ends m d 0 rounds (started db) up refl hit in omega (arith, once, ends))
      ],
    )
