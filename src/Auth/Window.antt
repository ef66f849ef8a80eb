-- ===== src/Auth/Window.antt =====
-- What the sliding window bounds.
use biocodetechpay.Prelude.{
  ap, text_eq_refl, text_eq→eq, ltb→lt, ℕ, ◌+◌, ◌≡◌, ◌≤◌, ◌<◌, refl, Bool, true, false, List, [],
  ◌∷◌, ◌++◌, Text, text_eq, ltb, leb, length, arith, Bool-cases, inl, inr, ◌&&◌, count_where,
  length-append, if◌then◌else◌,
}
use biocodetechpay.Auth.Limiter.{Store, no_attempts, purge, attempt, rate_limit}

-- Attempts of several addresses, in the order in which they arrive, with their times.
pub record Attempt : Type 0 where
  pub client_ip : Text
  pub time : ℕ

-- The times at which attempts of one address went on.
unfoldable pub allowed_times : ℕ → ℕ → Text → Store → List Attempt → List ℕ
unfolding rate_limit
allowed_times max_req window ip store [] = []
allowed_times max_req window ip store (a ∷ attempts) =
    let (store', allowed) = rate_limit store a.client_ip max_req window a.time in
    let rest = allowed_times max_req window ip store' attempts in
    if allowed && text_eq a.client_ip ip then a.time ∷ rest else rest

-- The clock does not run back.
abbrev pub Ascending : ℕ → List Attempt → Type 0
Ascending lo [] = Unit
Ascending lo (a ∷ attempts) = (lo ≤ a.time) × Ascending a.time attempts

abbrev pub within : ℕ → ℕ → ℕ → Bool
within start window t = leb start t && leb t (start + window)

count-append :
    (p : ℕ → Bool) (xs ys : List ℕ) → count_where p (xs ++ ys) ≡ count_where p xs + count_where p ys
count-append p [] ys = omega arith
count-append p (x ∷ xs) ys = omega (arith, count-append p xs ys)

count-le-length : (p : ℕ → Bool) (xs : List ℕ) → count_where p xs ≤ length xs
count-le-length p [] = omega arith
count-le-length p (x ∷ xs) = ground (arith, count-le-length p xs)

-- What a purge drops lies before every window that reaches up to the present.
count-purge :
    (start window now : ℕ) (ts : List ℕ)
    → now ≤ start + window
    → count_where (within start window) (purge window now ts) ≡ count_where (within start window) ts
unfolding purge
count-purge start window now [] h = refl
count-purge start window now (t ∷ ts) h = elim (Bool-cases (ltb (t + window) now)) [
  | inr kept ↦ rw (kept, purge) refl
  | inl dropped ↦ rw (dropped, purge) (ground (arith, count-purge start window now ts h))
]

length-purge : (window now : ℕ) (ts : List ℕ) → length (purge window now ts) ≤ length ts
unfolding purge
length-purge window now [] = omega arith
length-purge window now (t ∷ ts) = elim (Bool-cases (ltb (t + window) now)) [
  | inr kept ↦ rw (kept, purge) (omega arith)
  | inl dropped ↦ rw (dropped, purge) (omega (arith, length-purge window now ts))
]

-- After the window has closed, no time falls into it.
late :
    (max_req window start : ℕ) (ip : Text) (lo : ℕ) (store : Store) (attempts : List Attempt)
    → start + window < lo
    → Ascending lo attempts
    → count_where (within start window) (allowed_times max_req window ip store attempts) ≡ 0
unfolding allowed_times rate_limit attempt
late max_req window start ip lo store [] h sorted = refl
late max_req window start ip lo store (a ∷ attempts) h sorted =
    let run = rate_limit store a.client_ip max_req window a.time in
    let rest =
      late max_req window start ip a.time run.0 attempts (omega (arith, sorted.0)) sorted.1 in
    elim (Bool-cases (run.1 && text_eq a.client_ip ip)) [
      | inl counted ↦ rw counted (ground (arith, rest, sorted.0))
      | inr skipped ↦ rw skipped rest
    ]

attempt_step :
    (max_req window start now : ℕ) (ts : List ℕ)
    → length ts ≤ max_req
    → now ≤ start + window
    → let (ts', allowed) = attempt max_req window now ts in
      (length ts' ≤ max_req)
      × (count_where (within start window) ts'
          ≡ count_where (within start window) ts
            + (if allowed && within start window now then 1 else 0))
unfolding attempt
attempt_step max_req window start now ts full open_window =
    let kept = purge window now ts in
    let same = count-purge start window now ts open_window in
    let fewer = length-purge window now ts in
    elim (Bool-cases (leb max_req (length kept))) [
      | inl refused ↦ rw (refused, attempt) (omega (arith, fewer, full), omega (arith, same))
      | inr allowed ↦
          rw (allowed, attempt)
            (
              ground (arith, length-append kept (now ∷ []), allowed),
              ground (arith, count-append (within start window) kept (now ∷ []), same),
            )
    ]

other_ip : (ip client_ip : Text) → text_eq client_ip ip ≡ false → text_eq ip client_ip ≡ false
other_ip ip client_ip h = elim (Bool-cases (text_eq ip client_ip)) [
  | inr e ↦ e
  | inl e ↦
      let same : text_eq client_ip ip ≡ true =
        rw (text_eq→eq ip client_ip e) (text_eq_refl client_ip) in
      absurd (cc)
]

same_ip :
    (store : Store) (client_ip ip : Text) (max_req window now : ℕ)
    → text_eq client_ip ip ≡ true
    → let run = rate_limit store client_ip max_req window now in
      (run.0 ip ≡ (attempt max_req window now (store ip)).0)
      × (run.1 ≡ (attempt max_req window now (store ip)).1)
unfolding rate_limit
same_ip store client_ip ip max_req window now h =
    rw (text_eq→eq client_ip ip h) (rw (text_eq_refl ip) refl, refl)

and_false : (a b : Bool) → b ≡ false → (a && b) ≡ false
and_false true b h = h
and_false false b h = refl

and_false' : (a b : Bool) → a ≡ false → (a && b) ≡ false
and_false' a b h = rw h refl

and_true : (a b : Bool) → a ≡ true → b ≡ true → (a && b) ≡ true
and_true a b h k = rw (h, k) refl

bounded :
    (max_req window start : ℕ) (ip : Text) (lo : ℕ) (store : Store) (attempts : List Attempt)
    → length (store ip) ≤ max_req
    → Ascending lo attempts
    → count_where (within start window) (store ip)
        + count_where (within start window) (allowed_times max_req window ip store attempts)
      ≤ max_req
unfolding allowed_times rate_limit
bounded max_req window start ip lo store [] full sorted =
    omega (arith, count-le-length (within start window) (store ip), full)
bounded max_req window start ip lo store (a ∷ attempts) full sorted =
    let run = rate_limit store a.client_ip max_req window a.time in
    elim (Bool-cases (text_eq a.client_ip ip)) [
      | inr other ↦
          let kept : run.0 ip ≡ store ip = rw (other_ip ip a.client_ip other) refl in
          let ih = bounded max_req window start ip a.time run.0 attempts (rw kept full) sorted.1 in
          rw (and_false run.1 (text_eq a.client_ip ip) other)
            (omega (arith, ih, ap (count_where (within start window)) kept))
      | inl same ↦ elim (Bool-cases (ltb (start + window) a.time)) [
        | inl closed ↦
            let after =
              late max_req window start ip a.time store (a ∷ attempts) (ltb→lt _ _ closed)
                (omega arith, sorted.1) in
            omega (arith, after, count-le-length (within start window) (store ip), full)
        | inr open_window ↦
            let step = attempt_step max_req window start a.time (store ip) full (ground arith) in
            let (times, allowed) = same_ip store a.client_ip ip max_req window a.time same in
            let ih =
              bounded max_req window start ip a.time run.0 attempts
                (omega (arith, ap length times, step.0)) sorted.1 in
            let counts = ap (count_where (within start window)) times in
            elim (Bool-cases run.1) [
              | inl went_on ↦
                  rw (and_true run.1 (text_eq a.client_ip ip) went_on same)
                    (ground (arith, ih, counts, step.1, allowed, went_on))
              | inr refused ↦
                  rw (and_false' run.1 (text_eq a.client_ip ip) refused)
                    (ground (arith, ih, counts, step.1, allowed, refused))
            ]
      ]
    ]

-- However many attempts of however many addresses arrive, at most the maximum of one address goes on
-- within any span of time as long as the window.
pub window_bounds :
    (max_req window start : ℕ) (ip : Text) (attempts : List Attempt)
    → Ascending 0 attempts
    → count_where (within start window) (allowed_times max_req window ip no_attempts attempts)
      ≤ max_req
window_bounds max_req window start ip attempts sorted =
    omega (arith, bounded max_req window start ip 0 no_attempts attempts (omega arith) sorted)
