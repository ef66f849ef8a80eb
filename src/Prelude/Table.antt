-- ===== src/Prelude/Table.antt =====
-- A database table as a list of rows, with the queries that the services make of it: the first
-- row that passes a filter, an update of that row, and sums over the rows that pass one.
use Prim.Native.Nat.{ℕ, ◌+◌}
use mathlib.Core.Path.{◌≡◌, refl}
use mathlib.Core.Bool.{Bool, true, false, ◌||◌}
use mathlib.Core.List.{List, [], ◌∷◌}
use mathlib.Core.Option.{Option, none, some}
use native.Mathlib.Omega.{arith}
use biocodetechpay.Prelude.Tests.{if◌then◌else◌}

module _ {ℓ} {A : Type ℓ} where
  -- `.filter(p).first()`
  abbrev pub first : (A → Bool) → List A → Option A
  first p [] = none
  first p (x ∷ xs) = if p x then some x else first p xs

  -- An assignment to fields of the row that `.filter(p).first()` returns.
  abbrev pub update_first : (A → Bool) → (A → A) → List A → List A
  update_first p f [] = []
  update_first p f (x ∷ xs) = if p x then f x ∷ xs else x ∷ update_first p f xs

  -- An assignment to fields of every row of `.filter(p).all()`.
  abbrev pub update_all : (A → Bool) → (A → A) → List A → List A
  update_all p f [] = []
  update_all p f (x ∷ xs) = (if p x then f x else x) ∷ update_all p f xs

  -- `func.sum(f)` over the rows of `.filter(p)`, 0 where there are none.
  abbrev pub sum_where : (A → Bool) → (A → ℕ) → List A → ℕ
  sum_where p f [] = 0
  sum_where p f (x ∷ xs) = (if p x then f x else 0) + sum_where p f xs

  -- `.filter(p).count()`
  abbrev pub count_where : (A → Bool) → List A → ℕ
  count_where p [] = 0
  count_where p (x ∷ xs) = (if p x then 1 else 0) + count_where p xs

  abbrev pub any : (A → Bool) → List A → Bool
  any p [] = false
  any p (x ∷ xs) = p x || any p xs

  pub first-passes : (p : A → Bool) (xs : List A) (x : A) → first p xs ≡ some x → p x ≡ true
  first-passes p [] x h = ground arith
  first-passes p (y ∷ xs) x h = ground (arith, first-passes p xs x)

  -- The updated row is the first one still, if it passes the filter after the update.
  pub first-update_first_self :
      (p : A → Bool) (f : A → A) (xs : List A) (x : A)
      → first p xs ≡ some x
      → p (f x) ≡ true
      → first p (update_first p f xs) ≡ some (f x)
  first-update_first_self p f [] x h k = ground arith
  first-update_first_self p f (y ∷ xs) x h k = ground (arith, first-update_first_self p f xs x)

  pub update_first-none :
      (p : A → Bool) (f : A → A) (xs : List A) → first p xs ≡ none → update_first p f xs ≡ xs
  update_first-none p f [] h = refl
  update_first-none p f (y ∷ xs) h = ground (arith, update_first-none p f xs)

  -- A sum changes by what the updated row contributes before and after.
  pub sum_where-update_first :
      (q p : A → Bool) (w : A → ℕ) (f : A → A) (xs : List A) (x : A)
      → first p xs ≡ some x
      → sum_where q w (update_first p f xs) + (if q x then w x else 0)
        ≡ sum_where q w xs + (if q (f x) then w (f x) else 0)
  sum_where-update_first q p w f [] x h = ground arith
  sum_where-update_first q p w f (y ∷ xs) x h = ground (arith, sum_where-update_first q p w f xs x)

  -- An update of another row, which keeps the test of every row, leaves the first row found.
  pub first-update_first_other :
      (p q : A → Bool) (f : A → A) (xs : List A) (x : A)
      → first p xs ≡ some x
      → q x ≡ false
      → ((y : A) → p (f y) ≡ p y)
      → first p (update_first q f xs) ≡ some x
  first-update_first_other p q f [] x h k same = ground arith
  first-update_first_other p q f (y ∷ xs) x h k same =
      ground (arith, same y, first-update_first_other p q f xs x)

  pub first-none-update_first :
      (p q : A → Bool) (f : A → A) (xs : List A)
      → first p xs ≡ none
      → ((y : A) → p (f y) ≡ p y)
      → first p (update_first q f xs) ≡ none
  first-none-update_first p q f [] h same = refl
  first-none-update_first p q f (y ∷ xs) h same =
      ground (arith, same y, first-none-update_first p q f xs)

  pub first-none-before-update_first :
      (p q : A → Bool) (f : A → A) (xs : List A)
      → first p (update_first q f xs) ≡ none
      → ((y : A) → p (f y) ≡ p y)
      → first p xs ≡ none
  first-none-before-update_first p q f [] h same = refl
  first-none-before-update_first p q f (y ∷ xs) h same =
      ground (arith, same y, first-none-before-update_first p q f xs)

  -- After an update that makes every row fail the filter, none passes it.
  pub count_where-update_all :
      (p : A → Bool) (f : A → A) (xs : List A)
      → ((x : A) → p (f x) ≡ false)
      → count_where p (update_all p f xs) ≡ 0
  count_where-update_all p f [] h = refl
  count_where-update_all p f (x ∷ xs) h = ground (arith, h x, count_where-update_all p f xs h)

  -- Two filters that find the same row: an update of the row by one of them is seen by the other.
  pub first-update_first_both :
      (p q : A → Bool) (f : A → A) (xs : List A) (x : A)
      → first p xs ≡ some x
      → first q xs ≡ some x
      → p (f x) ≡ true
      → first p (update_first q f xs) ≡ some (f x)
  first-update_first_both p q f [] x hp hq k = ground arith
  first-update_first_both p q f (y ∷ xs) x hp hq k = ground (
    arith,
    first-passes p (y ∷ xs) x hp,
    first-passes q (y ∷ xs) x hq,
    first-update_first_both p q f xs x,
  )

  -- An update that makes the row pass a filter which none passed.
  pub first-update_first_new :
      (p q : A → Bool) (f : A → A) (xs : List A) (x : A)
      → first p xs ≡ none
      → first q xs ≡ some x
      → p (f x) ≡ true
      → first p (update_first q f xs) ≡ some (f x)
  first-update_first_new p q f [] x hp hq k = ground arith
  first-update_first_new p q f (y ∷ xs) x hp hq k =
      ground (arith, first-update_first_new p q f xs x)

  -- An update that makes the first row fail the filter leaves one row less that passes.
  pub count_where-update_first :
      (p : A → Bool) (f : A → A) (xs : List A) (x : A)
      → first p xs ≡ some x
      → p (f x) ≡ false
      → count_where p (update_first p f xs) + 1 ≡ count_where p xs
  count_where-update_first p f [] x h k = ground arith
  count_where-update_first p f (y ∷ xs) x h k = ground (arith, count_where-update_first p f xs x)

  pub first-count_none : (p : A → Bool) (xs : List A) → count_where p xs ≡ 0 → first p xs ≡ none
  first-count_none p [] h = refl
  first-count_none p (y ∷ xs) h = ground (arith, first-count_none p xs)

  -- An update of rows that fail another filter is not seen by it.
  pub first-update_first_apart :
      (p q : A → Bool) (f : A → A) (xs : List A)
      → ((y : A) → q y ≡ true → p y ≡ false)
      → ((y : A) → p (f y) ≡ p y)
      → first p (update_first q f xs) ≡ first p xs
  first-update_first_apart p q f [] apart same = refl
  first-update_first_apart p q f (y ∷ xs) apart same =
      ground (arith, apart y, same y, first-update_first_apart p q f xs)
