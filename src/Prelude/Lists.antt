-- ===== src/Prelude/Lists.antt =====
-- Lists measured by native numbers, and the selections that queries make.
use Prim.Native.Nat.{ℕ, zero, suc, ◌+◌, ◌≤◌}
use mathlib.Core.Path.{◌≡◌, refl}
use mathlib.Core.Bool.{Bool, true, false, ◌&&◌, ◌||◌}
use mathlib.Core.List.{List, [], ◌∷◌, ◌++◌}
use native.Mathlib.Omega.{arith}
use natimai_tiai.Prelude.Tests.{if◌then◌else◌, leb}

module _ {ℓ} {A : Type ℓ} where
  abbrev pub length : List A → ℕ
  length [] = 0
  length (x ∷ xs) = suc (length xs)

  abbrev pub take : ℕ → List A → List A
  take zero xs = []
  take (suc n) [] = []
  take (suc n) (x ∷ xs) = x ∷ take n xs

  -- The rows that a test selects.
  abbrev pub select : (A → Bool) → List A → List A
  select p [] = []
  select p (x ∷ xs) = let rest = select p xs in if p x then x ∷ rest else rest

  abbrev pub any : (A → Bool) → List A → Bool
  any p [] = false
  any p (x ∷ xs) = p x || any p xs

  abbrev pub all : (A → Bool) → List A → Bool
  all p [] = true
  all p (x ∷ xs) = p x && all p xs

  -- How many rows a test selects.
  abbrev pub count_where : (A → Bool) → List A → ℕ
  count_where p [] = 0
  count_where p (x ∷ xs) = (if p x then 1 else 0) + count_where p xs

  abbrev pub head? : List A → mathlib.Core.Option.Option A
  head? [] = mathlib.Core.Option.none
  head? (x ∷ xs) = mathlib.Core.Option.some x

  -- `ORDER BY` a column, rows of one key as they stood
  abbrev pub insert_on : (A → ℕ) → A → List A → List A
  insert_on key x [] = x ∷ []
  insert_on key x (y ∷ ys) =
      let rest = insert_on key x ys in if leb (key x) (key y) then x ∷ y ∷ ys else y ∷ rest

  abbrev pub sort_on : (A → ℕ) → List A → List A
  sort_on key [] = []
  sort_on key (x ∷ xs) = insert_on key x (sort_on key xs)

  pub any-insert_on :
      (key : A → ℕ) (p : A → Bool) (x : A) (ys : List A)
      → any p (insert_on key x ys) ≡ (p x || any p ys)
  any-insert_on key p x [] = refl
  any-insert_on key p x (y ∷ ys) = ground (arith, any-insert_on key p x ys)

  pub any-sort_on : (key : A → ℕ) (p : A → Bool) (xs : List A) → any p (sort_on key xs) ≡ any p xs
  any-sort_on key p [] = refl
  any-sort_on key p (x ∷ xs) =
      ground (arith, any-insert_on key p x (sort_on key xs), any-sort_on key p xs)

  abbrev pub All {κ} : (A → Type κ) → List A → Type κ
  All P [] = Unit
  All P (x ∷ xs) = P x × All P xs

  pub length-append : (xs ys : List A) → length (xs ++ ys) ≡ length xs + length ys
  length-append [] ys = omega arith
  length-append (x ∷ xs) ys = omega (arith, length-append xs ys)

  pub any-select : (p q : A → Bool) (xs : List A) → any q (select p xs) ≡ any (λ x. p x && q x) xs
  any-select p q [] = refl
  any-select p q (x ∷ xs) = ground (arith, any-select p q xs)

  pub any-select_self : (p : A → Bool) (xs : List A) → any p (select p xs) ≡ any p xs
  any-select_self p [] = refl
  any-select_self p (x ∷ xs) = ground (arith, any-select_self p xs)

  -- What passes one test passes another, so some row passes it: it is counted.
  pub counted-any :
      (p q : A → Bool) (xs : List A)
      → ((x : A) → p x ≡ true → q x ≡ true)
      → any p xs ≡ true
      → 1 ≤ count_where q xs
  counted-any p q [] h a = ground arith
  counted-any p q (x ∷ xs) h a = ground (arith, h x, counted-any p q xs h)

  pub select-append :
      (p : A → Bool) (xs ys : List A) → select p (xs ++ ys) ≡ select p xs ++ select p ys
  select-append p [] ys = refl
  select-append p (x ∷ xs) ys = ground (arith, select-append p xs ys)

  pub count_where-append :
      (p : A → Bool) (xs ys : List A)
      → count_where p (xs ++ ys) ≡ count_where p xs + count_where p ys
  count_where-append p [] ys = omega arith
  count_where-append p (x ∷ xs) ys = ground (arith, count_where-append p xs ys)

pub All-mono {ℓ κ} :
    {A : Type ℓ} (P Q : A → Type κ) → ((x : A) → P x → Q x) → (xs : List A) → All P xs → All Q xs
All-mono P Q f [] a = tt
All-mono P Q f (x ∷ xs) a = (f x a.0, All-mono P Q f xs a.1)
