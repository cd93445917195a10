-- ===== src/Prelude/Searches.antt =====
-- Searches through a list: what `any` finds under maps, tests joined and other searches.
use mathlib.Core.Path.{◌≡◌, refl, sym}
use mathlib.Core.Bool.{Bool, true, false, ◌&&◌, ◌||◌}
use mathlib.Core.List.{List, [], ◌∷◌, ◌++◌, map}
use native.Mathlib.Omega.{arith}
use natimai_tiai.Prelude.Lists.{any, select}

module _ {ℓ} {A : Type ℓ} where
  pub any-append : (f : A → Bool) (xs ys : List A) → any f (xs ++ ys) ≡ (any f xs || any f ys)
  any-append f [] ys = refl
  any-append f (x ∷ xs) ys = ground (arith, any-append f xs ys)

  pub any-front : (f : A → Bool) (xs ys : List A) → any f xs ≡ true → any f (xs ++ ys) ≡ true
  any-front f [] ys a = cc
  any-front f (x ∷ xs) ys a = ground (arith, any-front f xs ys)

  pub any-or : (f g : A → Bool) (xs : List A) → any (λ x. f x || g x) xs ≡ (any f xs || any g xs)
  any-or f g [] = refl
  any-or f g (x ∷ xs) = ground (arith, any-or f g xs)

  pub any-and : (b : Bool) (f : A → Bool) (xs : List A) → any (λ x. b && f x) xs ≡ (b && any f xs)
  any-and true f xs = refl
  any-and false f [] = refl
  any-and false f (x ∷ xs) = any-and false f xs

  pub any-same : (f g : A → Bool) (xs : List A) → ((x : A) → f x ≡ g x) → any f xs ≡ any g xs
  any-same f g [] h = refl
  any-same f g (x ∷ xs) h = ground (arith, h x, any-same f g xs h)

  -- What passes one test passes another, and so does some element.
  pub any-implied :
      (f g : A → Bool)
      → ((x : A) → f x ≡ true → g x ≡ true)
      → (xs : List A) → any f xs ≡ true
      → any g xs ≡ true
  any-implied f g h [] a = a
  any-implied f g h (x ∷ xs) a = ground (arith, h x, any-implied f g h xs)

  pub any-of_select : (f p : A → Bool) (xs : List A) → any f (select p xs) ≡ true → any f xs ≡ true
  any-of_select f p [] a = a
  any-of_select f p (x ∷ xs) a = ground (arith, any-of_select f p xs)

  pub any-false : (xs : List A) → any (λ x. false) xs ≡ false
  any-false [] = refl
  any-false (x ∷ xs) = any-false xs

module _ {ℓ κ} {A : Type ℓ} {B : Type κ} where
  pub any-map : (h : A → B) (f : B → Bool) (xs : List A) → any f (map h xs) ≡ any (λ x. f (h x)) xs
  any-map h f [] = refl
  any-map h f (x ∷ xs) = ground (arith, any-map h f xs)

  any-cons :
      (f : A → B → Bool) (x : A) (xs : List A) (ys : List B)
      → any (λ y. any (λ x. f x y) (x ∷ xs)) ys
        ≡ (any (f x) ys || any (λ y. any (λ x. f x y) xs) ys)
  any-cons f x xs [] = refl
  any-cons f x xs (y ∷ ys) = ground (arith, any-cons f x xs ys)

  -- The order of two searches is not seen.
  pub any-any :
      (f : A → B → Bool) (xs : List A) (ys : List B)
      → any (λ x. any (f x) ys) xs ≡ any (λ y. any (λ x. f x y) xs) ys
  any-any f [] ys = sym (any-false ys)
  any-any f (x ∷ xs) ys = ground (arith, any-any f xs ys, any-cons f x xs ys)
