-- ===== src/Prelude/Sets.antt =====
-- Python sets as lists that only a membership test reads: union is `++`.
use mathlib.Core.Path.{◌≡◌, refl}
use mathlib.Core.Bool.{Bool, true, false, ◌&&◌, ◌||◌, not}
use mathlib.Core.List.{List, [], ◌∷◌, ◌++◌}
use mathlib.Core.Logic.{inl, inr}
use native.Mathlib.Omega.{arith}
use natimai_tiai.Prelude.Tests.{or_true, and_true}
use natimai_tiai.Prelude.Equality.{Eq, ◌==◌, ==_sound, ==_refl}
use natimai_tiai.Prelude.Lists.{all, any, select}

module _ {ℓ} {A : Type ℓ} ⦃e : Eq A⦄ where
  -- `a in xs`
  abbrev pub contains : List A → A → Bool
  contains [] a = false
  contains (x ∷ xs) a = a == x || contains xs a

  -- `xs <= ys`
  abbrev pub subset : List A → List A → Bool
  subset xs ys = all (contains ys) xs

  -- `xs - ys`
  abbrev pub difference : List A → List A → List A
  difference xs ys = select (λ x. not (contains ys x)) xs

  pub contains-append :
      (xs ys : List A) (a : A) → contains (xs ++ ys) a ≡ (contains xs a || contains ys a)
  contains-append [] ys a = refl
  contains-append (x ∷ xs) ys a = ground (arith, contains-append xs ys a)

  pub contains-subset :
      (xs ys : List A) (a : A) → subset xs ys ≡ true → contains xs a ≡ true → contains ys a ≡ true
  contains-subset [] ys a h m = ground arith
  contains-subset (x ∷ xs) ys a h m = elim (or_true (a == x) (contains xs a) m) [
    | inl same ↦ subst_contains (==_sound a x same)
    | inr later ↦ contains-subset xs ys a (and_true (contains ys x) _ h).1 later
  ]
    where
      subst_contains : a ≡ x → contains ys a ≡ true
      subst_contains p = rw p (and_true (contains ys x) _ h).0

  pub subset_complete :
      (xs ys : List A)
      → ((a : A) → contains xs a ≡ true → contains ys a ≡ true)
      → subset xs ys ≡ true
  subset_complete [] ys h = refl
  subset_complete (x ∷ xs) ys h =
      ground (arith, h x, ==_refl x, subset_complete xs ys (λ a m. h a (ground (arith, m))))

  pub contains_self : (x : A) (xs : List A) → contains (x ∷ xs) x ≡ true
  contains_self x xs = ground (arith, ==_refl x)

  pub subset-append : (xs ys zs : List A) → subset (xs ++ ys) zs ≡ (subset xs zs && subset ys zs)
  subset-append [] ys zs = refl
  subset-append (x ∷ xs) ys zs = ground (arith, subset-append xs ys zs)

-- A test passes on some element exactly where an element shows it.
module _ {ℓ} {A : Type ℓ} ⦃e : Eq A⦄ (p : A → Bool) where
  pub any-contains : (xs : List A) (a : A) → contains xs a ≡ true → p a ≡ true → any p xs ≡ true
  any-contains [] a m h = ground arith
  any-contains (x ∷ xs) a m h = elim (or_true (a == x) (contains xs a) m) [
    | inl same ↦ ground (arith, ==_sound a x same)
    | inr later ↦ ground (arith, any-contains xs a later h)
  ]
