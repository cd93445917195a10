-- ===== src/Room/Outcome.antt =====
-- What the statements on the rooms of backend/app/features/room/crud.py end with.
use natimai_tiai.Prelude.{ap, ◌≡◌, ◌⊎◌, ◌∙◌, Bool, true, inl, inr}

-- A result; a row that the columns of `rooms` have no room for; or a loop cut short
pub data Outcome (A : Type 0) : Type 0 where
  done : A → Outcome A
  too_long : Outcome A
  out_of_fuel : Outcome A

abbrev pub on_done : {A B : Type 0} → (A → B) → Outcome A → Outcome B
on_done f (done a) = done (f a)
on_done f too_long = too_long
on_done f out_of_fuel = out_of_fuel

infixl 5 ◌>>=◌
abbrev pub ◌>>=◌ : {A B : Type 0} → Outcome A → (A → Outcome B) → Outcome B
done a >>= f = f a
too_long >>= f = too_long
out_of_fuel >>= f = out_of_fuel

-- It ends, with a result that a predicate holds of, or refused, which only happens under a test.
abbrev pub Ends : {A : Type 0} → (A → Type 0) → Bool → Outcome A → Type 0
Ends {A} P b o = ((a : A) × (o ≡ done a) × P a) ⊎ ((o ≡ too_long) × (b ≡ true))

-- What ends does so under the function as well.
pub Ends-on_done :
    {A B : Type 0} (f : A → B) {P : A → Type 0} {Q : B → Type 0} {b : Bool} (o : Outcome A)
    → ((a : A) → P a → Q (f a))
    → Ends P b o
    → Ends Q b (on_done f o)
Ends-on_done f o h (inl (a, e, p)) = inl (f a, ap (on_done f) e, h a p)
Ends-on_done f o h (inr (e, long)) = inr (ap (on_done f) e, long)

pub bind-done :
    {A B : Type 0} (o : Outcome A) (f : A → Outcome B) {a : A} {b : Outcome B}
    → o ≡ done a
    → f a ≡ b
    → (o >>= f) ≡ b
bind-done o f e h = ap (λ x. x >>= f) e ∙ h

-- What is refused is refused, whatever was to come.
pub refused :
    {A B : Type 0} (o : Outcome A) (f : A → Outcome B) → o ≡ too_long → (o >>= f) ≡ too_long
refused o f e = ap (λ x. x >>= f) e
