-- ===== src/Prelude/Sql.antt =====
-- What a query's WHERE clause reads of a nullable column. A comparison with NULL is unknown, and
-- a row is selected only where the clause is true: under `and` and `or`, the only connectives that
-- the queries use, an unknown test may be read as a test that fails.
use Prim.Native.Nat.{ℕ}
use mathlib.Core.Bool.{Bool, true, false, ◌||◌}
use mathlib.Core.Option.{Option, none, some}
use mathlib.Core.List.{List, [], ◌∷◌}
use natimai_tiai.Prelude.Tests.{ltb, leb}
use natimai_tiai.Prelude.Equality.{Eq, ◌==◌}
use natimai_tiai.Prelude.Sets.{contains}

abbrev pub is_null {ℓ} : {A : Type ℓ} → Option A → Bool
is_null none = true
is_null (some a) = false

abbrev pub is_not_null {ℓ} : {A : Type ℓ} → Option A → Bool
is_not_null none = false
is_not_null (some a) = true

-- COALESCE of two columns, and of a column and a value
abbrev pub coalesce {ℓ} : {A : Type ℓ} → Option A → Option A → Option A
coalesce none b = b
coalesce (some a) b = some a

abbrev pub coalesce_to {ℓ} : {A : Type ℓ} → Option A → A → A
coalesce_to none b = b
coalesce_to (some a) b = a

-- `col == v` and `col IN (vs)`
abbrev pub eq_value {ℓ} : {A : Type ℓ} ⦃e : Eq A⦄ → Option A → A → Bool
eq_value none v = false
eq_value (some a) v = a == v

abbrev pub in_values {ℓ} : {A : Type ℓ} ⦃e : Eq A⦄ → Option A → List A → Bool
in_values none vs = false
in_values (some a) vs = contains vs a

-- `col < v`, `col >= v`, `col <= v`
abbrev pub lt_value : Option ℕ → ℕ → Bool
lt_value none v = false
lt_value (some a) v = ltb a v

abbrev pub ge_value : Option ℕ → ℕ → Bool
ge_value none v = false
ge_value (some a) v = leb v a

abbrev pub le_value : Option ℕ → ℕ → Bool
le_value none v = false
le_value (some a) v = leb a v

abbrev pub gt_value : Option ℕ → ℕ → Bool
gt_value none v = false
gt_value (some a) v = ltb v a

-- `or_(*tests)`: false for no test
abbrev pub or_all : List Bool → Bool
or_all [] = false
or_all (b ∷ bs) = b || or_all bs
