-- ===== src/Answers.antt =====
-- What a handler of the console's routes ends with: an error raised, which commits nothing, or the
-- tables that it commits.
use natimai_tiai.Prelude.{◌≡◌, refl, Bool, true, false, Option, none, some}

pub data Answer (E S : Type 0) : Type 0 where
  refused : E → Answer E S
  committed : S → Answer E S

module _ {E S : Type 0} where
  -- A guard: the error that it raises, or what follows
  unfoldable pub reject : Bool → E → Answer E S → Answer E S
  reject true e k = refused e
  reject false e k = k

  -- A predicate of what an answer commits
  abbrev pub Commits : (S → Type 0) → Answer E S → Type 0
  Commits P (refused e) = Unit
  Commits P (committed db) = P db

  pub guarded :
      (P : S → Type 0) (b : Bool) (e : E) (k : Answer E S)
      → (b ≡ false → Commits P k)
      → Commits P (reject b e k)
  unfolding reject
  guarded P true e k f = tt
  guarded P false e k f = f refl

  -- What was looked up, or the error for a row that is not there
  pub found-Commits :
      {A : Type 0} (P : S → Type 0) (e : E) (k : A → Answer E S) (o : Option A)
      → ((a : A) → o ≡ some a → Commits P (k a))
      → Commits P (elim o as (λ _. Answer E S) [ none ↦ refused e | some a ↦ k a ])
  found-Commits P e k none h = tt
  found-Commits P e k (some a) h = h a refl
