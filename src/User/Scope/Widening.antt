-- ===== src/User/Scope/Widening.antt =====
-- Which unions of scopes reach beyond an actor's own.
use natimai_tiai.Prelude.{
  ◌≡◌, refl, false, ◌&&◌, ◌||◌, not, Option, none, some, List, [], ◌∷◌, any, arith, subset-append,
  nat_eq, string_eq,
}
use natimai_tiai.User.Scope.{Scope, empty, join, covers, union_from, union, wider}

covers-join : (a s t : Scope) → covers a (join s t) ≡ (covers a s && covers a t)
unfolding covers join
covers-join a s t = ground (
  arith,
  subset-append s.locations t.locations a.locations,
  subset-append s.buildings t.buildings a.buildings,
  subset-append s.rooms t.rooms a.rooms,
)

union_from-wider :
    (a out : Scope) (scopes : List (Option Scope))
    → wider (some a) (union_from out scopes)
      ≡ (not (covers a out) || any (λ s. wider (some a) s) scopes)
unfolding union_from wider
union_from-wider a out [] = ground arith
union_from-wider a out (none ∷ scopes) = ground arith
union_from-wider a out (some s ∷ scopes) =
    ground (arith, union_from-wider a (join out s) scopes, covers-join a out s)

unrestricted-wider : (scopes : List (Option Scope)) → any (λ s. wider none s) scopes ≡ false
unfolding wider
unrestricted-wider [] = refl
unrestricted-wider (s ∷ scopes) = unrestricted-wider scopes

-- A union reaches beyond an actor exactly when one of its parts does.
pub wider-union :
    (actor : Option Scope) (scopes : List (Option Scope))
    → wider actor (union scopes) ≡ any (λ s. wider actor s) scopes
unfolding wider union covers
wider-union none scopes = ground (arith, unrestricted-wider scopes)
wider-union (some a) scopes = union_from-wider a empty scopes
