-- ===== src/User/Groups/Reach.antt =====
-- What an account may put another in: the groups one by one, and several of them at once.
use natimai_tiai.Prelude.{
  ℕ, ◌≡◌, refl, sym, Bool, true, false, ◌&&◌, not, String, List, [], ◌∷◌, map, any, all, subset,
  string_eq, nat_eq, arith, is_null, subset-append, Bool-cases, inl, inr, ◌∙◌,
}
use natimai_tiai.User.Scope
use natimai_tiai.User.Scope.{Scope, wider, covers}
use natimai_tiai.User.Scope.Widening.{wider-union}
use natimai_tiai.User.Permissions.{Authority, escalation}
use natimai_tiai.User.Permissions.Reach.{within_reach, escalation-eq-within_reach}
use natimai_tiai.User.Groups.{
  Ids, Roster, admin_in, granted, granted_by, scope_of, groups_authority,
}

subset-granted_by :
    (db : Roster) (permissions : List String) (is : List ℕ)
    → subset (granted_by db is) permissions ≡ all (λ i. subset (granted db i) permissions) is
unfolding granted_by
subset-granted_by db permissions [] = refl
subset-granted_by db permissions (i ∷ is) = ground (
  arith,
  subset-append (granted db i) (granted_by db is) permissions,
  subset-granted_by db permissions is,
)

module _ (ids : Ids) (db : Roster) (actor : Authority) where
  any-scope_of :
      (is : List ℕ)
      → any (λ s. wider actor.scope s) (map (scope_of ids db) is)
        ≡ any (λ i. wider actor.scope (scope_of ids db i)) is
  any-scope_of [] = refl
  any-scope_of (i ∷ is) = ground (arith, any-scope_of is)

  -- One group is within the actor's reach.
  abbrev grants_within : ℕ → Bool
  grants_within i =
      subset (granted db i) actor.permissions
      && (not (admin_in db.groups i) && not (wider actor.scope (scope_of ids db i)))

  all-grants_within :
      (is : List ℕ)
      → all grants_within is ≡ (
          all (λ i. subset (granted db i) actor.permissions) is
          && (not (any (admin_in db.groups) is)
              && not (any (λ i. wider actor.scope (scope_of ids db i)) is)))
  all-grants_within [] = refl
  all-grants_within (i ∷ is) = ground (arith, all-grants_within is)

  reaches_groups :
      (is : List ℕ)
      → actor.is_admin ≡ false
      → within_reach actor (groups_authority ids db is) ≡ all grants_within is
  unfolding groups_authority wider covers Scope.empty
  reaches_groups [] plain = ground (arith, plain)
  reaches_groups (i ∷ is) plain = elim (Bool-cases (any (admin_in db.groups) (i ∷ is))) [
    | inl admin ↦ rw admin (ground (arith, admin, all-grants_within (i ∷ is)))
    | inr open_ ↦ rw open_ (
        ground (
          arith,
          plain,
          open_,
          all-grants_within (i ∷ is),
          subset-granted_by db actor.permissions (i ∷ is),
          wider-union actor.scope (map (scope_of ids db) (i ∷ is)),
          any-scope_of (i ∷ is),
        ))
  ]

  each_group :
      (is : List ℕ)
      → actor.is_admin ≡ false
      → all (λ i. is_null (escalation actor (groups_authority ids db (i ∷ [])))) is
        ≡ all grants_within is
  each_group [] plain = refl
  each_group (i ∷ is) plain = ground (
    arith,
    escalation-eq-within_reach actor (groups_authority ids db (i ∷ [])),
    reaches_groups (i ∷ []) plain,
    each_group is plain,
  )

  each_admin :
      (is : List ℕ)
      → actor.is_admin ≡ true
      → all (λ i. is_null (escalation actor (groups_authority ids db (i ∷ [])))) is ≡ true
  each_admin [] admin = refl
  each_admin (i ∷ is) admin = ground (
    arith,
    admin,
    escalation-eq-within_reach actor (groups_authority ids db (i ∷ [])),
    each_admin is admin,
  )

-- Putting an account in several groups, by what these grant together, is refused exactly when one of
-- the groups on its own would be, whatever the groups' rows are; putting it in none is not refused.
pub groups_reach :
    (ids : Ids) (db : Roster) (actor : Authority) (is : List ℕ)
    → is_null (escalation actor (groups_authority ids db is))
      ≡ all (λ i. is_null (escalation actor (groups_authority ids db (i ∷ [])))) is
groups_reach ids db actor is = elim (Bool-cases actor.is_admin) [
  | inl admin ↦ ground (
    arith,
    admin,
    escalation-eq-within_reach actor (groups_authority ids db is),
    each_admin ids db actor is admin,
  )
  | inr plain ↦
      escalation-eq-within_reach actor (groups_authority ids db is)
      ∙ reaches_groups ids db actor is plain
      ∙ sym (each_group ids db actor is plain)
]
