-- ===== src/User/Permissions/Reach.antt =====
-- No escalation: what `escalation` lets pass.
use natimai_tiai.Prelude.{
  ◌≡◌, refl, sym, ◌∙◌, ap, Bool, true, false, ◌&&◌, ◌||◌, not, none, String, List, [], ◌∷◌, subset,
  difference, string_eq, arith, is_null, contains-subset,
}
use natimai_tiai.Machine.{Machine}
use natimai_tiai.User.Scope.{Places, wider, machine_visible}
use natimai_tiai.User.Scope.Visibility.{wider-visible}
use natimai_tiai.User.Permissions.{Authority, escalation, is_nil, has_permission, permission_key}

is_nil-difference : (xs ys : List String) → is_nil (difference xs ys) ≡ subset xs ys
is_nil-difference [] ys = refl
is_nil-difference (x ∷ xs) ys = ground (arith, is_nil-difference xs ys)

-- The three conditions of `escalation` as one test.
abbrev pub within_reach : Authority → Authority → Bool
within_reach actor target =
    actor.is_admin
    || (subset target.permissions actor.permissions
        && (not target.is_admin && not (wider actor.scope target.scope)))

pub escalation-eq-within_reach :
    (actor target : Authority) → is_null (escalation actor target) ≡ within_reach actor target
unfolding escalation
escalation-eq-within_reach actor target =
    ground (arith, is_nil-difference target.permissions actor.permissions)

implied : (a b : Bool) → (a ≡ true → b ≡ true) → (not a || b) ≡ true
implied true b f = f refl
implied false b f = refl

-- A target that `escalation` lets a plain account reach is not administrator material, grants no
-- permission that the account lacks, and shows no poste that the account does not see.
pub escalation_sound :
    (p : Places) (actor target : Authority)
    → actor.is_admin ≡ false
    → escalation actor target ≡ none
    → (target.is_admin ≡ false)
      × ((resource action : String)
          → (not (has_permission target.permissions resource action)
              || has_permission actor.permissions resource action)
            ≡ true)
      × ((m : Machine)
          → (not (machine_visible p target.scope m) || machine_visible p actor.scope m) ≡ true)
unfolding has_permission
escalation_sound p actor target plain e =
    let reach : within_reach actor target ≡ true =
      sym (escalation-eq-within_reach actor target) ∙ ap is_null e in
    (
      ground arith,
      λ r a. implied _ _ (
          contains-subset target.permissions actor.permissions (permission_key r a) (ground arith)),
      λ m. implied _ _ (wider-visible p actor.scope target.scope m (ground arith)),
    )
