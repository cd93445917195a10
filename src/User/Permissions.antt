-- ===== src/User/Permissions.antt =====
-- backend/app/features/user/permissions.py: permissions as (resource, action) pairs, what an
-- account's groups grant together, and the rule that nobody hands out what he does not hold.
pub mod Reach
use Prim.Native.String.{◌++◌ as text_append}
use natimai_tiai.Prelude.{
  Bool, true, false, ◌&&◌, ◌||◌, not, Option, none, some, String, List, [], ◌∷◌, ◌++◌, map,
  contains, difference, string_eq, if◌then◌else◌,
}
use natimai_tiai.User.Scope
use natimai_tiai.User.Scope.{Scope, wider}

pub data Resource : Type 0 where
  machine threat command risky_command room intervention check maintenance settings user : Resource
  audit package_ : Resource

pub data Action : Type 0 where
  read write execute : Action

-- The values of the two string enums.
abbrev pub resource_value : Resource → String
resource_value machine = "machine"
resource_value threat = "threat"
resource_value command = "command"
resource_value risky_command = "risky_command"
resource_value room = "room"
resource_value intervention = "intervention"
resource_value check = "check"
resource_value maintenance = "maintenance"
resource_value settings = "settings"
resource_value user = "user"
resource_value audit = "audit"
resource_value package_ = "package"

abbrev pub action_value : Action → String
action_value read = "read"
action_value write = "write"
action_value execute = "execute"

-- PERMISSION_CATALOGUE
abbrev pub permission_catalogue : List (Resource × Action)
permission_catalogue =
    (machine, read)
    ∷ (machine, write)
    ∷ (threat, read)
    ∷ (command, read)
    ∷ (command, execute)
    ∷ (risky_command, execute)
    ∷ (room, read)
    ∷ (room, write)
    ∷ (intervention, read)
    ∷ (intervention, write)
    ∷ (check, read)
    ∷ (check, write)
    ∷ (maintenance, read)
    ∷ (maintenance, write)
    ∷ (settings, read)
    ∷ (settings, write)
    ∷ (user, read)
    ∷ (user, write)
    ∷ (audit, read)
    ∷ (package_, read)
    ∷ (package_, write)
    ∷ []

-- `f"{resource}:{action}"`
unfoldable pub permission_key : String → String → String
permission_key resource action = text_append resource (text_append ":" action)

unfoldable pub has_permission : List String → String → String → Bool
unfolding permission_key
has_permission permissions resource action = contains permissions (permission_key resource action)

pub record Authority : Type 0 where
  pub is_admin : Bool
  pub permissions : List String
  pub scope : Option Scope

-- The loop of `Authority.union`: the flag and the permissions gathered over the parts.
pub gather : Bool × List String → List Authority → Bool × List String
gather acc [] = acc
gather (is_admin, permissions) (part ∷ parts) =
    gather (is_admin || part.is_admin, permissions ++ part.permissions) parts

-- `Authority.union`
pub union : List Authority → Authority
unfolding gather
union parts =
    let (is_admin, permissions) = gather (false, []) parts in
    record {
      is_admin = is_admin;
      permissions = permissions;
      scope = if is_admin then none else Scope.union (map (λ (p : Authority). p.scope) parts);
    }

pub record Escalation : Type 0 where
  pub missing : List String
  pub admin : Bool
  pub wider_scope : Bool

abbrev pub is_nil : List String → Bool
is_nil [] = true
is_nil (x ∷ xs) = false

-- `escalation`
unfoldable pub escalation : Authority → Authority → Option Escalation
escalation actor target =
    let missing = difference target.permissions actor.permissions in
    let wider_scope = wider actor.scope target.scope in
    if actor.is_admin
    then none
    else if is_nil missing && (not target.is_admin && not wider_scope)
    then none
    else some (record { missing = missing; admin = target.is_admin; wider_scope = wider_scope })
