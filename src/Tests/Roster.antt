-- ===== src/Tests/Roster.antt =====
-- An account that manages a site, and what it may and may not do with the accounts and the groups.
use natimai_tiai.Prelude.{
  ℕ, zero, suc, all, is_null, ◌∷◌, ap, ◌≡◌, refl, true, false, not, ◌||◌, Option, none, some,
  String, [],
}
use natimai_tiai.User.Scope
use natimai_tiai.User.Scope.{Places, wider, machine_visible}
use natimai_tiai.User.Permissions.{Authority, escalation, has_permission}
use natimai_tiai.User.Accounts.{User, digest_daily, user_by_id, put_user}
use natimai_tiai.User.Groups
use natimai_tiai.User.Groups.{
  Ids, Roster, Group, GroupPermission, GroupScope, UserGroup, is_admin, user_authority,
  users_holding, groups_authority,
}
use natimai_tiai.User.Groups.Reach.{groups_reach}
use natimai_tiai.Answers.{committed, refused, reject}
use natimai_tiai.User.Edits.{
  beyond_reach, Caller, Words, UserUpdate, update_user, delete_user, Reply,
}
use natimai_tiai.User.GroupEdits.{GroupUpdate, update_group}
use natimai_tiai.User.Requests.{Request, updates_user, deletes_user, updates_group, handle}
use natimai_tiai.User.Requests.Aspects.{may, has}
use natimai_tiai.User.Requests.NoGain.{no_gain}
use natimai_tiai.User.Requests.Managers.{managed}
use natimai_tiai.User.Requests.Lockout.{someone_manages}

-- Identifiers printed in strokes
print_id : ℕ → String
print_id zero = ""
print_id (suc n) = String.◌∷◌ "|" (print_id n)

strokes : String → ℕ
strokes String.[] = 0
strokes (String.◌∷◌ c s) = suc (strokes s)

abbrev ids : Ids
ids = record { print_id = print_id; parse_id = λ s. some (strokes s) }

strokes_read : (i : ℕ) → strokes (print_id i) ≡ i
unfolding strokes print_id
strokes_read zero = refl
strokes_read (suc i) = ap suc (strokes_read i)

ids_read : (i : ℕ) → ids.parse_id (ids.print_id i) ≡ some i
ids_read i = ap some (strokes_read i)

abbrev words : Words
words = record { texts = λ ts. ""; pairs = λ ps. "" }

abbrev same : String → String
same s = s

abbrev account : ℕ → String → User
account id email = record {
  id = id;
  email = email;
  hashed_password = "";
  full_name = none;
  email_preference = digest_daily;
  is_active = true;
  password_changed_at = none;
  failed_login_attempts = 0;
  locked_until = none;
  created_at = 0;
  updated_at = 0;
}

abbrev group : ℕ → String → Option String → Group
group id name key = record {
  id = id;
  name = name;
  description = none;
  builtin_key = key;
  updated_at = 0;
}

abbrev grant : ℕ → String → GroupPermission
grant id permission = record { group_id = id; permission = permission }

-- Account 1 is the administrator, 2 manages the accounts of the north, 3 is in no group.
abbrev roster : Roster
roster = record {
  accounts = record {
    users = account 1 "a" ∷ account 2 "b" ∷ account 3 "c" ∷ [];
    reset_tokens = [];
    sessions = [];
  };
  groups = group 1 "Administrateurs" (some "admin") ∷ group 2 "Nord" none ∷ [];
  group_permissions = grant 2 "user:read" ∷ grant 2 "user:write" ∷ grant 2 "machine:read" ∷ [];
  group_scopes = record { group_id = 2; kind = "location"; value = "Nord" } ∷ [];
  user_groups = record { user_id = 1; group_id = 1 } ∷ record { user_id = 2; group_id = 2 } ∷ [];
  audit_log = [];
}

abbrev places : Places
places = record { buildings = []; rooms = [] }

abbrev manager : Caller
manager = record { current = account 2 "b"; now = 7; ip = none }

abbrev joins : ℕ → UserUpdate
joins group_id = record {
  email = none;
  full_name = none;
  group_ids = some (group_id ∷ []);
  is_active = none;
  email_preference = none;
}

abbrev answer : Request → Reply
answer r = handle ids words same same same same places r manager roster

after : Request → Roster
after r = elim (answer r) [ refused e ↦ roster | committed db ↦ db ]

joined : answer (updates_user 3 (joins 2)) ≡ committed (after (updates_user 3 (joins 2)))
unfolding after handle update_user reject has_permission Groups.user_permissions user_by_id
    escalation user_authority wider Scope.union Scope.covers Groups.groups_authority users_holding
    put_user Groups.set_user_groups
joined = refl

refused_admin : answer (updates_user 3 (joins 1)) ≡ refused beyond_reach
unfolding handle update_user reject has_permission Groups.user_permissions user_by_id escalation
    user_authority wider Scope.union Scope.covers Groups.groups_authority
refused_admin = refl

-- The scope lifted of one's own group
abbrev lifted : GroupUpdate
lifted = record { name = none; description = none; permissions = none; scope = some none }

refused_lift : answer (updates_group 2 lifted) ≡ refused beyond_reach
unfolding handle update_group reject has_permission Groups.user_permissions escalation
    user_authority Groups.groups_authority wider Scope.union Scope.covers
refused_lift = refl

manager_plain : is_admin roster 2 ≡ false
unfolding is_admin
manager_plain = refl

no_gain_example :
    (not (has places (may "machine:read") (user_authority ids (after (updates_user 3 (joins 2))) 3))
      || (has places (may "machine:read") (user_authority ids roster 3)
          || has places (may "machine:read") (user_authority ids roster 2)))
    ≡ true
no_gain_example =
    no_gain ids words same same same same places manager roster (after (updates_user 3 (joins 2)))
      (updates_user 3 (joins 2)) ids_read manager_plain joined (may "machine:read") 3

roster-managed : managed roster ≡ true
unfolding Groups.user_permissions has_permission
roster-managed = refl

deleted : answer (deletes_user 3) ≡ committed (after (deletes_user 3))
unfolding after handle delete_user reject has_permission Groups.user_permissions user_by_id
    escalation user_authority wider Scope.union Scope.covers Groups.groups_authority users_holding
    put_user Groups.set_user_groups
deleted = refl

someone_manages_example : managed (after (deletes_user 3)) ≡ true
someone_manages_example =
    someone_manages ids words same same same same places manager roster (after (deletes_user 3))
      (deletes_user 3) refl roster-managed deleted

-- The manager of the north's accounts puts one in the group of the north, and in the administrators'.
abbrev of_manager : Authority
of_manager = record {
  is_admin = false;
  permissions = "user:read" ∷ "user:write" ∷ "machine:read" ∷ [];
  scope = some (record { locations = "Nord" ∷ []; buildings = []; rooms = [] });
}

allowed_north : is_null (escalation of_manager (groups_authority ids roster (2 ∷ []))) ≡ true
unfolding escalation groups_authority wider Scope.union Scope.covers
allowed_north = refl

refused_both : is_null (escalation of_manager (groups_authority ids roster (2 ∷ 1 ∷ []))) ≡ false
unfolding escalation groups_authority wider Scope.union Scope.covers
refused_both = refl

groups_reach_example :
    is_null (escalation of_manager (groups_authority ids roster (2 ∷ 1 ∷ [])))
    ≡ all (λ i. is_null (escalation of_manager (groups_authority ids roster (i ∷ [])))) (2 ∷ 1 ∷ [])
groups_reach_example = groups_reach ids roster of_manager (2 ∷ 1 ∷ [])
