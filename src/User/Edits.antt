-- ===== src/User/Edits.antt =====
-- The handlers of backend/app/api/routes/users.py and groups.py that change accounts and groups. A
-- refused request commits nothing. A null sent for an address, an activation, a cadence, a list of
-- groups or of permissions raises an error before the commit, and is left out. `words` is what words
-- the entries of the log; the two routers ask for the right to read accounts first.
use natimai_tiai.Prelude.{
  ℕ, Bool, true, false, not, ◌&&◌, Option, none, some, String, List, [], ◌∷◌, ◌++◌, map, any,
  select, string_eq, nat_eq, option_eq, ◌==◌, if◌then◌else◌, coalesce_to, is_not_null, is_null,
  eq_value,
}
use natimai_tiai.Prelude.Time.{Instant}
use natimai_tiai.Answers.{Answer, refused, committed, reject}
use natimai_tiai.Audit.{AuditEntry, record_entry}
use natimai_tiai.AuthSession.{AuthSession, revoke_all}
use natimai_tiai.User.Permissions.{Authority, escalation, has_permission, permission_key}
use natimai_tiai.User.Accounts.{
  User, EmailPreference, digest_daily, PasswordResetToken, user_by_id, put_user, set_password,
  purge_reset_tokens,
}
use natimai_tiai.User.Groups.{
  Ids, Roster, Group, UserGroup, group_by_id, set_user_groups, user_authority, groups_authority,
  user_permissions, users_holding,
}

pub data Refusal : Type 0 where
  permission_denied user_not_found email_taken group_not_found self_forbidden : Refusal
  beyond_reach lockout name_taken permission_unknown scope_unknown builtin_protected : Refusal

abbrev pub Reply : Type 0
Reply = Answer Refusal Roster

-- The account and the request that an edit comes from
pub record Caller : Type 0 where
  pub current : User
  pub now : Instant
  pub ip : Option String

-- The texts that the entries of the log are worded with
pub record Words : Type 0 where
  pub texts : List String → String
  pub pairs : List (String × String) → String

pub record UserCreate : Type 0 where
  pub email : String
  pub password : String
  pub full_name : Option String
  pub group_ids : List ℕ

-- A field that is not sent is none.
pub record UserUpdate : Type 0 where
  pub email : Option String
  pub full_name : Option (Option String)
  pub group_ids : Option (List ℕ)
  pub is_active : Option Bool
  pub email_preference : Option EmailPreference

-- USER_WRITE
abbrev pub user_write : String
user_write = permission_key "user" "write"

-- `require_permission` of the two routers and of the writes
unfoldable pub may_write : List String → Bool
may_write permissions =
    has_permission permissions "user" "read" && has_permission permissions "user" "write"

-- A test of a field that is sent
abbrev pub sent {ℓ} : {A : Type ℓ} → (A → Bool) → Option A → Bool
sent p none = false
sent p (some a) = p a

-- Whether `_require_groups_exist` raises
unfoldable pub missing_group : List Group → List ℕ → Bool
missing_group groups group_ids = any (λ i. is_null (group_by_id groups i)) group_ids

-- `reject_escalation`, whether it raises
abbrev pub beyond : Authority → Authority → Bool
beyond actor target = is_not_null (escalation actor target)

-- `reject_lockout`
unfoldable pub reject_lockout : Roster → Reply
reject_lockout db = reject (users_holding db user_write == 0) lockout (committed db)

abbrev pub entry : Caller → String → String → String → List (String × Option String) → AuditEntry
entry c action resource_type resource_id details = record {
  at = c.now;
  actor = c.current.email;
  action = action;
  resource_type = resource_type;
  resource_id = resource_id;
  details = details;
  ip = c.ip;
}

abbrev pub logged : AuditEntry → Roster → Roster
logged e db = record db { audit_log = record_entry e db.audit_log }

-- The names of the fields sent, sorted
pub fields_sent : UserUpdate → List String
fields_sent f =
    (if is_not_null f.email then "email" ∷ [] else [])
    ++ ((if is_not_null f.email_preference then "email_preference" ∷ [] else [])
        ++ ((if is_not_null f.full_name then "full_name" ∷ [] else [])
            ++ (if is_not_null f.is_active then "is_active" ∷ [] else [])))

-- The row after the `setattr`s
unfoldable pub updated_user : Instant → UserUpdate → User → User
updated_user now f u = record u {
  email = coalesce_to f.email u.email;
  full_name = coalesce_to f.full_name u.full_name;
  is_active = coalesce_to f.is_active u.is_active;
  email_preference = coalesce_to f.email_preference u.email_preference;
  updated_at = now;
}

-- The account that `crud.create_user` adds
unfoldable pub new_user :
    ℕ
    → Instant
    → (hash_password : String → String) → (normalize_email : String → String) → UserCreate
    → User
new_user id now hash_password normalize_email payload = record {
  id = id;
  email = normalize_email payload.email;
  hashed_password = hash_password payload.password;
  full_name = payload.full_name;
  email_preference = digest_daily;
  is_active = true;
  password_changed_at = none;
  failed_login_attempts = 0;
  locked_until = none;
  created_at = now;
  updated_at = now;
}

module _ (ids : Ids) (words : Words) (normalize_email lower hash_password : String → String) where
  -- Whether `_reject_email_taken` raises: no account to exclude is none.
  pub email_is_taken : List User → String → Option ℕ → Bool
  email_is_taken users email exclude =
      any (λ (u : User). lower u.email == normalize_email email && not (eq_value exclude u.id))
        users

  abbrev list_ids : List ℕ → String
  list_ids is = words.texts (map ids.print_id is)

  abbrev created_user : ℕ → Caller → UserCreate → Roster → Roster
  created_user id c payload db = record db {
    accounts = record db.accounts {
      users = db.accounts.users ++ new_user id c.now hash_password normalize_email payload ∷ [];
    };
    user_groups = set_user_groups id payload.group_ids db.user_groups;
  }

  -- `create_user`, its commits as one
  unfoldable pub create_user : ℕ → Caller → UserCreate → Roster → Reply
  unfolding may_write missing_group email_is_taken new_user
  create_user id c payload db =
      reject (not (may_write (user_permissions db c.current.id))) permission_denied (
        reject (email_is_taken db.accounts.users payload.email none) email_taken (
          reject (missing_group db.groups payload.group_ids) group_not_found (
            reject
              (beyond (user_authority ids db c.current.id)
                (groups_authority ids db payload.group_ids))
              beyond_reach
              (committed (
                logged
                  (entry c "user.create" "user" (ids.print_id id) (
                    ("email", some (normalize_email payload.email))
                    ∷ ("group_ids", some (list_ids payload.group_ids))
                    ∷ []))
                  (created_user id c payload db))))))

  -- What `update_user` writes, before the log
  abbrev edited_user : Caller → UserUpdate → User → Roster → Roster
  edited_user c f u db = record db {
    accounts = record db.accounts {
      users = put_user (updated_user c.now f u) db.accounts.users;
      sessions =
          if sent not f.is_active
          then (revoke_all db.accounts.sessions u.id c.now).0
          else db.accounts.sessions;
    };
    user_groups = elim f.group_ids [
      | none ↦ db.user_groups
      | some is ↦ set_user_groups u.id is db.user_groups
    ];
  }

  -- `update_user`, of an account that is there
  unfoldable pub update_found : Caller → UserUpdate → Roster → User → Reply
  unfolding missing_group email_is_taken updated_user fields_sent reject_lockout
  update_found c f db u =
      reject (beyond (user_authority ids db c.current.id) (user_authority ids db u.id)) beyond_reach
        (reject (sent not f.is_active && c.current.id == u.id) self_forbidden (
          reject (is_not_null f.group_ids && c.current.id == u.id) self_forbidden (
            reject (sent (missing_group db.groups) f.group_ids) group_not_found (
              reject
                (sent
                  (λ is. beyond (user_authority ids db c.current.id) (groups_authority ids db is))
                  f.group_ids)
                beyond_reach
                (reject
                  (sent
                    (λ email.
                      not (email == u.email) && email_is_taken db.accounts.users email (some u.id))
                    f.email)
                  email_taken
                  (reject_lockout (
                    logged
                      (entry c "user.update" "user" (ids.print_id u.id) (
                        ("email", some (updated_user c.now f u).email)
                        ∷ ("fields", some (words.texts (fields_sent f)))
                        ∷ elim f.group_ids [
                          | none ↦ []
                          | some is ↦ ("group_ids", some (list_ids is)) ∷ []
                        ]))
                      (edited_user c f u db))))))))

  -- `update_user`
  unfoldable pub update_user : ℕ → Caller → UserUpdate → Roster → Reply
  unfolding may_write update_found
  update_user id c f db =
      reject (not (may_write (user_permissions db c.current.id))) permission_denied
        (elim (user_by_id db.accounts.users id) [
          | none ↦ refused user_not_found
          | some u ↦ update_found c f db u
        ])

  -- `session.delete(user)`, with what the database takes with it
  abbrev without_user : User → Roster → Roster
  without_user u db = record db {
    accounts = record {
      users = select (λ (v : User). not (v.id == u.id)) db.accounts.users;
      sessions = select (λ (s : AuthSession). not (s.user_id == u.id)) db.accounts.sessions;
      reset_tokens =
          select (λ (r : PasswordResetToken). not (r.user_id == u.id)) db.accounts.reset_tokens;
    };
    user_groups = select (λ (m : UserGroup). not (m.user_id == u.id)) db.user_groups;
  }

  unfoldable pub delete_found : Caller → Roster → User → Reply
  unfolding reject_lockout
  delete_found c db u = reject (c.current.id == u.id) self_forbidden (
      reject (beyond (user_authority ids db c.current.id) (user_authority ids db u.id)) beyond_reach
        (reject_lockout (
          without_user u (
            logged (entry c "user.delete" "user" (ids.print_id u.id) (("email", some u.email) ∷ []))
              db))))

  -- `delete_user`
  unfoldable pub delete_user : ℕ → Caller → Roster → Reply
  unfolding may_write delete_found
  delete_user id c db =
      reject (not (may_write (user_permissions db c.current.id))) permission_denied
        (elim (user_by_id db.accounts.users id) [
          | none ↦ refused user_not_found
          | some u ↦ delete_found c db u
        ])

  -- What `reset_password` writes, before the log
  abbrev reset_user : Caller → String → User → Roster → Roster
  reset_user c password u db =
      let accounts = set_password hash_password c.now password u db.accounts in
      record db {
        accounts = record accounts { reset_tokens = purge_reset_tokens u.id accounts.reset_tokens };
      }

  unfoldable pub reset_found : Caller → Option String → String → Roster → User → Reply
  reset_found c typed generated db u =
      reject (beyond (user_authority ids db c.current.id) (user_authority ids db u.id)) beyond_reach
        (committed (
          logged
            (entry c "user.reset_password" "user" (ids.print_id u.id) (
              ("email", some u.email)
              ∷ ("generated", some (if is_null typed then "true" else "false"))
              ∷ []))
            (reset_user c (coalesce_to typed generated) u db)))

  -- `reset_password`, on the password that is drawn where none is typed
  unfoldable pub reset_password : ℕ → Caller → Option String → String → Roster → Reply
  unfolding may_write reset_found
  reset_password id c typed generated db =
      reject (not (may_write (user_permissions db c.current.id))) permission_denied
        (elim (user_by_id db.accounts.users id) [
          | none ↦ refused user_not_found
          | some u ↦ reset_found c typed generated db u
        ])
