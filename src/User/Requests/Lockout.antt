-- ===== src/User/Requests/Lockout.antt =====
-- Somebody can manage the accounts after every edit.
use natimai_tiai.Prelude.{
  ℕ, ◌≡◌, refl, sym, ◌∙◌, ap, ap₂, subst, Bool, true, false, not, ◌&&◌, ◌||◌, inl, inr, Option,
  some, String, List, [], ◌∷◌, ◌++◌, map, any, select, string_eq, nat_eq, ◌==◌, ==_refl, ==_sound,
  some_injective, coalesce_to, if◌then◌else◌, arith, Bool-cases, and_true, or_true, any-front,
  any-implied, any-same,
}
use natimai_tiai.Audit.{AuditEntry}
use natimai_tiai.User.Scope.{Places}
use natimai_tiai.User.Permissions.{has_permission}
use natimai_tiai.User.Accounts.{User, Accounts, user_by_id, put_user, set_password, with_password}
use natimai_tiai.User.Groups.{
  Ids, Roster, Group, GroupPermission, UserGroup, admin_in, is_admin_group, set_user_groups,
  set_group_permissions, group_by_id, user_permissions,
}
use natimai_tiai.Answers.{committed, Commits, guarded, found-Commits}
use natimai_tiai.User.Edits.{
  reject_lockout, Caller, Words, user_write, create_user, update_user, delete_user, reset_password,
  update_found, delete_found, reset_found, UserCreate,
}
use natimai_tiai.User.GroupEdits.{
  create_group, update_group, delete_group, update_group_found, delete_group_found, GroupCreate,
}
use natimai_tiai.User.Requests.{
  Request, creates_user, updates_user, deletes_user, resets_password, creates_group, updates_group,
  deletes_group, handle,
}
use natimai_tiai.User.Requests.Tables.{admin_in-append}
use natimai_tiai.User.Requests.Aspects.{may, has-user}
use natimai_tiai.User.Requests.Managers.{
  manages, managed, manages-may, granted-may, counted-managed,
}

-- Rows added under a new key take nothing away.
kept_under {ℓ} :
    {R : Type ℓ} (key : R → ℕ) (id : ℕ) (f : R → Bool) (rows new : List R)
    → any (λ r. key r == id) rows ≡ false
    → any f rows ≡ true
    → any f (select (λ r. not (key r == id)) rows ++ new) ≡ true
kept_under key id f [] new none_ h = cc
kept_under key id f (r ∷ rows) new none_ h = ground (arith, none_, h, kept_under key id f rows new)

user_by_id-id :
    (users : List User) (id : ℕ) (u : User) → user_by_id users id ≡ some u → (u.id == id) ≡ true
unfolding user_by_id
user_by_id-id [] id u found = cc
user_by_id-id (v ∷ users) id u found = elim (Bool-cases (v.id == id)) [
  | inl here ↦
      subst (λ (k : User). (k.id == id) ≡ true)
        (some_injective v u
          (sym (ap (λ b. if b then some v else user_by_id users id) here) ∙ found))
        here
  | inr later ↦
      user_by_id-id users id u
        (sym (ap (λ b. if b then some v else user_by_id users id) later) ∙ found)
]

any-put_user :
    (f : User → Bool) (users : List User) (id : ℕ) (u u' : User)
    → user_by_id users id ≡ some u
    → u'.id ≡ u.id
    → f u' ≡ f u
    → any f (put_user u' users) ≡ any f users
unfolding user_by_id put_user
any-put_user f [] id u u' found e k = refl
any-put_user f (v ∷ users) id u u' found e k = elim (Bool-cases (v.id == id)) [
  | inl here ↦
      let same =
        some_injective v u
          (sym (ap (λ b. if b then some v else user_by_id users id) here) ∙ found) in
      rw (ap (λ (w : User). w.id == u'.id) same ∙ ap (λ i. u.id == i) e ∙ ==_refl u.id)
        (ap (λ b. b || any f users) (k ∙ ap f (sym same)))
  | inr later ↦
      let found' = sym (ap (λ b. if b then some v else user_by_id users id) later) ∙ found in
      rw (ap (λ i. v.id == i) (e ∙ ==_sound u.id id (user_by_id-id users id u found')) ∙ later)
        (ap (λ b. f v || b) (any-put_user f users id u u' found' e k))
]

-- The identifier of a new account, or of a new group, is in no row yet.
abbrev pub fresh : Request → Roster → Bool
fresh (creates_user id payload) db = not (any (λ (m : UserGroup). m.user_id == id) db.user_groups)
fresh (creates_group id payload) db =
    not (any (λ (r : GroupPermission). r.group_id == id) db.group_permissions)
fresh r db = true

-- A group that the tables let write accounts
abbrev writes : List Group → List GroupPermission → ℕ → Bool
writes groups rows i =
    admin_in groups i
    || any (λ (r : GroupPermission). r.group_id == i && user_write == r.permission) rows

module _ (ids : Ids) (p : Places) (db : Roster) where
  manages-writes :
      (u : User)
      → manages db u ≡ (
          u.is_active
          && any
              (λ (m : UserGroup).
                m.user_id == u.id && writes db.groups db.group_permissions m.group_id)
              db.user_groups)
  manages-writes u =
      manages-may ids p db u
      ∙ ap (λ b. u.is_active && b)
          (has-user ids p db (may user_write) u.id
            ∙ any-same _ _ db.user_groups (λ m.
              ap (λ b. m.user_id == u.id && b) (sym (granted-may db user_write m.group_id))))

module _ (ids : Ids) (p : Places) (words : Words)
    (normalize_email lower hash_password strip : String → String) (c : Caller) (db : Roster) where
  abbrev Managed : Roster → Type 0
  Managed db' = managed db' ≡ true

  -- Rows that give more leave every manager.
  more-Managed :
      (db' : Roster)
      → ((v : ℕ)
          → any
              (λ (m : UserGroup).
                m.user_id == v && writes db.groups db.group_permissions m.group_id)
              db.user_groups
            ≡ true
          → any
              (λ (m : UserGroup).
                m.user_id == v && writes db'.groups db'.group_permissions m.group_id)
              db'.user_groups
            ≡ true)
      → managed db ≡ true
      → any (manages db') db.accounts.users ≡ true
  more-Managed db' more h =
      any-implied (manages db) (manages db')
        (λ u e.
          let (active, rights) = and_true u.is_active _ (sym (manages-writes ids p db u) ∙ e) in
          manages-writes ids p db' u ∙ ap₂ ◌&&◌ active (more u.id rights))
        db.accounts.users h

  guarded-Managed : (db' : Roster) → Commits Managed (reject_lockout db')
  unfolding reject_lockout
  guarded-Managed db' = guarded Managed _ _ _ (counted-managed ids p db')

  create_user-Managed :
      (id : ℕ) (payload : UserCreate)
      → any (λ (m : UserGroup). m.user_id == id) db.user_groups ≡ false
      → managed db ≡ true
      → Commits Managed (create_user ids words normalize_email lower hash_password id c payload db)
  unfolding create_user set_user_groups
  create_user-Managed id payload none_ h = guarded Managed _ _ _ λ _. guarded Managed _ _ _ λ _.
      guarded Managed _ _ _ λ _. guarded Managed _ _ _ λ _. any-front _ db.accounts.users _ (
        more-Managed _
          (λ v e. kept_under (λ (m : UserGroup). m.user_id) id _ db.user_groups _ none_ e) h)

  wider-writes :
      (g : Group) (id i : ℕ) (permissions : List String)
      → is_admin_group g ≡ false
      → any (λ (r : GroupPermission). r.group_id == id) db.group_permissions ≡ false
      → writes db.groups db.group_permissions i ≡ true
      → writes (db.groups ++ g ∷ []) (set_group_permissions id permissions db.group_permissions) i
        ≡ true
  unfolding set_group_permissions
  wider-writes g id i permissions plain none_ e = elim (or_true (admin_in db.groups i) _ e) [
    | inl admin ↦ rw (admin_in-append db.groups g i plain ∙ admin) refl
    | inr held ↦ ground (
      arith,
      kept_under (λ (r : GroupPermission). r.group_id) id
          (λ (r : GroupPermission). r.group_id == i && user_write == r.permission)
          db.group_permissions
          (map (λ permission. record { group_id = id; permission = permission }) permissions) none_
          held,
    )
  ]

  create_group-Managed :
      (id : ℕ) (payload : GroupCreate)
      → any (λ (r : GroupPermission). r.group_id == id) db.group_permissions ≡ false
      → managed db ≡ true
      → Commits Managed (create_group ids words strip p id c payload db)
  unfolding create_group
  create_group-Managed id payload none_ h = guarded Managed _ _ _ λ _. guarded Managed _ _ _ λ _.
      guarded Managed _ _ _ λ _. guarded Managed _ _ _ λ _. guarded Managed _ _ _ λ _.
        more-Managed _
          (λ v e.
            any-implied _ _
              (λ m k.
                let (his, old) = and_true (m.user_id == v) _ k in
                ap₂ ◌&&◌ his (wider-writes _ id m.group_id payload.permissions refl none_ old))
              db.user_groups e)
          h

  replaced-Managed :
      (accounts : Accounts) (log : List AuditEntry) (id : ℕ) (u u' : User)
      → accounts.users ≡ put_user u' db.accounts.users
      → user_by_id db.accounts.users id ≡ some u
      → u'.id ≡ u.id
      → u'.is_active ≡ u.is_active
      → managed db ≡ true
      → Managed (record db { accounts = accounts; audit_log = log })
  replaced-Managed accounts log id u u' users found same active h =
      let db' = record db { accounts = accounts; audit_log = log } in
      let alike : manages db' u' ≡ manages db' u =
        ap₂ (λ a i. a && has_permission (user_permissions db' i) "user" "write") active same in
      ap (any (manages db')) users
      ∙ (any-put_user (manages db') db.accounts.users id u u' found same alike
          ∙ more-Managed db' (λ v e. e) h)

  reset_password-Managed :
      (id : ℕ) (typed : Option String) (generated : String)
      → managed db ≡ true
      → Commits Managed
          (reset_password ids words normalize_email lower hash_password id c typed generated db)
  unfolding reset_password set_password with_password
  reset_password-Managed id typed generated h = guarded Managed _ _ _ λ _.
      found-Commits Managed _
        (reset_found ids words normalize_email lower hash_password c typed generated db)
        (user_by_id db.accounts.users id)
        λ u found. guarded Managed _ _ _ λ _.
          replaced-Managed _ _ id u
            (with_password hash_password c.now (coalesce_to typed generated) u) refl found refl refl
            h

  handle-Managed :
      (r : Request)
      → fresh r db ≡ true
      → managed db ≡ true
      → Commits Managed (handle ids words normalize_email lower hash_password strip p r c db)
  unfolding handle update_user delete_user update_group delete_group
  handle-Managed (creates_user id payload) n h =
      create_user-Managed id payload (ground (arith, n)) h
  handle-Managed (updates_user id f) n h = guarded Managed _ _ _ λ _.
      found-Commits Managed _ (update_found ids words normalize_email lower hash_password c f db)
        (user_by_id db.accounts.users id)
        λ u _. guarded Managed _ _ _ λ _. guarded Managed _ _ _ λ _. guarded Managed _ _ _ λ _.
          guarded Managed _ _ _
            λ _. guarded Managed _ _ _ λ _. guarded Managed _ _ _ λ _. guarded-Managed _
  handle-Managed (deletes_user id) n h = guarded Managed _ _ _ λ _.
      found-Commits Managed _ (delete_found ids words normalize_email lower hash_password c db)
        (user_by_id db.accounts.users id)
        λ u _. guarded Managed _ _ _ λ _. guarded Managed _ _ _ λ _. guarded-Managed _
  handle-Managed (resets_password id typed generated) n h =
      reset_password-Managed id typed generated h
  handle-Managed (creates_group id payload) n h =
      create_group-Managed id payload (ground (arith, n)) h
  handle-Managed (updates_group id f) n h = guarded Managed _ _ _ λ _.
      found-Commits Managed _ (update_group_found ids words strip p c f db)
        (group_by_id db.groups id)
        λ g _. guarded Managed _ _ _ λ _. guarded Managed _ _ _ λ _. guarded Managed _ _ _ λ _.
          guarded Managed _ _ _ λ _.
            guarded Managed _ _ _
              λ _. guarded Managed _ _ _ λ _. guarded Managed _ _ _ λ _. guarded-Managed _
  handle-Managed (deletes_group id) n h = guarded Managed _ _ _ λ _.
      found-Commits Managed _ (delete_group_found ids words strip p c db) (group_by_id db.groups id)
        λ g _. guarded Managed _ _ _ λ _. guarded Managed _ _ _ λ _. guarded-Managed _

-- Where some active account holds the permission to write accounts, some active account holds it
-- after every committed request on accounts and groups, whose new identifier no row bears.
pub someone_manages :
    (ids : Ids) (words : Words) (normalize_email lower hash_password strip : String → String)
    (p : Places) (c : Caller) (db db' : Roster) (r : Request)
    → fresh r db ≡ true
    → managed db ≡ true
    → handle ids words normalize_email lower hash_password strip p r c db ≡ committed db'
    → managed db' ≡ true
someone_manages ids words normalize_email lower hash_password strip p c db db' r new h done =
    subst (Commits (λ t. managed t ≡ true)) done
      (handle-Managed ids p words normalize_email lower hash_password strip c db r new h)
