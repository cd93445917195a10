-- ===== src/User/Requests/Gains.antt =====
-- What the committed edits of accounts give, and to whom.
use natimai_tiai.Prelude.{
  ℕ, ◌≡◌, sym, ◌∙◌, ap, Bool, true, false, not, ◌&&◌, ◌||◌, Option, none, some, String, List, [],
  ◌∷◌, map, any, select, string_eq, nat_eq, ◌==◌, arith, any-append, any-of_select,
}
use natimai_tiai.Audit.{AuditEntry}
use natimai_tiai.User.Scope.{Places}
use natimai_tiai.User.Accounts.{User, Accounts, user_by_id}
use natimai_tiai.User.Groups.{
  Ids, Roster, UserGroup, is_admin, granted, scope_of, set_user_groups, user_authority,
  groups_authority,
}
use natimai_tiai.Answers.{Commits, guarded, found-Commits}
use natimai_tiai.User.Edits.{
  Caller, Words, UserCreate, UserUpdate, beyond, create_user, update_user, delete_user,
  reset_password, update_found, delete_found, reset_found, sent,
}
use natimai_tiai.User.Requests.Aspects.{
  Aspect, has, group_authority, reached-has, has-groups, has-user,
}

-- Rows of `user_groups` that give an account something
abbrev pub gives : (ℕ → Bool) → ℕ → UserGroup → Bool
gives g v r = r.user_id == v && g r.group_id

new-gives :
    (g : ℕ → Bool) (v id : ℕ) (is : List ℕ)
    → any (gives g v) (map (λ i. record { user_id = id; group_id = i }) is) ≡ true
    → any g is ≡ true
new-gives g v id [] h = h
new-gives g v id (i ∷ is) h = ground (arith, new-gives g v id is)

-- Replaced memberships give what some row gave, or what a new group gives.
set_user_groups-gives :
    (g : ℕ → Bool) (v id : ℕ) (is : List ℕ) (rows : List UserGroup)
    → any (gives g v) (set_user_groups id is rows) ≡ true
    → (any (gives g v) rows || any g is) ≡ true
unfolding set_user_groups
set_user_groups-gives g v id is rows h = ground (
  arith,
  any-append (gives g v) (select (λ (m : UserGroup). not (m.user_id == id)) rows)
      (map (λ i. record { user_id = id; group_id = i }) is),
  any-of_select (gives g v) (λ (m : UserGroup). not (m.user_id == id)) rows,
  new-gives g v id is,
)

module _ (ids : Ids) (p : Places) (x : Aspect) (c : Caller) (db : Roster)
    (plain : is_admin db c.current.id ≡ false) where
  abbrev pub actor_has : Bool
  actor_has = has p x (user_authority ids db c.current.id)

  -- What the caller may put an account in, it has.
  pub granted-has :
      (is : List ℕ)
      → beyond (user_authority ids db c.current.id) (groups_authority ids db is) ≡ false
      → any (λ i. has p x (group_authority ids db i)) is ≡ true
      → actor_has ≡ true
  unfolding user_authority
  granted-has is e h =
      reached-has p x (user_authority ids db c.current.id) (groups_authority ids db is) plain e
        (has-groups ids p db x is ∙ h)

  -- What is written gives an account what it had, or what the caller has.
  abbrev pub Bounded : Roster → Type 0
  Bounded db' =
      (v : ℕ)
      → has p x (user_authority ids db' v) ≡ true
      → (has p x (user_authority ids db v) || has p x (user_authority ids db c.current.id)) ≡ true

  -- The rows of `user_groups` as they were, fewer, or with groups that the caller may hand out
  abbrev Within : List UserGroup → Type 0
  Within rows =
      (v : ℕ)
      → any (gives (λ i. has p x (group_authority ids db i)) v) rows ≡ true
      → (any (gives (λ i. has p x (group_authority ids db i)) v) db.user_groups || actor_has) ≡ true

  Within-Bounded :
      (accounts : Accounts) (rows : List UserGroup) (log : List AuditEntry)
      → Within rows
      → Bounded (record db { accounts = accounts; user_groups = rows; audit_log = log })
  unfolding granted scope_of
  Within-Bounded accounts rows log w v h =
      ap (λ b. b || actor_has) (has-user ids p db x v)
      ∙ w v (
          sym (
            has-user ids p (record db { accounts = accounts; user_groups = rows; audit_log = log })
              x v)
          ∙ h)

  set_user_groups-Within :
      (id : ℕ) (is : List ℕ)
      → beyond (user_authority ids db c.current.id) (groups_authority ids db is) ≡ false
      → Within (set_user_groups id is db.user_groups)
  set_user_groups-Within id is e v h = ground (
    arith,
    set_user_groups-gives (λ i. has p x (group_authority ids db i)) v id is db.user_groups h,
    granted-has is e,
  )

  module _ (words : Words) (normalize_email lower hash_password : String → String) where
    pub create_user-Bounded :
        (id : ℕ) (payload : UserCreate)
        → Commits Bounded
            (create_user ids words normalize_email lower hash_password id c payload db)
    unfolding create_user
    create_user-Bounded id payload = guarded Bounded _ _ _ λ _. guarded Bounded _ _ _ λ _.
        guarded Bounded _ _ _ λ _.
          guarded Bounded _ _ _
            λ within. Within-Bounded _ _ _ (set_user_groups-Within id payload.group_ids within)

    kept-Within : Within db.user_groups
    kept-Within v h = ground arith

    fewer-Within : (keep : UserGroup → Bool) → Within (select keep db.user_groups)
    fewer-Within keep v h = ground (
      arith,
      any-of_select (gives (λ i. has p x (group_authority ids db i)) v) keep db.user_groups h,
    )

    sent-Within :
        (u : User) (o : Option (List ℕ))
        → sent (λ is. beyond (user_authority ids db c.current.id) (groups_authority ids db is)) o
          ≡ false
        → Within (elim o as (λ _. List UserGroup) [
          | none ↦ db.user_groups
          | some is ↦ set_user_groups u.id is db.user_groups
        ])
    sent-Within u none e = kept-Within
    sent-Within u (some is) e = set_user_groups-Within u.id is e

    pub update_user-Bounded :
        (id : ℕ) (f : UserUpdate)
        → Commits Bounded (update_user ids words normalize_email lower hash_password id c f db)
    unfolding update_user
    update_user-Bounded id f = guarded Bounded _ _ _ λ _.
        found-Commits Bounded _ (update_found ids words normalize_email lower hash_password c f db)
          (user_by_id db.accounts.users id)
          λ u _. guarded Bounded _ _ _ λ _. guarded Bounded _ _ _ λ _. guarded Bounded _ _ _ λ _.
            guarded Bounded _ _ _ λ _. guarded Bounded _ _ _ λ within. guarded Bounded _ _ _ λ _.
              guarded Bounded _ _ _ λ _. Within-Bounded _ _ _ (sent-Within u f.group_ids within)

    pub delete_user-Bounded :
        (id : ℕ)
        → Commits Bounded (delete_user ids words normalize_email lower hash_password id c db)
    unfolding delete_user
    delete_user-Bounded id = guarded Bounded _ _ _ λ _.
        found-Commits Bounded _ (delete_found ids words normalize_email lower hash_password c db)
          (user_by_id db.accounts.users id)
          λ u _. guarded Bounded _ _ _ λ _. guarded Bounded _ _ _ λ _.
            guarded Bounded _ _ _
              λ _. Within-Bounded _ _ _ (fewer-Within (λ (m : UserGroup). not (m.user_id == u.id)))

    pub reset_password-Bounded :
        (id : ℕ) (typed : Option String) (generated : String)
        → Commits Bounded
            (reset_password ids words normalize_email lower hash_password id c typed generated db)
    unfolding reset_password
    reset_password-Bounded id typed generated = guarded Bounded _ _ _ λ _.
        found-Commits Bounded _
          (reset_found ids words normalize_email lower hash_password c typed generated db)
          (user_by_id db.accounts.users id)
          λ u _. guarded Bounded _ _ _ λ _. Within-Bounded _ _ _ kept-Within
