-- ===== src/User/Requests/NoGain.antt =====
-- Nobody gains by an edit what its author does not have.
use natimai_tiai.Prelude.{ℕ, ◌≡◌, refl, subst, Bool, true, false, not, ◌||◌, some, String}
use natimai_tiai.User.Scope.{Places}
use natimai_tiai.User.Groups.{Ids, Roster, is_admin, user_authority}
use natimai_tiai.Answers.{committed, Commits}
use natimai_tiai.User.Edits.{Caller, Words}
use natimai_tiai.User.Requests.{
  Request, creates_user, updates_user, deletes_user, resets_password, creates_group, updates_group,
  deletes_group, handle,
}
use natimai_tiai.User.Requests.Aspects.{Aspect, has}
use natimai_tiai.User.Requests.Gains.{
  Bounded, create_user-Bounded, update_user-Bounded, delete_user-Bounded, reset_password-Bounded,
}
use natimai_tiai.User.Requests.GroupGains.{
  create_group-Bounded, update_group-Bounded, delete_group-Bounded,
}

module _ (ids : Ids) (words : Words) (normalize_email lower hash_password strip : String → String)
    (p : Places) (ids_read : (i : ℕ) → ids.parse_id (ids.print_id i) ≡ some i) where
  handle-Bounded :
      (x : Aspect) (c : Caller) (db : Roster) (r : Request)
      (plain : is_admin db c.current.id ≡ false)
      → Commits
          (Bounded ids p x c db plain)
          (handle ids words normalize_email lower hash_password strip p r c db)
  unfolding handle
  handle-Bounded x c db (creates_user id payload) plain =
      create_user-Bounded ids p x c db plain words normalize_email lower hash_password id payload
  handle-Bounded x c db (updates_user id f) plain =
      update_user-Bounded ids p x c db plain words normalize_email lower hash_password id f
  handle-Bounded x c db (deletes_user id) plain =
      delete_user-Bounded ids p x c db plain words normalize_email lower hash_password id
  handle-Bounded x c db (resets_password id typed generated) plain =
      reset_password-Bounded ids p x c db plain words normalize_email lower hash_password id typed
        generated
  handle-Bounded x c db (creates_group id payload) plain =
      create_group-Bounded ids ids_read p x c db plain words strip id payload
  handle-Bounded x c db (updates_group id f) plain =
      update_group-Bounded ids ids_read p x c db plain words strip id f
  handle-Bounded x c db (deletes_group id) plain =
      delete_group-Bounded ids ids_read p x c db plain words strip id

implied : (a b : Bool) → (a ≡ true → b ≡ true) → (not a || b) ≡ true
implied true b f = f refl
implied false b f = refl

-- Where the texts of identifiers are read back: whatever a caller who is no administrator has
-- committed on accounts and groups, every account is afterwards an administrator, holds a permission
-- or sees a poste only if it did before or the caller did.
pub no_gain :
    (ids : Ids) (words : Words) (normalize_email lower hash_password strip : String → String)
    (p : Places) (c : Caller) (db db' : Roster) (r : Request)
    → ((i : ℕ) → ids.parse_id (ids.print_id i) ≡ some i)
    → is_admin db c.current.id ≡ false
    → handle ids words normalize_email lower hash_password strip p r c db ≡ committed db'
    → (x : Aspect) (v : ℕ)
    → (not (has p x (user_authority ids db' v))
        || (has p x (user_authority ids db v) || has p x (user_authority ids db c.current.id)))
      ≡ true
no_gain ids words normalize_email lower hash_password strip p c db db' r ids_read plain done x v =
    implied _ _ (
      subst (Commits (Bounded ids p x c db plain)) done
        (handle-Bounded ids words normalize_email lower hash_password strip p ids_read x c db r
          plain)
        v)
