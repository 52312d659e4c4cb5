-- ===== src/Permissions/Service/Granting.antt =====
-- The loop over the permission records (src/permissions/permissions.service.ts).
use mathlib.Core.Path.{ap₂}
use nocodb_middleware.Prelude.{
  ◌≡◌, ◌≢◌, refl, sym, ap, ◌∙◌, inl, inr, ◌↔◌, Bool, true, false, ◌&&◌, ◌||◌, some, List, [], ◌∷◌,
  Text, codes, same_iff, same_refl, any, Bool-cases, Any, any_iff, arith,
}
use nocodb_middleware.Js.{
  Num, Value, undefined, null, bool, num, text, structured, same_num, same_num_iff, truthy,
  to_number,
}
use nocodb_middleware.Types.{
  NocoRecord, get, CrudAction, create, read, update, delete, Actions, no_actions, has_action,
  UserPermissions,
}
use nocodb_middleware.Outside.{Outside}
use nocodb_middleware.Permissions.Service.{
  PermissionsMap, actions_of, add_actions, add_permission, same_key, permits, grant, grants_from,
  allows,
}

-- The checkbox of an action.
unfoldable pub flag : CrudAction → Text
flag create = codes "can_create"
flag read = codes "can_read"
flag update = codes "can_update"
flag delete = codes "can_delete"

has_action-add_actions :
    (action : CrudAction) (perm : NocoRecord) (a : Actions)
    → has_action action (add_actions perm a)
      ≡ (truthy (get (flag action) perm) || has_action action a)
unfolding has_action add_actions flag
has_action-add_actions create perm a = refl
has_action-add_actions read perm a = refl
has_action-add_actions update perm a = refl
has_action-add_actions delete perm a = refl

has_action-no_actions : (action : CrudAction) → has_action action no_actions ≡ false
unfolding has_action
has_action-no_actions create = refl
has_action-no_actions read = refl
has_action-no_actions update = refl
has_action-no_actions delete = refl

same_key_sound : (a b : Value) → same_key a b ≡ true → a ≡ b
unfolding same_key
same_key_sound undefined b h = ground arith
same_key_sound null b h = ground arith
same_key_sound (bool true) b h = ground arith
same_key_sound (bool false) b h = ground arith
same_key_sound (num m) (num n) h = ap num ((same_num_iff m n).0 h)
same_key_sound (num m) _ h = cc
same_key_sound (text s) (text t) h = ap text ((same_iff s t).0 h)
same_key_sound (text s) _ h = cc
same_key_sound (structured s) b h = cc

same_key-text : (t : Text) → same_key (text t) (text t) ≡ true
unfolding same_key
same_key-text t = same_refl t

-- A key that equals neither of two equal keys.
other_key :
    (t : Text) (key k : Value)
    → same_key key k ≡ false
    → same_key (text t) k ≡ true
    → same_key (text t) key ≡ false
other_key t key k ne here = elim (Bool-cases (same_key (text t) key)) [
  | inr no_match ↦ no_match
  | inl both ↦
      let e : same_key key k ≡ same_key (text t) (text t) =
        ap₂ same_key (sym (same_key_sound (text t) key both))
          (sym (same_key_sound (text t) k here)) in
      absurd (ground (arith, e, same_key-text t))
]

granted-add_actions :
    (action : CrudAction) (perm : NocoRecord) (a : Actions)
    → permits action (some (add_actions perm a))
      ≡ (truthy (get (flag action) perm) || permits action (some a))
unfolding permits
granted-add_actions = has_action-add_actions

-- What is granted after a record was added: what was, and the flag if the record is for the table.
granted-add_permission :
    (action : CrudAction) (t : Text) (key : Value) (perm : NocoRecord) (m : PermissionsMap)
    → permits action (actions_of (text t) (add_permission key perm m)) ≡ (
        (same_key (text t) key && truthy (get (flag action) perm))
        || permits action (actions_of (text t) m))
unfolding permits actions_of add_permission
granted-add_permission action t key perm [] =
    ground (arith, has_action-add_actions action perm no_actions, has_action-no_actions action)
granted-add_permission action t key perm ((k, a) ∷ m) = elim (Bool-cases (same_key key k)) [
  | inl equal ↦
      rw (equal, same_key_sound key k equal) (ground (arith, has_action-add_actions action perm a))
  | inr ne ↦ elim (Bool-cases (same_key (text t) k)) [
    | inl here ↦ rw ne (rw (here, other_key t key k ne here))
    | inr there ↦ rw ne (rw there (granted-add_permission action t key perm m))
  ]
]

truthy_text-ne_nil : (t : Text) → truthy (text t) ≡ true → t ≢ []
unfolding truthy
truthy_text-ne_nil [] h = cc
truthy_text-ne_nil (c ∷ t) h = cc

truthy-text : (t : Text) → t ≢ [] → truthy (text t) ≡ true
unfolding truthy
truthy-text [] h = absurd (h refl)
truthy-text (c ∷ t) h = refl

module _ (out : Outside) (existing : List Num) (table : Text) (action : CrudAction) where
  number_of : NocoRecord → Num
  number_of perm = to_number out.parse_number (get (codes "role_id") perm)

  -- The record grants the action on the table to one of the existing roles.
  pub record Grants (perm : NocoRecord) : Type 0 where
    pub names_table : get (codes "table_name") perm ≡ text table
    pub is_named : table ≢ []
    pub role_exists :
        any (same_num (to_number out.parse_number (get (codes "role_id") perm))) existing ≡ true
    pub is_ticked : truthy (get (flag action) perm) ≡ true

  grants_test : NocoRecord → Bool
  unfolding number_of
  grants_test perm =
      truthy (get (codes "table_name") perm)
      && any (same_num (number_of perm)) existing
      && same_key (text table) (get (codes "table_name") perm)
      && truthy (get (flag action) perm)

  tested : (perm : NocoRecord) → grants_test perm ≡ true → Grants perm
  unfolding grants_test number_of
  tested perm h =
      let names : get (codes "table_name") perm ≡ text table =
        sym (same_key_sound (text table) (get (codes "table_name") perm) (ground arith)) in
      let is_true : truthy (get (codes "table_name") perm) ≡ true = ground arith in
      record {
        names_table = names;
        is_named = truthy_text-ne_nil table (sym (ap truthy names) ∙ is_true);
        role_exists = ground arith;
        is_ticked = ground arith;
      }

  passes : (perm : NocoRecord) → Grants perm → grants_test perm ≡ true
  unfolding grants_test number_of
  passes perm g =
      let named : same_key (text table) (get (codes "table_name") perm) ≡ true =
        rw g.names_table (same_key-text table) in
      let is_true : truthy (get (codes "table_name") perm) ≡ true =
        rw g.names_table (truthy-text table g.is_named) in
      ground (arith, g.role_exists, g.is_ticked)

  grants_test_iff : (perm : NocoRecord) → (grants_test perm ≡ true) ↔ Grants perm
  grants_test_iff perm = (tested perm, passes perm)

  granted-grant :
      (perm : NocoRecord) (m : PermissionsMap)
      → permits action (actions_of (text table) (grant out existing perm m))
        ≡ (grants_test perm || permits action (actions_of (text table) m))
  unfolding grant grants_test
  granted-grant perm m =
      ground (arith, granted-add_permission action table (get (codes "table_name") perm) perm m)

  granted-grants_from :
      (perms : List NocoRecord) (m : PermissionsMap)
      → permits action (actions_of (text table) (grants_from out existing m perms))
        ≡ (any grants_test perms || permits action (actions_of (text table) m))
  unfolding grants_from
  granted-grants_from [] m = refl
  granted-grants_from (perm ∷ perms) m =
      ground (arith, granted-grants_from perms (grant out existing perm m), granted-grant perm m)

  granted_iff :
      (perms : List NocoRecord)
      → (permits action (actions_of (text table) (grants_from out existing [] perms)) ≡ true)
        ↔ Any Grants perms
  unfolding permits actions_of
  granted_iff perms =
      let (to, from) = any_iff grants_test Grants perms grants_test_iff in
      ground (arith, granted-grants_from perms [])

-- The permissions computed from a list of records allow an action on a table exactly when some
-- record of the list names the table, belongs to an existing role and has the action ticked.
pub allows_iff :
    (out : Outside) (existing : List Num) (perms : List NocoRecord) (table : Text)
    (action : CrudAction) (v : UserPermissions)
    → v.permissions ≡ grants_from out existing [] perms
    → (allows out v table action ≡ true) ↔ Any (Grants out existing table action) perms
unfolding allows
allows_iff out existing perms table action v e = rw e (granted_iff out existing table action perms)
