-- ===== src/Auth/Users/Lookups.antt =====
-- Tables and records that the account services look up
-- (src/auth/user-provisioning.service.ts, src/auth/bootstrap-admin.service.ts).
use nocodb_middleware.Prelude.{◌≡◌, Bool, true, Option, none, some, [], ◌∷◌, Text, arith}
use nocodb_middleware.Result.{conflict}
use nocodb_middleware.Effects.{lift}
use nocodb_middleware.Effects.Keeps.{Keeps, >>=-Keeps}
use nocodb_middleware.Effects.Never.{Never, >>=-Never}
use nocodb_middleware.Filter.{FilterValue, filter_eq, and_filters}
use nocodb_middleware.Types.{NocoRecord, NocoTableMeta}
use nocodb_middleware.Outside.{Outside, App, Method}
use nocodb_middleware.Nocodb.Meta.{get_table_by_name}
use nocodb_middleware.Nocodb.Reading.{KeptBy, Holds, get_table_by_name-Keeps, find_one-Keeps}
use nocodb_middleware.Nocodb.Conflicts.{
  lift-Never, filter_eq-Clean, and_filters-Clean, get_table_by_name-Never, find_one-Never,
}
use nocodb_middleware.Permissions.Management.{extract_numeric_id}
use nocodb_middleware.Permissions.Management.Ids.{extract_numeric_id-Clean}
use nocodb_middleware.Auth.Users.{
  Crypto, assert_table_ref, required_table, id_of, find_by, find_by_both, hash_password,
}

pub id_of-Never : (out : Outside) (r : NocoRecord) → Never conflict (id_of out r)
unfolding id_of
id_of-Never out r =
    lift-Never (extract_numeric_id out.parse_number r) (extract_numeric_id-Clean out.parse_number r)

pub id_of-Keeps :
    (out : Outside) (I : App out.World → Type 0) (r : NocoRecord) → Keeps I (id_of out r)
unfolding id_of
id_of-Keeps out I r s h = h

module _ (out : Outside) where
  open out use {World}

  assert_table_ref-Never : (t : Option NocoTableMeta) → Never conflict (assert_table_ref out t)
  unfolding assert_table_ref
  assert_table_ref-Never none s h = ground arith
  assert_table_ref-Never (some t) s h = ground arith

  pub required_table-Never : (name : Text) → Never conflict (required_table out name)
  unfolding required_table
  required_table-Never name =
      >>=-Never conflict (get_table_by_name out name) (assert_table_ref out)
        (get_table_by_name-Never out name) assert_table_ref-Never

  pub find_by-Never :
      (table_id field : Text) (value : FilterValue)
      → Never conflict (find_by out table_id field value)
  unfolding find_by
  find_by-Never table_id field value =
      >>=-Never conflict (lift (filter_eq field value)) _
        (lift-Never (filter_eq field value) (filter_eq-Clean field value))
        (find_one-Never out table_id)

  pub find_by_both-Never :
      (table_id field : Text) (value : FilterValue) (field' : Text) (value' : FilterValue)
      → Never conflict (find_by_both out table_id field value field' value')
  unfolding find_by_both
  find_by_both-Never table_id field value field' value' =
      >>=-Never conflict (lift (filter_eq field value)) _
        (lift-Never (filter_eq field value) (filter_eq-Clean field value))
        (λ a.
          >>=-Never conflict (lift (filter_eq field' value')) _
            (lift-Never (filter_eq field' value') (filter_eq-Clean field' value'))
            (λ b.
              >>=-Never conflict (lift (and_filters (a ∷ b ∷ []))) _
                (lift-Never (and_filters (a ∷ b ∷ [])) (and_filters-Clean (a ∷ b ∷ [])))
                (find_one-Never out table_id)))

  pub hash_password-Never :
      (crypto : Crypto World) (password : Text) → Never conflict (hash_password out crypto password)
  unfolding hash_password
  hash_password-Never crypto password s h = ground arith

module _ (out : Outside) (allowed : Method → Bool) (P : Outside.World out → Type 0)
    (kept : KeptBy out allowed P) (gets : allowed Method.get ≡ true) where
  open out use {World}

  assert_table_ref-Keeps : (t : Option NocoTableMeta) → Keeps (Holds out P) (assert_table_ref out t)
  unfolding assert_table_ref
  assert_table_ref-Keeps none s h = h
  assert_table_ref-Keeps (some t) s h = h

  pub required_table-Keeps : (name : Text) → Keeps (Holds out P) (required_table out name)
  unfolding required_table
  required_table-Keeps name =
      >>=-Keeps (Holds out P) (get_table_by_name out name) (assert_table_ref out)
        (get_table_by_name-Keeps out allowed P kept gets name) assert_table_ref-Keeps

  pub find_by-Keeps :
      (table_id field : Text) (value : FilterValue)
      → Keeps (Holds out P) (find_by out table_id field value)
  unfolding find_by
  find_by-Keeps table_id field value =
      >>=-Keeps (Holds out P) (lift (filter_eq field value)) _ (λ s h. h)
        (find_one-Keeps out allowed P kept gets table_id)

  pub find_by_both-Keeps :
      (table_id field : Text) (value : FilterValue) (field' : Text) (value' : FilterValue)
      → Keeps (Holds out P) (find_by_both out table_id field value field' value')
  unfolding find_by_both
  find_by_both-Keeps table_id field value field' value' =
      >>=-Keeps (Holds out P) (lift (filter_eq field value)) _ (λ s h. h)
        (λ a.
          >>=-Keeps (Holds out P) (lift (filter_eq field' value')) _ (λ s h. h)
            (λ b.
              >>=-Keeps (Holds out P) (lift (and_filters (a ∷ b ∷ []))) _ (λ s h. h)
                (find_one-Keeps out allowed P kept gets table_id)))
