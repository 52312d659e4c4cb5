-- ===== src/Permissions/Scope.antt =====
-- OAuth scopes of the form `<table>:<action>` (src/permissions/scope-permission.util.ts).
use nocodb_middleware.Prelude.{
  Bool, false, ◌||◌, Option, none, some, List, [], ◌∷◌, ◌++◌, Text, codes, any,
}
use nocodb_middleware.Js.{Value, text}
use nocodb_middleware.Types.{CrudAction, action_text}
use nocodb_middleware.Permissions.Service.{same_key}

-- `scope.includes(t)`
unfoldable pub includes : Text → List Value → Bool
includes t scope = any (same_key (text t)) scope

-- A scope that is no array grants nothing; `none` stands for it.
unfoldable pub has_scope_permission : Option (List Value) → Text → CrudAction → Bool
has_scope_permission none table action = false
has_scope_permission (some []) table action = false
has_scope_permission (some (v ∷ vs)) table action =
    includes (table ++ (b':' ∷ action_text action)) (v ∷ vs)
    || includes (table ++ codes ":*") (v ∷ vs)
    || includes (codes "*:" ++ action_text action) (v ∷ vs)
    || includes (codes "*:*") (v ∷ vs)
