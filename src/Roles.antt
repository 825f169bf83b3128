-- ===== src/Roles.antt =====
-- console/backend/tbconsole/security/rbac.py: roles, their permissions, and the scopes of API keys.
pub mod Order
mod Tests
use turkey_bite.Prelude.{
  ℕ, zero, suc, ◌+◌, Bool, true, false, Option, none, some, List, [], ◌∷◌, ◌++◌, ◌==◌, nat_eq,
  list_eq, elem, keep, leb, if◌then◌else◌,
}
use turkey_bite.Text.{Text, text}

abbrev pub viewer : Text
viewer = text "viewer"

abbrev pub analyst : Text
analyst = text "analyst"

abbrev pub admin : Text
admin = text "admin"

unfoldable pub every_permission : List Text
every_permission =
    text "events:read"
    ∷ text "events:export"
    ∷ text "findings:read"
    ∷ text "findings:write"
    ∷ text "rules:read"
    ∷ text "rules:write"
    ∷ text "dashboards:read"
    ∷ text "dashboards:write"
    ∷ text "webhooks:read"
    ∷ text "webhooks:write"
    ∷ text "apikeys:self"
    ∷ text "users:admin"
    ∷ text "settings:admin"
    ∷ text "audit:read"
    ∷ []

unfoldable pub viewer_permissions : List Text
viewer_permissions =
    text "events:read" ∷ text "findings:read" ∷ text "rules:read" ∷ text "dashboards:read" ∷ []

unfoldable pub analyst_permissions : List Text
unfolding viewer_permissions
analyst_permissions =
    viewer_permissions
    ++ text "events:export"
      ∷ text "findings:write"
      ∷ text "rules:write"
      ∷ text "dashboards:write"
      ∷ text "webhooks:read"
      ∷ text "apikeys:self"
      ∷ []

-- ROLE_PERMISSIONS.get(role, frozenset())
unfoldable pub role_permissions : Text → List Text
unfolding viewer_permissions analyst_permissions every_permission
role_permissions role =
    if role == viewer
    then viewer_permissions
    else if role == analyst
    then analyst_permissions
    else if role == admin
    then every_permission
    else []

unfoldable pub permissions_for : Text → Option (List Text) → List Text
unfolding role_permissions
permissions_for role none = role_permissions role
permissions_for role (some scopes) = keep (λ p. elem p scopes) (role_permissions role)

-- RANK.get(role, -1), counted from 0 for a role that is not there
unfoldable pub rank : Text → ℕ
rank role =
    if role == viewer then 1 else if role == analyst then 2 else if role == admin then 3 else 0

unfoldable pub higher_role : Option Text → Option Text → Option Text
unfolding rank
higher_role none b = b
higher_role (some a) none = some a
higher_role (some a) (some b) = if leb (rank b) (rank a) then some a else some b
