-- ===== src/Roles/Tests.antt =====
-- The theorems on roles at concrete roles.
use turkey_bite.Prelude.{◌≡◌, ◌⊎◌, true, ◌||◌, Option, List, some, nat_eq, list_eq, elem}
use turkey_bite.Text.{Text}
use turkey_bite.Roles.{viewer, analyst, permissions_for, higher_role}
use turkey_bite.Roles.Order.{higher_role-permissions_for}

higher_role-permissions_for_example :
    (c : Text) × (higher_role (some viewer) (some analyst) ≡ some c)
    × ((c ≡ viewer) ⊎ (c ≡ analyst))
    × ((scopes : Option (List Text)) (p : Text)
        → (elem p (permissions_for viewer scopes) || elem p (permissions_for analyst scopes)) ≡ true
        → elem p (permissions_for c scopes) ≡ true)
higher_role-permissions_for_example = higher_role-permissions_for viewer analyst
