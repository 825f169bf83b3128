-- ===== src/Roles/Order.antt =====
-- The order of roles against what they permit, for `higher_role` and `permissions_for` of
-- console/backend/tbconsole/security/rbac.py.
use turkey_bite.Prelude.{
  ℕ, ◌≤◌, ◌<◌, ◌≡◌, refl, ◌⊎◌, inl, inr, ◌↔◌, true, false, ◌||◌, Option, none, some, List, [], ◌∷◌,
  arith, Bool-cases, leb, leb→le, leb-eq-false, all, and-eq-true, or-eq-true, ◌==◌, nat_eq, list_eq,
  list_beq_iff, elem, elem-keep, keep-elem,
}
use turkey_bite.Text.{Text}
use turkey_bite.Roles.{
  viewer, analyst, admin, viewer_permissions, analyst_permissions, every_permission,
  role_permissions, permissions_for, rank, higher_role,
}

-- Which of the four kinds of role it is, with its rank and its permissions.
data RoleKind (role : Text) : Type 0 where
  no_role : rank role ≡ 0 → role_permissions role ≡ [] → RoleKind role
  is_viewer : rank role ≡ 1 → role_permissions role ≡ viewer_permissions → RoleKind role
  is_analyst : rank role ≡ 2 → role_permissions role ≡ analyst_permissions → RoleKind role
  is_admin : rank role ≡ 3 → role_permissions role ≡ every_permission → RoleKind role

role_kind : (role : Text) → RoleKind role
unfolding rank role_permissions
role_kind role = elim (Bool-cases (role == viewer)) [
  | inl v ↦ is_viewer (rw v) (rw v)
  | inr nv ↦ elim (Bool-cases (role == analyst)) [
    | inl a ↦ is_analyst (rw (nv, a)) (rw (nv, a))
    | inr na ↦ elim (Bool-cases (role == admin)) [
      | inl d ↦ is_admin (rw (nv, na, d)) (rw (nv, na, d))
      | inr nd ↦ no_role (rw (nv, na, nd)) (rw (nv, na, nd))
    ]
  ]
]

-- Every member of the first list is in the second.
within :
    (p : Text) (xs ys : List Text)
    → all (λ x. elem x ys) xs ≡ true
    → elem p xs ≡ true
    → elem p ys ≡ true
within p [] ys h m = absurd (let z : ⊥ = cc in z)
within p (x ∷ xs) ys h m =
    let (k, l) = and-eq-true (elem x ys) _ h in
    elim (or-eq-true (p == x) (elem p xs) m) [
      | inl e ↦ rw ((list_beq_iff p x).0 e) k
      | inr n ↦ within p xs ys l n
    ]

viewer_analyst : all (λ x. elem x analyst_permissions) viewer_permissions ≡ true
unfolding viewer_permissions analyst_permissions
viewer_analyst = refl

viewer_admin : all (λ x. elem x every_permission) viewer_permissions ≡ true
unfolding viewer_permissions every_permission
viewer_admin = refl

analyst_admin : all (λ x. elem x every_permission) analyst_permissions ≡ true
unfolding analyst_permissions every_permission
analyst_admin = refl

grows :
    (a b : Text) (p : Text)
    → RoleKind a
    → RoleKind b
    → rank a ≤ rank b
    → elem p (role_permissions a) ≡ true
    → elem p (role_permissions b) ≡ true
grows a b p (no_role r e) kb le m = absurd (clash (rw e at m))
  where
    clash : false ≡ true → ⊥
    clash h = cc
grows a b p (is_viewer r e) (no_role r' e') le m = absurd (omega (arith, r, r', le))
grows a b p (is_viewer r e) (is_viewer r' e') le m = rw e' (rw e at m)
grows a b p (is_viewer r e) (is_analyst r' e') le m =
    rw e' (within p viewer_permissions analyst_permissions viewer_analyst (rw e at m))
grows a b p (is_viewer r e) (is_admin r' e') le m =
    rw e' (within p viewer_permissions every_permission viewer_admin (rw e at m))
grows a b p (is_analyst r e) (no_role r' e') le m = absurd (omega (arith, r, r', le))
grows a b p (is_analyst r e) (is_viewer r' e') le m = absurd (omega (arith, r, r', le))
grows a b p (is_analyst r e) (is_analyst r' e') le m = rw e' (rw e at m)
grows a b p (is_analyst r e) (is_admin r' e') le m =
    rw e' (within p analyst_permissions every_permission analyst_admin (rw e at m))
grows a b p (is_admin r e) (no_role r' e') le m = absurd (omega (arith, r, r', le))
grows a b p (is_admin r e) (is_viewer r' e') le m = absurd (omega (arith, r, r', le))
grows a b p (is_admin r e) (is_analyst r' e') le m = absurd (omega (arith, r, r', le))
grows a b p (is_admin r e) (is_admin r' e') le m = rw e' (rw e at m)

-- A caller may do something with scopes exactly when the role may do it and a scope names it.
pub permissions_for-scopes :
    (role : Text) (scopes : List Text) (p : Text)
    → (elem p (permissions_for role (some scopes)) ≡ true)
      ↔ ((elem p (permissions_for role none) ≡ true) × (elem p scopes ≡ true))
unfolding permissions_for
permissions_for-scopes role scopes p = (
  (λ h. let (k, m) = elem-keep (λ q. elem q scopes) p (role_permissions role) h in (m, k)),
  (λ (m, k). keep-elem (λ q. elem q scopes) p (role_permissions role) k m),
)

may_more :
    (a b : Text) (scopes : Option (List Text)) (p : Text)
    → rank a ≤ rank b
    → elem p (permissions_for a scopes) ≡ true
    → elem p (permissions_for b scopes) ≡ true
unfolding permissions_for
may_more a b none p le m = grows a b p (role_kind a) (role_kind b) le m
may_more a b (some scopes) p le m =
    let (own, scoped) = (permissions_for-scopes a scopes p).0 m in
    (permissions_for-scopes b scopes p).1 (grows a b p (role_kind a) (role_kind b) le own, scoped)

-- Of two roles, `higher_role` answers one of them that may do, with whatever scopes or none, all that
-- each of the two may do with the same scopes or none.
pub higher_role-permissions_for :
    (a b : Text)
    → (c : Text) × (higher_role (some a) (some b) ≡ some c)
      × ((c ≡ a) ⊎ (c ≡ b))
      × ((scopes : Option (List Text)) (p : Text)
          → (elem p (permissions_for a scopes) || elem p (permissions_for b scopes)) ≡ true
          → elem p (permissions_for c scopes) ≡ true)
unfolding higher_role
higher_role-permissions_for a b = elim (Bool-cases (leb (rank b) (rank a))) [
  | inl le ↦ (
    a,
    rw le,
    inl refl,
    λ scopes p h. elim (or-eq-true _ _ h) [
      | inl m ↦ m
      | inr m ↦ may_more b a scopes p (leb→le _ _ le) m
    ],
  )
  | inr gt ↦ (
    b,
    rw gt,
    inr refl,
    λ scopes p h. elim (or-eq-true _ _ h) [
      | inl m ↦ may_more a b scopes p (below (leb-eq-false _ _ gt)) m
      | inr m ↦ m
    ],
  )
]
  where
    below : {x y : ℕ} → x < y → x ≤ y
    below h = omega (arith, h)
