-- ===== src/Access/Ranks.antt =====
-- frontend/src/lib/roles.ts beside the guards of backend/src.
use text.Mathlib.TextEquality.{eq_iff}
use vibe_ocpp.Prelude.{
  ℕ, ◌+◌, ◌≢◌, String, ◌≡◌, refl, Bool, true, false, Option, none, some, List, [], ◌∷◌, All, every,
  every-All, select, Result, ok, err, leb, is_some, ◌==◌, arith, if◌then◌else◌, Option-cases, inl,
  inr,
}
use vibe_ocpp.Users.{Role, super_admin, admin, mitarbeiter}
use vibe_ocpp.Users.Invariant.{rank}
use vibe_ocpp.Auth.Types.{AuthenticatedUser}
use vibe_ocpp.Access.Routes.{Controller, Route, controllers}
use vibe_ocpp.Access.Guard.{required_roles, names_role, can_activate}

-- `ROLE_RANK[userRole] ?? -1`, counted up by one.
abbrev pub user_rank : String → ℕ
user_rank role =
    if role == "Driver"
    then 1
    else if role == "Mitarbeiter"
    then 2
    else if role == "Admin"
    then 3
    else if role == "SuperAdmin"
    then 4
    else 0

unfoldable pub has_at_least_role : String → Role → Bool
has_at_least_role user_role required = leb (rank required + 1) (user_rank user_role)

-- The least role of a list that names all roles above it.
abbrev pub least : List Role → Option Role
least (super_admin ∷ []) = some super_admin
least (super_admin ∷ admin ∷ []) = some admin
least (super_admin ∷ admin ∷ mitarbeiter ∷ []) = some mitarbeiter
least _ = none

abbrev pub required_role : Controller → Route → Option Role
required_role c r = elim (required_roles c r) [ none ↦ none | some roles ↦ least roles ]

abbrev pub granted : Result Bool → Bool
granted (ok b) = b
granted (err e) = false

-- The names of two roles differ.
names_apart :
    (◌≢◌ {A = String} "SuperAdmin" "Admin")
    × (◌≢◌ {A = String} "SuperAdmin" "Mitarbeiter")
    × (◌≢◌ {A = String} "SuperAdmin" "Driver")
    × (◌≢◌ {A = String} "Admin" "Mitarbeiter")
    × (◌≢◌ {A = String} "Admin" "Driver")
    × (◌≢◌ {A = String} "Mitarbeiter" "Driver")
names_apart = (
  (λ e. cc ((eq_iff "SuperAdmin" "Admin").1 e)),
  (λ e. cc ((eq_iff "SuperAdmin" "Mitarbeiter").1 e)),
  (λ e. cc ((eq_iff "SuperAdmin" "Driver").1 e)),
  (λ e. cc ((eq_iff "Admin" "Mitarbeiter").1 e)),
  (λ e. cc ((eq_iff "Admin" "Driver").1 e)),
  (λ e. cc ((eq_iff "Mitarbeiter" "Driver").1 e)),
)

names_from_super_admin :
    (s : String) → names_role (super_admin ∷ []) s ≡ has_at_least_role s super_admin
unfolding has_at_least_role
names_from_super_admin s = ground (arith, names_apart)

names_from_admin :
    (s : String) → names_role (super_admin ∷ admin ∷ []) s ≡ has_at_least_role s admin
unfolding has_at_least_role
names_from_admin s = ground (arith, names_apart)

names_from_mitarbeiter :
    (s : String)
    → names_role (super_admin ∷ admin ∷ mitarbeiter ∷ []) s ≡ has_at_least_role s mitarbeiter
unfolding has_at_least_role
names_from_mitarbeiter s = ground (arith, names_apart)

granted_lem :
    (roles : List Role) (q : Role) (u : AuthenticatedUser)
    → least roles ≡ some q
    → granted (can_activate (some roles) (some u)) ≡ has_at_least_role u.role q
unfolding can_activate
granted_lem (super_admin ∷ []) q u h = ground (arith, names_from_super_admin u.role)
granted_lem (super_admin ∷ admin ∷ []) q u h = ground (arith, names_from_admin u.role)
granted_lem (super_admin ∷ admin ∷ mitarbeiter ∷ []) q u h =
    ground (arith, names_from_mitarbeiter u.role)
granted_lem _ q u h = cc

-- There is a least role that admits, of all users, the same as the guard does.
abbrev pub Agrees : Controller → Route → Type 0
Agrees c r =
    (q : Role) × ((u : AuthenticatedUser)
      → granted (can_activate (required_roles c r) (some u)) ≡ has_at_least_role u.role q)

agrees : (c : Controller) (r : Route) → is_some (required_role c r) ≡ true → Agrees c r
agrees c r h = roles_agree (required_roles c r) h
  where
    roles_agree :
        (o : Option (List Role))
        → is_some (elim o [ none ↦ none | some roles ↦ least roles ]) ≡ true
        → (q : Role) × ((u : AuthenticatedUser)
            → granted (can_activate o (some u)) ≡ has_at_least_role u.role q)
    roles_agree none g = cc
    roles_agree (some roles) g = elim (Option-cases (least roles)) [
      | inl a ↦ cc (rw a at g)
      | inr (q, a) ↦ (q, λ u. granted_lem roles q u a)
    ]

-- Every route that asks for a token has one role such that the guard lets exactly those users
-- through whom the frontend's test of ranks lets through for that role.
can_activate-has_at_least_role :
    All (λ c. All (Agrees c) c.routes) (select (λ c. c.guarded) controllers)
can_activate-has_at_least_role =
    every-All (λ c. All (Agrees c) c.routes)
      (λ c. every (λ r. is_some (required_role c r)) c.routes) (select (λ c. c.guarded) controllers)
      refl
      (λ c h.
        every-All (Agrees c) (λ r. is_some (required_role c r)) c.routes h (λ r g. agrees c r g))
