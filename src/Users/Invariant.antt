-- ===== src/Users/Invariant.antt =====
-- Which users the methods of backend/src/users/users.service.ts let come about.
use vibe_ocpp.Prelude.{
  ℕ, ◌<◌, String, ◌≡◌, refl, Bool, true, ◌⊎◌, inl, inr, none, some, ok, ◌==◌, ◌&&◌, arith,
  Option-cases, Bool-cases,
}
use vibe_ocpp.Database.{Table, TableLaws}
use vibe_ocpp.Users.{
  Role, super_admin, admin, mitarbeiter, driver, User, may_create, user_at, new_user, create,
  set_active,
}

-- How far up a role stands in the role table of docs/architecture-proposal.md.
abbrev pub rank : Role → ℕ
rank super_admin = 3
rank admin = 2
rank mitarbeiter = 1
rank driver = 0

may_create-rank :
    (actor role : Role) → may_create actor role ≡ true → (rank role < rank actor) × (0 < rank role)
unfolding may_create
may_create-rank super_admin super_admin h = ground (arith, h)
may_create-rank super_admin admin h = (omega arith, omega arith)
may_create-rank super_admin mitarbeiter h = (omega arith, omega arith)
may_create-rank super_admin driver h = ground (arith, h)
may_create-rank admin super_admin h = ground (arith, h)
may_create-rank admin admin h = ground (arith, h)
may_create-rank admin mitarbeiter h = (omega arith, omega arith)
may_create-rank admin driver h = ground (arith, h)
may_create-rank mitarbeiter role h = ground (arith, h)
may_create-rank driver role h = ground (arith, h)

-- A tenant has one user for each email.
abbrev pub IsUnique : (Users : Table User (λ u. u.id)) → Users.Store → Type 0
IsUnique Users s =
    (k j : String) (u v : User)
    → Users.get k s ≡ some u
    → Users.get j s ≡ some v
    → u.tenant_id ≡ v.tenant_id
    → u.email ≡ v.email
    → k ≡ j

module _ (Users : Table User (λ u. u.id)) (L : TableLaws Users) (hash : String → String) where
  module _ {ℓ} (P : Users.Store → Type ℓ) (s : Users.Store) (before : P s) (tenant_id : String)
      (actor_role : Role) (email plain_password : String) (role : Role) (fresh : String) where
    create_cases :
        (may_create actor_role role ≡ true
          → Users.find (user_at tenant_id email) s ≡ none
          → P (Users.create (new_user tenant_id email (hash plain_password) role fresh) s))
        → P (create Users hash tenant_id actor_role email plain_password role fresh s).1
    unfolding create
    create_cases made = elim (Bool-cases (may_create actor_role role)) [
      | inr a ↦ rw a before
      | inl a ↦ elim (Option-cases (Users.find (user_at tenant_id email) s)) [
        | inl b ↦ rw (a, b) (made a b)
        | inr (u, b) ↦ rw (a, b) before
      ]
    ]

  module _ (s : Users.Store) (tenant_id : String) (actor_role : Role)
      (email plain_password : String) (role : Role) (fresh : String)
      (free : Users.get fresh s ≡ none) where
    -- The row of an id is the one that was asked for.
    abbrev pub Made : String → Users.Store → Type 0
    Made k s' =
        (u : User) × (Users.get k s' ≡ some u)
        × (u.role ≡ role)
        × (u.tenant_id ≡ tenant_id)
        × (u.email ≡ email)
        × (u.password_hash ≡ hash plain_password)
        × (u.is_active ≡ true)

    -- Whoever creates a user with a free id, every row afterwards was there before, or is of an
    -- active user of the tenant with the email, the hash of the password and the role asked for,
    -- which stands below the creator's and is not that of a driver.
    pub create-rank :
        (k : String)
        → (Users.get k (create Users hash tenant_id actor_role email plain_password role fresh s).1
            ≡ Users.get k s)
          ⊎ ((rank role < rank actor_role)
              × (0 < rank role)
              × Made k (create Users hash tenant_id actor_role email plain_password role fresh s).1)
    create-rank k =
        create_cases
          (λ s'.
            (Users.get k s' ≡ Users.get k s)
            ⊎ ((rank role < rank actor_role) × (0 < rank role) × Made k s'))
          s (inl refl) tenant_id actor_role email plain_password role fresh
          (λ a b. elim (Bool-cases (fresh == k)) [
            | inl e ↦
                let (lower, positive) = may_create-rank actor_role role a in
                inr (
                  lower,
                  positive,
                  (
                    new_user tenant_id email (hash plain_password) role fresh,
                    ground (
                      arith,
                      e,
                      L.get-create k (new_user tenant_id email (hash plain_password) role fresh) s
                          free,
                    ),
                    refl,
                    refl,
                    refl,
                    refl,
                    refl,
                  ),
                )
            | inr e ↦ inl (
                ground (
                  arith,
                  e,
                  L.get-create k (new_user tenant_id email (hash plain_password) role fresh) s free,
                ))
          ])

    -- Creating a user with a free id keeps the emails of each tenant distinct.
    pub create-IsUnique :
        IsUnique Users s
        → IsUnique Users
            (create Users hash tenant_id actor_role email plain_password role fresh s).1
    create-IsUnique v =
        create_cases (IsUnique Users) s v tenant_id actor_role email plain_password role fresh
          (λ a b k j p q g h t e. ground (
            arith,
            g,
            h,
            t,
            e,
            v k j p q,
            L.find_complete (user_at tenant_id email) s k p b,
            L.find_complete (user_at tenant_id email) s j q b,
            L.get-create k (new_user tenant_id email (hash plain_password) role fresh) s free,
            L.get-create j (new_user tenant_id email (hash plain_password) role fresh) s free,
          ))

  -- After a switch that found its user, the user's row is switched.
  pub set_active-get :
      (s : Users.Store) (tenant_id user_id : String) (is_active : Bool) (u r : User)
      → (set_active Users hash tenant_id user_id is_active s).0 ≡ ok u
      → Users.get user_id (set_active Users hash tenant_id user_id is_active s).1 ≡ some r
      → r.is_active ≡ is_active
  unfolding set_active
  set_active-get s tenant_id user_id is_active u r h g =
      elim (Option-cases (Users.find (λ q. q.id == user_id && q.tenant_id == tenant_id) s)) [
        | inl a ↦ cc (rw a at h)
        | inr (q, a) ↦ ground (
          arith,
          rw a at g,
          L.find_sound (λ q. q.id == user_id && q.tenant_id == tenant_id) s q a,
          L.get-update user_id q.id (λ x. record x { is_active = is_active }) s (λ x. refl),
        )
      ]
