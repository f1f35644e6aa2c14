-- ===== src/Users.antt =====
-- backend/src/users/users.service.ts, with the roles of backend/src/common/roles.enum.ts. The hash
-- of a password is a parameter, for password.service.ts calls a library with a random salt.
pub mod Invariant
use vibe_ocpp.Prelude.{
  ℕ, String, Bool, true, false, ◌&&◌, Option, none, some, List, [], ◌∷◌, any, ok, forbidden,
  conflict, failure, Action, ◌>>=◌, ◌>>◌, and_then, pure, throw, asks, modify, ◌==◌, nat_eq,
}
use vibe_ocpp.Prelude.Text.{◌+++◌}
use vibe_ocpp.Database.{Table}

pub data Role : Type 0 where
  super_admin admin mitarbeiter driver : Role

pub record User : Type 0 where
  pub id : String
  pub tenant_id : String
  pub email : String
  pub password_hash : String
  pub role : Role
  pub is_active : Bool

abbrev pub role_name : Role → String
role_name super_admin = "SuperAdmin"
role_name admin = "Admin"
role_name mitarbeiter = "Mitarbeiter"
role_name driver = "Driver"

unfoldable pub allowed_target_roles : Role → List Role
allowed_target_roles super_admin = admin ∷ mitarbeiter ∷ []
allowed_target_roles admin = mitarbeiter ∷ []
allowed_target_roles mitarbeiter = []
allowed_target_roles driver = []

abbrev role_index : Role → ℕ
role_index super_admin = 0
role_index admin = 1
role_index mitarbeiter = 2
role_index driver = 3

abbrev same_role : Role → Role → Bool
same_role a b = nat_eq (role_index a) (role_index b)

unfoldable pub may_create : Role → Role → Bool
unfolding allowed_target_roles
may_create actor_role role = any (same_role role) (allowed_target_roles actor_role)

abbrev pub user_at : String → String → User → Bool
user_at tenant_id email u = u.tenant_id == tenant_id && u.email == email

abbrev pub new_user : String → String → String → Role → String → User
new_user tenant_id email password_hash role fresh = record {
  id = fresh;
  tenant_id = tenant_id;
  email = email;
  password_hash = password_hash;
  role = role;
  is_active = true;
}

module _ (Users : Table User (λ u. u.id)) (hash : String → String) where
  abbrev Act : Type 0 → Type 0
  Act A = Action Users.Store A

  insert_unless : Option User → User → Act User
  insert_unless (some existing) u = throw (conflict "A user with this email already exists")
  insert_unless none u = do modify (Users.create u); pure u

  create_allowed : Bool → String → Role → String → String → Role → String → Act User
  unfolding insert_unless
  create_allowed false tenant_id actor_role email plain_password role fresh =
      throw (
        forbidden (role_name actor_role +++ " may not create a user with role " +++ role_name role))
  create_allowed true tenant_id actor_role email plain_password role fresh = do
    existing ← asks (Users.find (user_at tenant_id email))
    insert_unless existing (new_user tenant_id email (hash plain_password) role fresh)

  unfoldable pub create : String → Role → String → String → Role → String → Act User
  unfolding create_allowed
  create tenant_id actor_role email plain_password role fresh =
      create_allowed (may_create actor_role role) tenant_id actor_role email plain_password role
        fresh

  -- The order by email is left out.
  unfoldable pub list : String → Act (List User)
  list tenant_id s = (ok (Users.list (λ u. u.tenant_id == tenant_id) s), s)

  activate : Bool → Option User → Act User
  activate is_active none = throw (failure "Record to update not found.")
  activate is_active (some u) = do
    modify (Users.update u.id (λ r. record r { is_active = is_active }))
    pure (record u { is_active = is_active })

  unfoldable pub set_active : String → String → Bool → Act User
  unfolding activate
  set_active tenant_id user_id is_active = do
    found ← asks (Users.find (λ u. u.id == user_id && u.tenant_id == tenant_id))
    activate is_active found
