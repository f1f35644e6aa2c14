-- ===== src/Tests/UsersTests.antt =====
-- Users on a runnable table.
use vibe_ocpp.Prelude.{true, ◌<◌, String, ◌≡◌, refl, ◌⊎◌, some, arith}
use vibe_ocpp.Database.{Table}
use vibe_ocpp.Database.Shelf
use vibe_ocpp.Database.Shelf.{shelf, empty}
use vibe_ocpp.Database.Shelf.Laws.{shelf-TableLaws}
use vibe_ocpp.Users.{super_admin, admin, User, create}
use vibe_ocpp.Users.Invariant.{rank, IsUnique, create-rank, create-IsUnique}

abbrev users : Table User (λ u. u.id)
users = shelf (λ u. u.id)

abbrev hash : String → String
hash password = "argon2"

create-rank_example :
    (users.get "a" (create users hash "t" super_admin "a@example.org" "pw" admin "a" empty).1
      ≡ users.get "a" empty)
    ⊎ ((rank admin < rank super_admin)
        × (0 < rank admin)
        × ((u : User) × (users.get "a"
                (create users hash "t" super_admin "a@example.org" "pw" admin "a" empty).1
              ≡ some u)
            × (u.role ≡ admin)
            × (u.tenant_id ≡ "t")
            × (u.email ≡ "a@example.org")
            × (u.password_hash ≡ "argon2")
            × (u.is_active ≡ true)))
unfolding Shelf.get
create-rank_example =
    create-rank users (shelf-TableLaws (λ u. u.id)) hash empty "t" super_admin "a@example.org" "pw"
      admin "a" refl "a"

empty-IsUnique : IsUnique users empty
unfolding Shelf.get
empty-IsUnique k j u v a b c d = ground (arith, a)

create-IsUnique_example :
    IsUnique users (create users hash "t" super_admin "a@example.org" "pw" admin "a" empty).1
unfolding Shelf.get
create-IsUnique_example =
    create-IsUnique users (shelf-TableLaws (λ u. u.id)) hash empty "t" super_admin "a@example.org"
      "pw" admin "a" refl empty-IsUnique
