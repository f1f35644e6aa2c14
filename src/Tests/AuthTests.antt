-- ===== src/Tests/AuthTests.antt =====
-- Signing in and refreshing on runnable tables.
use vibe_ocpp.Prelude.{
  String_discrete, ◌≡◌, refl, true, false, none, some, ok, err, unauthorized, ◌⊎◌, arith, ◌==◌,
}
use vibe_ocpp.Prelude.Text.{◌+++◌, text_take}
use vibe_ocpp.Database.Shelf
use vibe_ocpp.Database.Shelf.{shelf, empty}
use vibe_ocpp.Database.Shelf.Laws.{shelf-TableLaws}
use vibe_ocpp.Users.{admin, User, user_at, set_active}
use vibe_ocpp.Auth.Types.{RefreshToken, TokenPair, Libraries, LibraryLaws, authenticated}
use vibe_ocpp.Auth.Service.{
  Tables, AuthService, World, check, refresh, revoke_refresh_token, login, token_pair, token_row,
  issue_token_pair, create_token, rotate,
}
use vibe_ocpp.Auth.Spent.{IsDistinct}
use vibe_ocpp.Auth.Sessions.{Reach, refresh-refresh, revoke_refresh_token-refresh}
use vibe_ocpp.Auth.Sessions
use vibe_ocpp.Auth.Outcomes.{
  refresh_twice, login_refused, set_active-refresh, issue_token_pair-check, interleaved,
}

abbrev tables : Tables
tables = record {
  Tenants = shelf (λ t. t.id);
  Users = shelf (λ u. u.id);
  Tokens = shelf (λ t. t.id);
}

-- A token is its user's `id` of one character and its identifier.
abbrev libraries : Libraries
libraries = record {
  sign_access = λ p secret now. p.sub;
  sign_refresh = λ p secret now. p.sub +++ p.jti;
  verify = λ t secret now. some (text_take 1 t);
  digest = λ t. t;
  verify_password = λ h p. h == p;
  lower = λ s. s;
}

abbrev service : AuthService
service = record { libraries = libraries; jwt_access_secret = "a"; jwt_refresh_secret = "r" }

abbrev someone : User
someone = record {
  id = "u";
  tenant_id = "t";
  email = "u@example.org";
  password_hash = "pw";
  role = admin;
  is_active = true;
}

abbrev first_token : RefreshToken
first_token = record {
  id = "1";
  user_id = "u";
  token_hash = "u1";
  expires_at = 1000;
  revoked_at = none;
}

abbrev world : World tables
world = record {
  tenants = tables.Tenants.create (record { id = "t"; slug = "default"; name = "T" }) empty;
  users = tables.Users.create someone empty;
  tokens = tables.Tokens.create first_token empty;
}

world-IsDistinct : IsDistinct tables.Tokens world.tokens
unfolding Shelf.get Shelf.create String_discrete
world-IsDistinct = record { distinct = λ k j t u a b c. ground (arith, a, b) }

refresh-refresh_example :
    refresh tables service "u1" "3" "3" 30 (refresh tables service "u1" "2" "2" 20 world).1
    ≡ (err (unauthorized "Invalid refresh token"), (refresh tables service "u1" "2" "2" 20 world).1)
unfolding refresh check rotate issue_token_pair create_token token_pair Shelf.get Shelf.find
    Shelf.create Shelf.update String_discrete
refresh-refresh_example =
    refresh-refresh tables service (shelf-TableLaws (λ t. t.id)) "u1" "2" "2" 20 world
      (refresh tables service "u1" "2" "2" 20 world).1
      (token_pair tables service (authenticated someone) "2" 20) "3" "3" 30 world-IsDistinct refl
      Sessions.here

revoke_refresh_token-refresh_example :
    refresh tables service "u1" "3" "3" 30 (revoke_refresh_token tables service "u1" 20 world).1 ≡ (
      err (unauthorized "Invalid refresh token"),
      (revoke_refresh_token tables service "u1" 20 world).1,
    )
unfolding Shelf.get Shelf.find Shelf.create Shelf.update String_discrete
revoke_refresh_token-refresh_example =
    revoke_refresh_token-refresh tables service (shelf-TableLaws (λ t. t.id)) "u1" "3" "3" 20 world
      (revoke_refresh_token tables service "u1" 20 world).1 30 "1" first_token refl refl
      Sessions.here

refresh_twice_example :
    (interleaved tables service "u1" "2" "2" "3" "3" 20 world).0
    ≡ ok (
      token_pair tables service (authenticated someone) "2" 20,
      token_pair tables service (authenticated someone) "3" 20,
    )
unfolding check rotate issue_token_pair create_token token_pair Shelf.get Shelf.find Shelf.create
    Shelf.update String_discrete
refresh_twice_example =
    refresh_twice tables service "u1" "2" "2" "3" "3" 20 world (first_token, someone) refl refl refl

login_refused_example :
    (login tables service "u@example.org" "wrong" "2" "2" 20 world
      ≡ (err (unauthorized "Invalid credentials"), world))
    ⊎ ((u : User) × (tables.Users.find (user_at "t" "u@example.org") world.users ≡ some u)
        × (u.is_active ≡ true)
        × (libraries.verify_password u.password_hash "wrong" ≡ true)
        × (login tables service "u@example.org" "wrong" "2" "2" 20 world
            ≡ issue_token_pair tables service (authenticated u) "2" "2" 20 world))
unfolding Shelf.find Shelf.create String_discrete
login_refused_example =
    login_refused tables service "u@example.org" "wrong" "2" "2" 20 world
      (record { id = "t"; slug = "default"; name = "T" }) refl

set_active-refresh_example :
    refresh tables service "u1" "2" "2" 20
      (record world { users = (set_active tables.Users (λ p. p) "t" "u" false world.users).1 })
    ≡ (
      err (unauthorized "Invalid refresh token"),
      record world { users = (set_active tables.Users (λ p. p) "t" "u" false world.users).1 },
    )
unfolding set_active Shelf.find Shelf.create Shelf.update String_discrete
set_active-refresh_example =
    set_active-refresh tables service (shelf-TableLaws (λ u. u.id)) (λ p. p) world "t" "u" "u1" "2"
      "2" 20 (record someone { is_active = false }) refl refl

-- A token is its user's `id`.
abbrev short : Libraries
short = record libraries { sign_refresh = λ p secret now. p.sub; verify = λ t secret now. some t }

abbrev short_service : AuthService
short_service = record service { libraries = short }

short-LibraryLaws : LibraryLaws short
short-LibraryLaws = record { verify-sign = λ p secret now later h. refl }

issue_token_pair-check_example :
    (p : TokenPair) × (w' : World tables) × (issue_token_pair tables short_service
        (authenticated someone)
        "2"
        "2"
        20
        world
      ≡ (ok p, w'))
    × (check tables short_service p.refresh_token 500 w'
        ≡ (ok (token_row tables short_service (authenticated someone) "2" "2" 20, someone), w'))
unfolding Shelf.get Shelf.find Shelf.create String_discrete
issue_token_pair-check_example =
    issue_token_pair-check tables short_service (shelf-TableLaws (λ t. t.id)) short-LibraryLaws
      someone "2" "2" 20 500 world refl refl refl (omega arith)
