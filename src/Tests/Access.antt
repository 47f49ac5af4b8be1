-- ===== src/Tests/Access.antt =====
-- A user of a warehouse, tokens, and who passes.
use remote_order_server.Common.{
  ◌≡◌, refl, true, false, Option, none, some, List, [], ◌∷◌, codes, Text, text_eq, text_eq_refl,
}
use remote_order_server.Auth.{
  User, Claims, AuthRequest, next, manager, bearer, user_auth, login, logged_in, payload,
  first_word, hex_run, hex_groups, is_uuid,
}
use remote_order_server.Auth.Users.{UserData, new_user, create_user}
use remote_order_server.Auth.Login.{create_user-login}

abbrev anna : User
anna = record {
  id = 1;
  email = codes "anna@test.com";
  password = codes "secret";
  role = codes "user";
  warehouse_id = some (codes "0b3e1c2a-1111-2222-3333-0123456789AB");
  counterparty_id = none;
  organization_id = none;
  preferences = codes "{}";
  permissions = none;
}

abbrev users : List User
users = anna ∷ []

-- A token that was signed when she was a manager.
abbrev old_claims : Claims
old_claims = record (payload anna) { role = some manager }

abbrev verify : Text → Option Claims
verify t = some old_claims

abbrev with_token : AuthRequest
with_token = record {
  authorization = some (codes "Bearer abc");
  admin_secret = none;
  query_token = none;
}

is_hers : is_uuid (codes "0b3e1c2a-1111-2222-3333-0123456789AB") ≡ true
unfolding is_uuid hex_groups hex_run
is_hers = refl

is_short : is_uuid (codes "0b3e1c2a-1111-2222-3333-0123456789A") ≡ false
unfolding is_uuid hex_groups hex_run
is_short = refl

her_token : bearer (some (codes "Bearer abc")) ≡ some (codes "abc")
unfolding bearer first_word
her_token = refl

abbrev bohdan : UserData
bohdan = record {
  email = some (codes "b@test.com");
  password = some (codes "pass");
  role = some (codes "manager");
  counterparty_id = none;
  organization_id = none;
  warehouse_id = none;
  preferences = none;
  permissions = none;
}

abbrev plain : Text → Text
plain p = p

abbrev sign : Claims → Text
sign c = codes "abc"

abbrev verify_bohdan : Text → Option Claims
verify_bohdan t = some (payload (new_user plain 2 bohdan))

not_empty : codes "abc" ≡ [] → ⊥
not_empty h = cc

free_email : text_eq anna.email (codes "b@test.com") ≡ false
unfolding text_eq
free_email = refl

create_user-login_example :
    (login text_eq sign (create_user plain 2 bohdan users).1 bohdan.email bohdan.password
      ≡ logged_in (sign (payload (new_user plain 2 bohdan))) (new_user plain 2 bohdan))
    × ((v : Claims) × (user_auth verify_bohdan (create_user plain 2 bohdan users).1 with_token
          ≡ next v)
        × (v.role ≡ some (codes "manager")))
unfolding text_eq
create_user-login_example =
    create_user-login plain text_eq verify_bohdan sign 2 bohdan users with_token text_eq_refl
      not_empty (refl, (refl, (refl, tt))) refl refl refl refl refl refl refl
