-- ===== src/Auth.antt =====
-- middleware/auth.ts and routes/auth.ts. The packages jsonwebtoken and bcryptjs are parameters:
-- `verify` gives the claims of a token and `none` where jwt.verify throws, `sign` makes a token,
-- `compare` is bcrypt.compare and `hash` bcrypt.hash. The queries are taken to answer.
pub mod Users
pub mod Guards
pub mod Login
use remote_order_server.Common.{
  ℕ, suc, zero, Bool, true, false, ◌&&◌, ◌||◌, Option, none, some, List, [], ◌∷◌, ◌==◌, leb,
  if◌then◌else◌, find, update_where, get_or, text_or, Text, codes, text_eq, drop_prefix,
}

-- "User"; the JSON columns are texts.
pub record User : Type 0 where
  pub id : ℕ
  pub email : Text
  pub password : Text
  pub role : Text
  pub warehouse_id : Option Text
  pub counterparty_id : Option ℕ
  pub organization_id : Option ℕ
  pub preferences : Text
  pub permissions : Option Text

-- The payload of a token, and `req.user`.
pub record Claims : Type 0 where
  pub id : Option ℕ
  pub email : Option Text
  pub role : Option Text
  pub warehouse_id : Option Text
  pub permissions : Option Text

-- What the middleware reads of a request.
pub record AuthRequest : Type 0 where
  pub authorization : Option Text
  pub admin_secret : Option Text
  pub query_token : Option Text

-- next() with `req.user`, or the status of the answer.
pub data Decision : Type 0 where
  next : Claims → Decision
  unauthorized forbidden : Decision

abbrev is_hex : ℕ → Bool
is_hex c = (leb 48 c && leb c 57) || (leb 97 c && leb c 102) || (leb 65 c && leb c 70)

-- [0-9a-f]{n}, ignoring case, and what follows it.
unfoldable pub hex_run : ℕ → Text → Option Text
hex_run zero t = some t
hex_run (suc n) [] = none
hex_run (suc n) (c ∷ t) = if is_hex c then hex_run n t else none

-- The groups of hexadecimal digits, joined by dashes.
unfoldable pub hex_groups : List ℕ → Text → Option Text
unfolding hex_run
hex_groups [] t = some t
hex_groups (n ∷ []) t = hex_run n t
hex_groups (n ∷ m ∷ ns) t = elim (hex_run n t) [
  | none ↦ none
  | some r ↦ elim (drop_prefix (codes "-") r) [ none ↦ none | some s ↦ hex_groups (m ∷ ns) s ]
]

-- uuidRegex.test
unfoldable pub is_uuid : Text → Bool
unfolding hex_groups
is_uuid t = elim (hex_groups (8 ∷ 4 ∷ 4 ∷ 4 ∷ 12 ∷ []) t) [ some [] ↦ true | _ ↦ false ]

-- The row of the user overrides what the token says.
unfoldable pub with_row : List User → Claims → Claims
with_row users c = elim c.id [
  | none ↦ c
  | some i ↦ elim (find (λ u. u.id == i) users) [
    | none ↦ c
    | some u ↦ record c {
      role = some u.role;
      warehouse_id = u.warehouse_id;
      permissions = some (text_or u.permissions (codes "{}"));
    }
  ]
]

unfoldable pub checked_warehouse : Option Text → Option Text
checked_warehouse (some (c ∷ t)) = if is_uuid (c ∷ t) then some (c ∷ t) else none
checked_warehouse w = w

-- `decoded` when the roles are compared.
unfoldable pub current : List User → Claims → Claims
current users d =
    let c = with_row users d in record c { warehouse_id = checked_warehouse c.warehouse_id }

-- Up to the next space.
unfoldable pub first_word : Text → Text
first_word [] = []
first_word (c ∷ t) = let rest = first_word t in if c == 32 then [] else c ∷ rest

abbrev pub bearer_prefix : Text
bearer_prefix = codes "Bearer "

-- authHeader.split(' ')[1], where the header starts with 'Bearer '.
unfoldable pub bearer : Option Text → Option Text
bearer none = none
bearer (some header) = elim (drop_prefix bearer_prefix header) [
  | none ↦ none
  | some rest ↦ some (first_word rest)
]

abbrev pub admin : Text
admin = codes "admin"

abbrev pub manager : Text
manager = codes "manager"

unfoldable pub is_role : Text → Claims → Bool
is_role r c = elim c.role [ none ↦ false | some t ↦ text_eq t r ]

-- A text that is missing or empty is falsy.
abbrev pub truthy : Option Text → Bool
truthy (some (c ∷ t)) = true
truthy _ = false

-- secret && secret === ADMIN_SECRET
unfoldable pub has_secret : Option Text → Option Text → Bool
has_secret (some (c ∷ s)) (some admin_secret) = text_eq (c ∷ s) admin_secret
has_secret _ _ = false

abbrev pub secret_admin : Claims
secret_admin = record {
  id = none;
  email = none;
  role = some admin;
  warehouse_id = none;
  permissions = none;
}

module _ (verify : Text → Option Claims) (users : List User) where
  -- The first step of `adminAuth`: the user of a token, if it is an admin or a manager.
  unfoldable pub admin_of_token : Option Text → Option Claims
  admin_of_token (some (c ∷ t)) = elim (verify (c ∷ t)) [
    | none ↦ none
    | some d ↦
        let u = current users d in if is_role admin u || is_role manager u then some u else none
  ]
  admin_of_token _ = none

  unfoldable pub admin_auth : Option Text → AuthRequest → Decision
  admin_auth admin_secret q = elim (admin_of_token (bearer q.authorization)) [
    | some u ↦ next u
    | none ↦ if has_secret q.admin_secret admin_secret then next secret_admin else forbidden
  ]

  -- The second half of `userAuth`.
  unfoldable pub user_of_token : Text → Decision
  user_of_token [] = unauthorized
  user_of_token (c ∷ t) = elim (verify (c ∷ t)) [
    | none ↦ unauthorized
    | some d ↦ next (current users d)
  ]

  unfoldable pub user_auth : AuthRequest → Decision
  user_auth q = elim (bearer q.authorization) [
    | some t ↦ user_of_token t
    | none ↦ user_of_token (get_or q.query_token [])
  ]

-- The answers of POST /login.
pub data LoginReply : Type 0 where
  missing_fields invalid_credentials : LoginReply
  logged_in : Text → User → LoginReply

abbrev pub payload : User → Claims
payload u = record {
  id = some u.id;
  email = some u.email;
  role = some u.role;
  warehouse_id = u.warehouse_id;
  permissions = none;
}

module _ (compare : Text → Text → Bool) (sign : Claims → Text) (users : List User) where
  unfoldable pub check_password : Text → Option User → LoginReply
  check_password password none = invalid_credentials
  check_password password (some u) =
      if compare password u.password then logged_in (sign (payload u)) u else invalid_credentials

  unfoldable pub login : Option Text → Option Text → LoginReply
  login (some (c ∷ e)) (some (d ∷ p)) =
      check_password (d ∷ p) (find (λ u. text_eq u.email (c ∷ e)) users)
  login _ _ = missing_fields

abbrev pub reset_email : Text
reset_email = codes "admin@test.com"

abbrev pub reset_password : Text
reset_password = codes "123456"

-- GET /emergency-reset
unfoldable pub emergency_reset : (Text → Text) → List User → List User
emergency_reset hash =
    update_where (λ u. text_eq u.email reset_email)
      (λ u. record u { password = hash reset_password })
