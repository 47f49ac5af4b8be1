-- ===== src/Auth/Users.antt =====
-- routes/users.ts: the operations on the users, for administrators.
use remote_order_server.Common.{
  ℕ, ◌&&◌, Option, none, some, List, [], ◌∷◌, ◌++◌, ◌==◌, ◌+◌, leb, if◌then◌else◌, find,
  exists_where, map, get_or, Text, codes, text_eq, update_where,
}
use remote_order_server.Auth.{User, Claims, Decision, next, forbidden, admin, is_uuid, truthy}

-- toLowerCase; no other letter than those of ASCII becomes one of 'admin'.
abbrev lower : ℕ → ℕ
lower c = if leb 65 c && leb c 90 then c + 32 else c

unfoldable pub require_admin : Claims → Decision
require_admin c = elim c.role [
  | none ↦ forbidden
  | some r ↦ if text_eq (map lower r) admin then next c else forbidden
]

-- The body of a request: `none` stands for a field that is missing. Of `warehouse_id` the inner
-- `none` is a null.
pub record UserData : Type 0 where
  pub email : Option Text
  pub password : Option Text
  pub role : Option Text
  pub counterparty_id : Option ℕ
  pub organization_id : Option ℕ
  pub warehouse_id : Option (Option Text)
  pub preferences : Option Text
  pub permissions : Option Text

pub data UserReply : Type 0 where
  missing_fields email_taken not_found : UserReply
  created updated : User → UserReply

-- A warehouse that is no UUID, and the empty text, are stored as NULL.
unfoldable pub stored_warehouse : Option Text → Option Text
stored_warehouse none = none
stored_warehouse (some t) = if is_uuid t then some t else none

module _ (hash : Text → Text) where
  -- The row that POST / inserts.
  unfoldable pub new_user : ℕ → UserData → User
  new_user id d = record {
    id = id;
    email = get_or d.email [];
    password = hash (get_or d.password []);
    role = get_or d.role [];
    warehouse_id = stored_warehouse (get_or d.warehouse_id none);
    counterparty_id = d.counterparty_id;
    organization_id = d.organization_id;
    preferences = codes "{}";
    permissions = some (get_or d.permissions (codes "{}"));
  }

  -- POST /
  unfoldable pub create_user : ℕ → UserData → List User → UserReply × List User
  create_user id d users =
      if truthy d.email && truthy d.password && truthy d.role
      then if exists_where (λ u. text_eq u.email (get_or d.email [])) users
        then (email_taken, users)
        else (created (new_user id d), users ++ new_user id d ∷ [])
      else (missing_fields, users)

  -- The columns that PUT /:id sets.
  unfoldable pub set_user : UserData → User → User
  set_user d u = record u {
    email = get_or d.email [];
    role = get_or d.role [];
    counterparty_id = d.counterparty_id;
    organization_id = d.organization_id;
    warehouse_id = elim d.warehouse_id [ none ↦ u.warehouse_id | some w ↦ stored_warehouse w ];
    preferences = get_or d.preferences u.preferences;
    permissions = elim d.permissions [ none ↦ u.permissions | some p ↦ some p ];
    password = elim d.password [ some (c ∷ p) ↦ hash (c ∷ p) | _ ↦ u.password ];
  }

  -- PUT /:id
  unfoldable pub update_user : ℕ → UserData → List User → UserReply × List User
  update_user id d users =
      if truthy d.email && truthy d.role
      then elim (find (λ u. u.id == id) users) [
        | none ↦ (not_found, users)
        | some u ↦ (updated (set_user d u), update_where (λ v. v.id == id) (set_user d) users)
      ]
      else (missing_fields, users)
