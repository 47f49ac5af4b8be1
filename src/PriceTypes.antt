-- ===== src/PriceTypes.antt =====
-- routes/priceTypes.ts, over the rows of "PriceType". "slug" is UNIQUE (seed.ts), for deleted rows
-- as well.
pub mod Removed
use remote_order_server.Common.{
  ℕ, ltb, Bool, true, false, not, ◌&&◌, Option, none, some, List, [], ◌∷◌, ◌++◌, ◌==◌,
  if◌then◌else◌, find, select, order_by, update_where, exists_where, get_or, Text, codes, text_eq,
  text_or,
}
use remote_order_server.Auth.{truthy}

pub record TypeRow : Type 0 where
  pub id : ℕ
  pub name : Text
  pub slug : Text
  pub currency : Text
  pub deleted : Bool
  pub created_at : ℕ
  pub updated_at : ℕ

-- The body of a request: `none` stands for a field that is missing.
pub record TypeData : Type 0 where
  pub name : Option Text
  pub slug : Option Text
  pub currency : Option Text

pub data Reply : Type 0 where
  created updated : TypeRow → Reply
  missing_fields slug_exists not_found removed : Reply

-- SELECT … WHERE "deleted" = false ORDER BY "createdAt" ASC
unfoldable pub listed : List TypeRow → List TypeRow
listed types = order_by (λ a b. ltb a.created_at b.created_at) (select (λ t. not t.deleted) types)

-- The row that POST inserts, with the id and the time of the database.
unfoldable pub new_type : ℕ → ℕ → TypeData → TypeRow
new_type now id d = record {
  id = id;
  name = get_or d.name [];
  slug = get_or d.slug [];
  currency = text_or d.currency (codes "UAH");
  deleted = false;
  created_at = now;
  updated_at = now;
}

-- POST /price-types
unfoldable pub create : ℕ → ℕ → TypeData → List TypeRow → Reply × List TypeRow
create now id d types =
    if truthy d.name && truthy d.slug
    then if exists_where (λ t. text_eq t.slug (get_or d.slug [])) types
      then (slug_exists, types)
      else (created (new_type now id d), types ++ new_type now id d ∷ [])
    else (missing_fields, types)

-- The columns that PUT sets: COALESCE keeps the old value where the field is missing.
unfoldable pub set_type : ℕ → TypeData → TypeRow → TypeRow
set_type now d t = record t {
  name = get_or d.name t.name;
  slug = get_or d.slug t.slug;
  currency = get_or d.currency t.currency;
  updated_at = now;
}

-- PUT /price-types/:id; the UPDATE is refused where another row has the slug.
unfoldable pub update : ℕ → ℕ → TypeData → List TypeRow → Reply × List TypeRow
update now id d types = elim (find (λ t. t.id == id) types) [
  | none ↦ (not_found, types)
  | some t ↦
      if exists_where (λ u. not (u.id == id) && text_eq u.slug (set_type now d t).slug) types
      then (slug_exists, types)
      else (updated (set_type now d t), update_where (λ u. u.id == id) (set_type now d) types)
]

-- DELETE /price-types/:id
unfoldable pub remove : ℕ → ℕ → List TypeRow → Reply × List TypeRow
remove now id types = (
  removed,
  update_where (λ t. t.id == id) (λ t. record t { deleted = true; updated_at = now }) types,
)
