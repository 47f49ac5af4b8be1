-- ===== src/Tests/Types.antt =====
-- A price type that is deleted, and created again.
use remote_order_server.Common.{◌≡◌, refl, false, none, some, List, [], ◌∷◌, codes, All, ◌==◌}
use remote_order_server.PriceTypes.{
  TypeRow, TypeData, create, remove, listed, slug_exists, new_type,
}
use remote_order_server.PriceTypes.Removed.{remove-create}

abbrev retail : TypeData
retail = record { name = some (codes "Retail"); slug = some (codes "retail"); currency = none }

abbrev types : List TypeRow
types = (create 1000 3 retail []).1

found : types ≡ new_type 1000 3 retail ∷ []
unfolding create
found = refl

remove-create_example :
    All (λ u. (u.id == 3) ≡ false) (listed (remove 1001 3 types).1)
    × (create 1002 4 retail (remove 1001 3 types).1 ≡ (slug_exists, (remove 1001 3 types).1))
unfolding create new_type
remove-create_example = remove-create 1001 1002 3 4 retail types refl refl refl
