-- ===== src/Tests/Parties.antt =====
-- Groups of counterparties, of which one is below another.
use remote_order_server.Common.{ℕ, ◌≡◌, ◌↔◌, refl, true, none, some, List, [], ◌∷◌, codes, length}
use remote_order_server.Db.{Group, Counterparty}
use remote_order_server.Counterparties.{
  GroupData, create_group, PartyData, new_party, update_party, parties_of, roots, hierarchy,
}
use remote_order_server.Counterparties.Below.{Below, has, round}
use remote_order_server.Counterparties.Below.Tree.{Reach, start, posts, hierarchy-Below}
use remote_order_server.Counterparties.Moved.{update_party-parties_of}

abbrev shops : GroupData
shops = record { name = some (codes "Shops"); parent_id = none }

abbrev kiosks : GroupData
kiosks = record { name = some (codes "Kiosks"); parent_id = some 1 }

abbrev groups : List Group
groups = (create_group 2 kiosks (create_group 1 shops []).1).1

groups-Reach : Reach groups
unfolding create_group
groups-Reach = posts 2 kiosks (posts 1 shops start refl) refl

hierarchy-Below_example :
    (round groups (length groups) (roots groups 1) ≡ [])
    × ((c : ℕ) → (has c (hierarchy groups 1) ≡ true) ↔ Below groups 1 c)
hierarchy-Below_example = hierarchy-Below groups 1 groups-Reach

abbrev ivan : PartyData
ivan = record {
  name = some (codes "Ivan");
  address = none;
  phone = none;
  contact_person = none;
  is_buyer = some true;
  is_seller = none;
  price_type_id = none;
  group_id = none;
  warehouse_id = none;
  default_sales_type = none;
  organization_id = none;
}

abbrev parties : List Counterparty
parties = new_party 41 ivan ∷ []

update_party-parties_of_example :
    (has 41 (parties_of groups 1 (update_party 41 (record ivan { group_id = some 2 }) parties).1)
      ≡ true)
    ↔ Below groups 1 2
unfolding new_party
update_party-parties_of_example =
    update_party-parties_of groups 1 2 41 (record ivan { group_id = some 2 }) parties
      (new_party 41 ivan) groups-Reach (tt, tt) refl refl

both_found : hierarchy groups 1 ≡ 1 ∷ 2 ∷ []
unfolding create_group hierarchy
both_found = refl
