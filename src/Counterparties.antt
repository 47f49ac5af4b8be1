-- ===== src/Counterparties.antt =====
-- routes/counterparties.ts, and the recursive query of routes/reports.ts that finds the counterparties of a
-- group and of the groups below it. The lists, ordered by names, are left out.
pub mod Below
pub mod Moved
use remote_order_server.Common.{
  ℕ, suc, Bool, true, false, Option, none, some, List, [], ◌∷◌, ◌++◌, map, ◌==◌, if◌then◌else◌,
  length, find, select, update_where, exists_where, opt_eq, get_or, coalesce, Text, codes, text_or,
}
use Prim.Native.Nat.{zero}
use remote_order_server.Auth.{truthy}
use remote_order_server.Db.{Group, Counterparty}

-- The body of POST /counterparty-groups.
pub record GroupData : Type 0 where
  pub name : Option Text
  pub parent_id : Option ℕ

pub data GroupReply : Type 0 where
  created : Group → GroupReply
  name_required failed : GroupReply

abbrev pub new_group : ℕ → GroupData → Group
new_group id d = record {
  id = id;
  name = get_or d.name [];
  parent_id = d.parent_id;
  is_deleted = false;
}

-- POST /counterparty-groups, with the id of the database. "parentId" references the table, so that the
-- INSERT fails where it names no group.
unfoldable pub create_group : ℕ → GroupData → List Group → GroupReply × List Group
create_group id d groups =
    if truthy d.name
    then elim d.parent_id [
      | none ↦ (created (new_group id d), groups ++ new_group id d ∷ [])
      | some p ↦
          if exists_where (λ x. x.id == p) groups
          then (created (new_group id d), groups ++ new_group id d ∷ [])
          else (failed, groups)
    ]
    else (name_required, groups)

-- The body of POST and PUT /counterparties.
pub record PartyData : Type 0 where
  pub name : Option Text
  pub address : Option Text
  pub phone : Option Text
  pub contact_person : Option Text
  pub is_buyer : Option Bool
  pub is_seller : Option Bool
  pub price_type_id : Option ℕ
  pub group_id : Option ℕ
  pub warehouse_id : Option ℕ
  pub default_sales_type : Option Text
  pub organization_id : Option ℕ

pub data PartyReply : Type 0 where
  saved : Counterparty → PartyReply
  no_name not_found : PartyReply

abbrev cash_sales : Text
cash_sales = codes "Готівковий"

unfoldable pub new_party : ℕ → PartyData → Counterparty
new_party id d = record {
  id = id;
  name = get_or d.name [];
  address = d.address;
  phone = d.phone;
  contact_person = d.contact_person;
  is_buyer = get_or d.is_buyer false;
  is_seller = get_or d.is_seller false;
  price_type_id = d.price_type_id;
  group_id = d.group_id;
  warehouse_id = d.warehouse_id;
  default_sales_type = some (text_or d.default_sales_type cash_sales);
  organization_id = d.organization_id;
  is_deleted = false;
}

-- POST /counterparties
unfoldable pub create_party : ℕ → PartyData → List Counterparty → PartyReply × List Counterparty
unfolding new_party
create_party id d parties =
    if truthy d.name
    then (saved (new_party id d), parties ++ new_party id d ∷ [])
    else (no_name, parties)

-- The columns that PUT sets: COALESCE keeps some, and the ids that are missing become NULL.
unfoldable pub set_party : PartyData → Counterparty → Counterparty
set_party d c = record c {
  name = get_or d.name c.name;
  address = coalesce d.address c.address;
  phone = coalesce d.phone c.phone;
  contact_person = coalesce d.contact_person c.contact_person;
  is_buyer = get_or d.is_buyer c.is_buyer;
  is_seller = get_or d.is_seller c.is_seller;
  price_type_id = d.price_type_id;
  group_id = d.group_id;
  warehouse_id = d.warehouse_id;
  default_sales_type = coalesce d.default_sales_type c.default_sales_type;
  organization_id = d.organization_id;
}

-- PUT /counterparties/:id
unfoldable pub update_party : ℕ → PartyData → List Counterparty → PartyReply × List Counterparty
unfolding set_party
update_party id d parties = elim (find (λ c. c.id == id) parties) [
  | none ↦ (not_found, parties)
  | some c ↦ (saved (set_party d c), update_where (λ c. c.id == id) (set_party d) parties)
]

-- DELETE /counterparties/:id
unfoldable pub remove_party : ℕ → List Counterparty → List Counterparty
remove_party id = update_where (λ c. c.id == id) (λ c. record c { is_deleted = true })

-- One round of the recursive query: the groups whose parent is in the last round.
unfoldable pub children : List Group → List ℕ → List ℕ
children groups [] = []
children groups (h ∷ hs) =
    map (λ x. x.id) (select (λ x. opt_eq x.parent_id (some h)) groups) ++ children groups hs

-- WITH RECURSIVE, for at most so many rounds.
unfoldable pub rounds : List Group → ℕ → List ℕ → List ℕ
unfolding children
rounds groups zero last = []
rounds groups (suc n) last = last ++ rounds groups n (children groups last)

-- The first round: WHERE id = $1
unfoldable pub roots : List Group → ℕ → List ℕ
roots groups g = map (λ x. x.id) (select (λ x. x.id == g) groups)

-- GroupHierarchy; a group is in no more rounds than there are groups.
unfoldable pub hierarchy : List Group → ℕ → List ℕ
unfolding rounds roots
hierarchy groups g = rounds groups (length groups) (roots groups g)

-- "groupId" IN (SELECT id FROM GroupHierarchy)
abbrev pub in_group : List ℕ → Option ℕ → Bool
in_group ids group = exists_where (λ i. opt_eq group (some i)) ids

-- The counterparties of a group, for the reconciliation.
unfoldable pub parties_of : List Group → ℕ → List Counterparty → List ℕ
unfolding hierarchy
parties_of groups g parties =
    map (λ c. c.id) (select (λ c. in_group (hierarchy groups g) c.group_id) parties)
