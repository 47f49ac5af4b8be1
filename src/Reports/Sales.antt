-- ===== src/Reports/Sales.antt =====
-- GET /sales/by-client, /sales/by-client/details and /sales/by-product. Names, ORDER BY and the
-- average price, a quotient for display, are left out.
pub mod Agree
pub mod Documents
use remote_order_server.Common.{
  ℕ, Bool, true, false, ◌&&◌, Option, none, some, List, [], ◌∷◌, ◌++◌, map, ◌==◌, if◌then◌else◌,
  find, select, exists_where, sum_by, gather, same_opt, get_or, Text, codes, text_eq, length,
}
use remote_order_server.Common.Int.{ℤ, pos, ◌-ℤ◌, ◌*ℤ◌}
use remote_order_server.Db.{Db, Item, Realization, ReturnDoc, Product}
use remote_order_server.Realization.{is_posted, scaled}
use remote_order_server.Reports.{in_period}
use remote_order_server.Reports.Stock.{is_in}
use remote_order_server.Reports.Movement.{joined}

-- What the filters are made of: the warehouse of a user of one warehouse, the period, the sales type,
-- and the test of the counterparty's name with ILIKE, which is the database's.
pub record Filter : Type 0 where
  pub warehouse : Option ℕ
  pub from : Option ℕ
  pub to : Option ℕ
  pub sales_type : Option Text
  pub is_client : Option (ℕ → Bool)

abbrev pub returned_type : Text
returned_type = codes "Повернення"

abbrev pub unknown_type : Text
unknown_type = codes "Не визначено"

-- A counterparty that is missing has no name to test.
abbrev pub has_client : Option (ℕ → Bool) → Option ℕ → Bool
has_client none party = true
has_client (some test) none = false
has_client (some test) (some k) = test k

-- The filters on the sales type, of which an empty one is not given.
unfoldable pub is_sale_type : Option Text → Text → Bool
is_sale_type none s = true
is_sale_type (some []) s = true
is_sale_type (some (c ∷ t)) s =
    if text_eq (c ∷ t) returned_type
    then false
    else if text_eq (c ∷ t) unknown_type
    then text_eq s []
    else text_eq s (c ∷ t)

unfoldable pub is_return_type : Option Text → Bool
is_return_type none = true
is_return_type (some []) = true
is_return_type (some (c ∷ t)) = text_eq (c ∷ t) returned_type

-- WHERE r.status = 'POSTED' with rFilters
unfoldable pub is_reported : Filter → Realization → Bool
is_reported f r =
    is_posted r.status
    && is_in f.warehouse r.warehouse_id
    && in_period f.from f.to r.date
    && has_client f.is_client r.counterparty_id
    && is_sale_type f.sales_type r.sales_type

-- WHERE br.status = 'POSTED' with brFilters
unfoldable pub is_reported_return : Filter → ReturnDoc → Bool
is_reported_return f r =
    is_posted r.status
    && is_in f.warehouse r.warehouse_id
    && in_period f.from f.to r.date
    && has_client f.is_client r.party_id
    && is_return_type f.sales_type

-- COALESCE(NULLIF("salesType", ''), …), or '' where the report is not grouped by the type.
abbrev pub shown_type : Bool → Text → Text
shown_type grouping s = if grouping then (if text_eq s [] then unknown_type else s) else []

-- The type of a return is not part of the key either, where the report is not grouped by it.
abbrev pub shown_return : Bool → Text
shown_return grouping = if grouping then returned_type else []

-- BaseDocs
pub record DocRow : Type 0 where
  pub party : Option ℕ
  pub amount : ℤ
  pub profit : ℤ
  pub sales_type : Text

unfoldable pub base_docs : Bool → Filter → Db → List DocRow
unfolding is_reported is_reported_return
base_docs grouping f db =
    map
      (λ r. record {
        party = r.counterparty_id;
        amount = r.amount;
        profit = r.profit;
        sales_type = shown_type grouping r.sales_type;
      })
      (select (is_reported f) db.realizations)
    ++ map
        (λ r. record {
          party = r.party_id;
          amount = pos 0 -ℤ r.total_amount;
          profit = r.profit;
          sales_type = shown_return grouping;
        })
        (select (is_reported_return f) db.buyer_returns)

pub record ClientRow : Type 0 where
  pub client : Option ℕ
  pub sales_type : Text
  pub documents : ℕ
  pub amount : ℤ
  pub profit : ℤ

-- LEFT JOIN "Counterparty" c, of which the report reads the id.
abbrev pub client_id : Db → Option ℕ → Option ℕ
client_id db none = none
client_id db (some k) = if exists_where (λ c. c.id == k) db.counterparties then some k else none

abbrev pub same_key : Option ℕ × Text → Option ℕ × Text → Bool
same_key (a, s) (b, t) = same_opt a b && text_eq s t

-- GET /sales/by-client
unfoldable pub by_client : Bool → Filter → Db → List ClientRow
by_client grouping f db =
    map
      (λ (k, docs). record {
        client = k.0;
        sales_type = k.1;
        documents = length docs;
        amount = sum_by (λ d. d.amount) docs;
        profit = sum_by (λ d. d.profit) docs;
      })
      (gather same_key (λ d. (client_id db d.party, d.sales_type)) (base_docs grouping f db))

-- A row of BaseItems; the cost and the profit are in hundred-thousandths.
pub record ItemRow : Type 0 where
  pub product_id : ℕ
  pub quantity : ℤ
  pub amount : ℤ
  pub cost : ℤ
  pub profit : ℤ
  pub sales_type : Text

-- SUM(rib.quantity * rib."enterPrice")
unfoldable pub sold_cost : Db → ℕ → ℤ
sold_cost db i =
    sum_by (λ l. l.deduction.quantity *ℤ l.deduction.enter_price)
      (select (λ l. l.item_id == i) db.realization_item_batches)

-- JOIN "ProductBatch" pb, for its "enterPrice"
abbrev pub batch_price : Db → ℕ → Option ℤ
batch_price db i = elim (find (λ b. b.id == i) db.batches) [
  | none ↦ none
  | some b ↦ some b.enter_price
]

-- SUM(brb.quantity * pb."enterPrice"), in the details.
unfoldable pub returned_cost : Db → Item → ℤ
returned_cost db i =
    sum_by (λ l. l.quantity *ℤ get_or (batch_price db l.batch_id) (pos 0))
      (select (λ l. l.item_id == i.id) db.buyer_return_item_batches)

-- COALESCE(…, 0) * bri.quantity, by product: the price of the first batch that is joined.
abbrev pub has_price : Option ℤ → Bool
has_price none = false
has_price (some n) = true

unfoldable pub first_cost : Db → Item → ℤ
first_cost db i =
    elim (find (λ l. l.item_id == i.id && has_price (batch_price db l.batch_id))
      db.buyer_return_item_batches) [
        | none ↦ pos 0
        | some l ↦ get_or (batch_price db l.batch_id) (pos 0)
      ]
    *ℤ i.quantity

-- JOIN "RealizationItem", by product and in the details.
unfoldable pub sold_row : Bool → Filter → Db → Item → Option ItemRow
unfolding is_reported sold_cost
sold_row grouping f db i = elim (find (λ r. r.id == i.doc_id) db.realizations) [
  | none ↦ none
  | some r ↦
      if is_reported f r
      then some (record {
        product_id = i.product_id;
        quantity = i.quantity;
        amount = i.total;
        cost = sold_cost db i.id;
        profit = scaled i.total -ℤ sold_cost db i.id;
        sales_type = shown_type grouping r.sales_type;
      })
      else none
]

-- JOIN "BuyerReturnItem", with the cost that each report computes.
unfoldable pub returned_row : (Item → ℤ) → Bool → Filter → Db → Item → Option ItemRow
unfolding is_reported_return
returned_row cost_of grouping f db i = elim (find (λ r. r.id == i.doc_id) db.buyer_returns) [
  | none ↦ none
  | some r ↦
      if is_reported_return f r
      then some (record {
        product_id = i.product_id;
        quantity = pos 0 -ℤ i.quantity;
        amount = pos 0 -ℤ i.total;
        cost = pos 0 -ℤ cost_of i;
        profit = cost_of i -ℤ scaled i.total;
        sales_type = shown_return grouping;
      })
      else none
]

-- BaseItems
unfoldable pub base_items : (Item → ℤ) → Bool → Filter → Db → List ItemRow
unfolding joined sold_row returned_row
base_items cost_of grouping f db =
    joined (sold_row grouping f db) db.realization_items
    ++ joined (returned_row cost_of grouping f db) db.buyer_return_items

pub record ProductRow : Type 0 where
  pub product : Option ℕ
  pub sales_type : Text
  pub quantity : ℤ
  pub amount : ℤ
  pub cost : ℤ
  pub profit : ℤ

-- LEFT JOIN "Product" p
abbrev pub product_of : Db → ℕ → Option Product
product_of db i = find (λ p. p.id == i) db.products

abbrev pub product_id_of : Option Product → Option ℕ
product_id_of none = none
product_id_of (some p) = some p.id

-- GET /sales/by-product
unfoldable pub by_product : Bool → Filter → Db → List ProductRow
unfolding base_items first_cost
by_product grouping f db =
    map
      (λ (k, xs). record {
        product = k.0;
        sales_type = k.1;
        quantity = sum_by (λ x. x.quantity) xs;
        amount = sum_by (λ x. x.amount) xs;
        cost = sum_by (λ x. x.cost) xs;
        profit = sum_by (λ x. x.profit) xs;
      })
      (gather same_key (λ x. (product_id_of (product_of db x.product_id), x.sales_type))
        (base_items (first_cost db) grouping f db))

pub record DetailRow : Type 0 where
  pub name : Option Text
  pub unit : Option Text
  pub quantity : ℤ
  pub amount : ℤ
  pub profit : ℤ

-- GROUP BY p.name, p.unit
abbrev pub name_of : Option Product → Option Text × Option Text
name_of none = (none, none)
name_of (some p) = (some p.name, some p.unit)

abbrev pub same_text : Option Text → Option Text → Bool
same_text none none = true
same_text (some s) (some t) = text_eq s t
same_text _ _ = false

abbrev pub same_name : Option Text × Option Text → Option Text × Option Text → Bool
same_name (a, u) (b, v) = same_text a b && same_text u v

-- GET /sales/by-client/details, where clientId takes the place of the name.
unfoldable pub client_details : ℕ → Filter → Db → List DetailRow
unfolding base_items returned_cost
client_details client f db =
    let mine : Filter = record f { is_client = some (λ k. k == client) } in
    map
      (λ (k, xs). record {
        name = k.0;
        unit = k.1;
        quantity = sum_by (λ x. x.quantity) xs;
        amount = sum_by (λ x. x.amount) xs;
        profit = sum_by (λ x. scaled x.amount -ℤ x.cost) xs;
      })
      (gather same_name (λ x. name_of (product_of db x.product_id))
        (base_items (returned_cost db) false mine db))
