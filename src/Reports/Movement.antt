-- ===== src/Reports/Movement.antt =====
-- GET /inventory-movement.
pub mod Meets
pub mod Joined
pub mod Agrees
use remote_order_server.Common.{
  ℕ, suc, Bool, true, false, not, ◌&&◌, Option, none, some, List, [], ◌∷◌, ◌++◌, map, ◌==◌,
  if◌then◌else◌, find, select, order_by, opt_eq, ltb, sum_by, coalesce,
}
use remote_order_server.Common.Int.{ℤ, pos, ◌+ℤ◌, ◌-ℤ◌}
use remote_order_server.Db.{Db, ProductBatch, ItemBatch, Product}
use remote_order_server.Inventory.{batch_warehouse}
use remote_order_server.Reports.{in_period, midnight}
use remote_order_server.Reports.Stock.{LinkDoc, batch_date, sale_of, return_of}

pub data Kind : Type 0 where
  incoming_batch sale supplier_return : Kind

-- A batch that came, or a link with which a quantity went, with the date of its document.
pub record Event : Type 0 where
  pub product_id : ℕ
  pub date : ℕ
  pub quantity : ℤ
  pub kind : Kind

-- The rows for which a join finds what it wants.
unfoldable pub joined : {A B : Type 0} → (A → Option B) → List A → List B
joined f [] = []
joined f (x ∷ xs) = let rest = joined f xs in elim (f x) [ none ↦ rest | some y ↦ y ∷ rest ]

abbrev pub is_stored : Db → ℕ → ProductBatch → Bool
is_stored db w b = opt_eq (batch_warehouse db.goods_receipts db.buyer_returns b) (some w)

unfoldable pub arrival : Db → ℕ → ProductBatch → Option Event
arrival db w b = elim (is_stored db w b) [
  | false ↦ none
  | true ↦ elim (batch_date db b) [
    | none ↦ none
    | some d ↦ some (record {
      product_id = b.product_id;
      date = d;
      quantity = b.quantity_total;
      kind = incoming_batch;
    })
  ]
]

-- JOIN "ProductBatch", the two LEFT JOINs, and the joins of the document, whatever its status.
unfoldable pub departure : Kind → (ItemBatch → Option LinkDoc) → Db → ℕ → ItemBatch → Option Event
departure k doc_of db w l = elim (find (λ b. b.id == l.deduction.batch_id) db.batches) [
  | none ↦ none
  | some b ↦ elim (is_stored db w b) [
    | false ↦ none
    | true ↦ elim (doc_of l) [
      | none ↦ none
      | some d ↦ some (record {
        product_id = b.product_id;
        date = d.date;
        quantity = l.deduction.quantity;
        kind = k;
      })
    ]
  ]
]

-- BatchIncoming
unfoldable pub arrivals : ℕ → Db → List Event
unfolding joined arrival
arrivals w db = joined (arrival db w) db.batches

-- OutgoingEvents
unfoldable pub departures : ℕ → Db → List Event
unfolding joined departure
departures w db =
    joined (departure sale (sale_of db) db w) db.realization_item_batches
    ++ joined (departure supplier_return (return_of db) db w) db.supplier_return_item_batches

-- A row of the answer.
pub record Turnover : Type 0 where
  pub product_id : ℕ
  pub start : ℤ
  pub incoming : ℤ
  pub outgoing : ℤ
  pub closing : ℤ
  pub details : List Event

abbrev pub is_about : ℕ → Event → Bool
is_about p e = e.product_id == p

-- SUM(CASE WHEN date < $1::date THEN quantity ELSE 0 END)
unfoldable pub start_sum : ℕ → ℕ → List Event → ℤ
start_sum p from es =
    sum_by (λ e. if ltb e.date (midnight from) then e.quantity else pos 0) (select (is_about p) es)

unfoldable pub period_sum : ℕ → ℕ → ℕ → List Event → ℤ
period_sum p from to es =
    sum_by (λ e. if in_period (some from) (some to) e.date then e.quantity else pos 0)
      (select (is_about p) es)

abbrev pub in_details : ℕ → ℕ → ℕ → Event → Bool
in_details p from to e = is_about p e && in_period (some from) (some to) e.date

unfoldable pub turnover : ℕ → ℕ → ℕ → Db → ℕ → Turnover
turnover from to w db p =
    let came : List Event = arrivals w db in
    let went : List Event = departures w db in
    record {
      product_id = p;
      start = start_sum p from came -ℤ start_sum p from went;
      incoming = period_sum p from to came;
      outgoing = period_sum p from to went;
      closing =
          start_sum p from came
          -ℤ start_sum p from went
          +ℤ period_sum p from to came
          -ℤ period_sum p from to went;
      details =
          order_by (λ a b. ltb a.date b.date)
            (select (in_details p from to) came ++ select (in_details p from to) went);
    }

-- GET /inventory-movement, with its three parameters, before ORDER BY.
unfoldable pub movement : ℕ → ℕ → ℕ → Db → List Turnover
movement from to w db =
    map (λ p. turnover from to w db p.id) (select (λ p. not p.deleted) db.products)
