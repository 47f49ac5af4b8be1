-- ===== src/Schedule.antt =====
-- routes/collection-schedule.ts. The calendar of the database is a
-- parameter: `this_week` is "createdAt" >= date_trunc('week', CURRENT_DATE) and `iso_day` is
-- EXTRACT(ISODOW FROM "createdAt").
pub mod Valid
use remote_order_server.Common.{
  ℕ, suc, leb, Bool, true, false, ◌&&◌, Option, none, some, List, [], ◌∷◌, ◌++◌, ◌==◌,
  if◌then◌else◌, find, select, delete_where, update_where, exists_where, opt_eq, Text, codes,
  text_eq, length, sum_by, map, ◌||◌,
}
use remote_order_server.Common.Int.{ℤ, pos, ◌+ℤ◌}
use remote_order_server.Db.{Db, Order, OrderItem}

-- A row of collection_schedule.
pub record Visit : Type 0 where
  pub id : ℕ
  pub day_of_week : Option ℕ
  pub client_id : Option ℕ
  pub status : Text

-- The status of an answer, with the row that a query returned.
pub data Reply : Type 0 where
  created updated : Visit → Reply
  invalid_status missing no_content refused : Reply

abbrev pub planned : Text
planned = codes "planned"

-- ["planned", "in_progress", "done"].includes
unfoldable pub is_status : Text → Bool
is_status t = text_eq t planned || text_eq t (codes "in_progress") || text_eq t (codes "done")

-- CHECK (day_of_week BETWEEN 1 AND 7), of migrations/010_collection_planner.ts, which takes NULL
unfoldable pub is_day : Option ℕ → Bool
is_day none = true
is_day (some day) = leb 1 day && leb day 7

-- REFERENCES "Counterparty"(id), which takes NULL
unfoldable pub is_client : List ℕ → Option ℕ → Bool
is_client counterparties none = true
is_client counterparties (some client) = exists_where (λ c. c == client) counterparties

-- POST /, with the ids of the counterparties and the id that the database generates. What the
-- request's body leaves out is NULL.
unfoldable pub add : List ℕ → ℕ → Option ℕ → Option ℕ → List Visit → Reply × List Visit
add counterparties id day client visits =
    let visit : Visit = record {
      id = id;
      day_of_week = day;
      client_id = client;
      status = planned;
    } in
    if is_day day && is_client counterparties client
    then (created visit, visits ++ visit ∷ [])
    else (refused, visits)

-- UPDATE … WHERE id = $2 RETURNING *
unfoldable pub update_visit : (Visit → Visit) → ℕ → List Visit → Reply × List Visit
update_visit f id visits = elim (find (λ v. v.id == id) visits) [
  | none ↦ (missing, visits)
  | some v ↦ (updated (f v), update_where (λ v. v.id == id) f visits)
]

-- PATCH /:id
unfoldable pub set_status : Text → ℕ → List Visit → Reply × List Visit
set_status t id visits =
    if is_status t
    then update_visit (λ v. record v { status = t }) id visits
    else (invalid_status, visits)

-- PATCH /:id/day; the CHECK is made where a row is set.
unfoldable pub set_day : Option ℕ → ℕ → List Visit → Reply × List Visit
set_day day id visits =
    if is_day day
    then update_visit (λ v. record v { day_of_week = day }) id visits
    else (if exists_where (λ v. v.id == id) visits then refused else missing, visits)

-- DELETE /:id
unfoldable pub remove : ℕ → List Visit → Reply × List Visit
remove id visits = (no_content, delete_where (λ v. v.id == id) visits)

-- SELECT client_id FROM collection_schedule WHERE day_of_week = $1
abbrev pub clients_on_day : ℕ → List Visit → List Visit
clients_on_day day = select (λ v. opt_eq v.day_of_week (some day))

module _ (this_week : ℕ → Bool) (iso_day : ℕ → ℕ) where
  -- An order of this week and of the day.
  unfoldable pub is_current : ℕ → Order → Bool
  is_current day o = this_week o.created_at && iso_day o.created_at == day

  abbrev pub is_scheduled : List Visit → Order → Bool
  is_scheduled clients o = exists_where (λ v. opt_eq o.counterparty_id v.client_id) clients

  -- The orders of the clients of the day, among `current_week_orders`.
  unfoldable pub relevant_orders : ℕ → List Visit → Db → List Order
  relevant_orders day visits db =
      select (λ o. is_current day o && is_scheduled (clients_on_day day visits) o) db.orders

  -- GET /day-summary: the clients, the orders and the quantity of the day.
  unfoldable pub day_summary : ℕ → List Visit → Db → ℕ × ℕ × ℤ
  day_summary day visits db =
      let orders : List Order = relevant_orders day visits db in
      (
        length (clients_on_day day visits),
        length orders,
        sum_by (λ i. i.quantity)
            (select (λ i. exists_where (λ o. o.id == i.order_id) orders) db.order_items),
      )
