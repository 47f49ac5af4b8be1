-- ===== src/Tests/Clients.antt =====
-- Orders that are edited, pushed and synchronised.
use remote_order_server.Common.{Bool, ltb, ◌≡◌, refl, false, true, none, some, List, [], ◌∷◌, map}
use remote_order_server.Common.Int.{pos}
use remote_order_server.Db.{Db, JsonItem}
use remote_order_server.Sync.{
  Change, ChangeData, insert_op, delete_op, push, full, full_changes, run_query, query_of,
  insert_plain, with_data, perform,
}
use remote_order_server.Sync.Push.{kept, push-kept}
use remote_order_server.Sync.Full.{some_failed, full-failed}
use remote_order_server.Tests.{clock, shop}

abbrev item : JsonItem
item = record {
  id = some 7;
  product_id = none;
  quantity = some (pos 2000);
  count = some (pos 3000);
  price = some (pos 15);
  sell_price = none;
}

abbrev pushed : ChangeData
pushed = record {
  counterparty_id = some 41;
  status = none;
  total = some (pos 45);
  items = some (item ∷ []);
  is_deleted = none;
  date = none;
}

abbrev inserts : Change
inserts = record { id = 90; operation = insert_op; data_of = some pushed; is_order_table = false }

-- Nobody is an administrator.
abbrev deletes : Change
deletes = record { id = 30; operation = delete_op; data_of = some pushed; is_order_table = true }

abbrev changes : List Change
changes = inserts ∷ deletes ∷ []

abbrev accepts : Change → Bool
accepts c = ltb c.id 1000

push-kept_example :
    (map (λ r. r.id) (push accepts clock [] 1 changes shop).0 ≡ 90 ∷ 30 ∷ [])
    × ((push accepts clock [] 1
          (kept accepts clock [] 1 (push accepts clock [] 1 changes shop).0 changes)
          shop).1
        ≡ (push accepts clock [] 1 changes shop).1)
push-kept_example = push-kept accepts clock [] 1 changes shop (refl, (refl, tt))

-- The order 30 is there already, so that the second INSERT fails.
abbrev twice : List Change
twice = inserts ∷ record inserts { id = 30 } ∷ []

second_fails : some_failed twice (full clock 1 twice shop).0 ≡ true
unfolding full full_changes run_query query_of insert_plain with_data
second_fails = refl

full-failed_example : (full clock 1 twice shop).1 ≡ shop
full-failed_example = full-failed clock 1 twice shop second_fails

abbrev dated : ChangeData
dated = record pushed { date = some 9 }

abbrev once : Db
once = (perform clock [] 1 90 (some dated) insert_op shop).1
