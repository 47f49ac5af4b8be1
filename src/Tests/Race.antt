-- ===== src/Tests/Race.antt =====
-- Two calls of `post` for one receipt.
use remote_order_server.Common.{ℕ, arith, true, [], ◌∷◌, ◌≡◌, refl, List, ◌+◌, ◌++◌, length}
use remote_order_server.Db.{Item}
use remote_order_server.Tx.{ok, err, already_posted}
use remote_order_server.GoodsReceipt.{items_of}
use remote_order_server.GoodsReceipt.Steps.{new_batches}
use remote_order_server.GoodsReceipt.Race.{
  Turn, of_first, of_second, System, ended, run, in_turn, at_once, both_started, race_doubles,
}
use remote_order_server.GoodsReceipt.Race.Served.{
  run-IsServed, IsServed, HasReturned, IsPostedIf, added,
}
use remote_order_server.Tests.{clock, shop, receipt_6}

race_doubles_example :
    let items : List Item = items_of 6 shop in
    let fair : System = run clock 6 in_turn (both_started shop) in
    let race : System = run clock 6 at_once (both_started shop) in
    (fair.first ≡ ended (ok tt))
    × (fair.second ≡ ended (err already_posted))
    × (fair.db.batches ≡ shop.batches ++ new_batches clock 6 receipt_6.date shop.generated items)
    × (race.first ≡ ended (ok tt))
    × (race.second ≡ ended (ok tt))
    × (race.db.batches
        ≡ shop.batches
          ++ new_batches clock 6 receipt_6.date shop.generated items
          ++ new_batches clock 6 receipt_6.date (shop.generated + length items) items)
race_doubles_example = race_doubles clock 6 receipt_6 shop refl refl

-- The second call reads and writes between the two steps of the first.
abbrev between : List Turn
between = of_first ∷ of_second ∷ of_second ∷ of_first ∷ []

run-IsServed_example :
    let s : System = run clock 6 between (both_started shop) in
    let n : ℕ = length (items_of 6 shop) in
    IsServed s.first
    × IsServed s.second
    × HasReturned s.first s.second
    × IsPostedIf 6 true s.db
    × (length s.db.batches ≡ length shop.batches + added n s.first + added n s.second)
run-IsServed_example =
    run-IsServed clock 6 receipt_6 shop between refl refl (omega arith) (omega arith)
