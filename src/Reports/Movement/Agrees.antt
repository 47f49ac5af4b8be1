-- ===== src/Reports/Movement/Agrees.antt =====
-- The movement of a product and the stock report of its last day.
use remote_order_server.Common.{
  find-none_All, ℕ, suc, ◌≤◌, ◌≡◌, sym, ap, ap₂, subst, ◌∙◌, Bool, true, false, ◌&&◌, Option, none,
  some, List, map, ◌==◌, if◌then◌else◌, ==_iff, find, select, sum_by, sum_by-select, sum_by-append,
  sum_by-map, sum_by_congr, sum_by_sub, sum_by_add, sum_by_zero, All, All-imp, arith, Bool-cases,
  Option-cases, if_same, inl, inr, ltb, same_opt-some, find-holds,
}
use remote_order_server.Common.Int.{ℤ, pos, ◌+ℤ◌, ◌-ℤ◌, int_laws, parts_of_eq}
use remote_order_server.Db.{Db, ProductBatch, ItemBatch, Deduction}
use remote_order_server.Inventory.{batch_warehouse}
use remote_order_server.Inventory.Spread.{spread, taken-spread, TakesOf, spread_unique}
use remote_order_server.Inventory.Stock.{UniqueIds}
use remote_order_server.Inventory.Totals.{taken}
use remote_order_server.Reports.{midnight}
use remote_order_server.Reports.Periods.{all_of}
use remote_order_server.Reports.Stock.{
  LinkDoc, batch_date, sale_of, return_of, went_before, gone, incoming, outgoing, stock_balances,
}
use remote_order_server.Reports.Stock.Rows.{named, is_batch_of, named-group_rows, named-having}
use remote_order_server.Reports.Movement.{
  Kind, sale, supplier_return, Event, joined, is_stored, arrival, departure, arrivals, departures,
  start_sum, turnover,
}
use remote_order_server.Reports.Movement.Meets.{moved, start_sum-before, sums_close}
use remote_order_server.Reports.Movement.Joined.{
  if_found, sum_by-joined, find-All, inside, nested, in_order, outside, split_row,
}

module _ (db : Db) (p w to : ℕ) where
  abbrev end : ℕ
  end = midnight (suc to)

  abbrev mine : ProductBatch → Bool
  mine = is_batch_of db p (some w)

  -- The weight of an event in the sums.
  abbrev early : Event → ℤ
  early e = if ltb e.date end then moved p e else pos 0

  mine-stored : (b : ProductBatch) → mine b ≡ (b.product_id == p && is_stored db w b)
  mine-stored b =
      ap (λ c. b.product_id == p && c)
        (same_opt-some (batch_warehouse db.goods_receipts db.buyer_returns b) w)

  arrival-early :
      (b : ProductBatch)
      → if_found early (arrival db w b) ≡ (if mine b then incoming db to b else pos 0)
  unfolding arrival incoming
  arrival-early b = elim (Bool-cases (is_stored db w b)) [
    | inr e ↦
        rw (arrival, e, mine-stored b, e) (sym (outside (b.product_id == p) (incoming db to b)))
    | inl e ↦ elim (Option-cases (batch_date db b)) [
      | inl f ↦
          rw (arrival, e, f, mine-stored b, e) (sym (if_same (b.product_id == p && true) (pos 0)))
      | inr (d, f) ↦
          rw (arrival, e, f, mine-stored b, e)
            (inside (ltb d end) (b.product_id == p) b.quantity_total)
    ]
  ]

  -- The document of a link, if it is there, is posted.
  abbrev pub IsDone : Option LinkDoc → Type 0
  IsDone none = Unit
  IsDone (some d) = d.is_done ≡ true

  spread-other :
      (b : ProductBatch) (i : ℕ)
      → (b.id == i) ≡ false
      → (n : ℤ) → (if mine b then (if i == b.id then n else pos 0) else pos 0) ≡ pos 0
  spread-other b i h n =
      let other : (i == b.id) ≡ false = ground arith in rw other (if_same (mine b) (pos 0))

  of_batch :
      (k : Kind) (doc_of : ItemBatch → Option LinkDoc) (l : ItemBatch) (b : ProductBatch)
      → find (λ x. x.id == l.deduction.batch_id) db.batches ≡ some b
      → IsDone (doc_of l)
      → if_found early (departure k doc_of db w l) ≡ (
          if went_before end (doc_of l)
          then (if mine b then l.deduction.quantity else pos 0)
          else pos 0)
  unfolding departure
  of_batch k doc_of l b f done = elim (Bool-cases (is_stored db w b)) [
    | inr e ↦ rw (departure, f, e, mine-stored b, e, outside, if_same)
    | inl e ↦ elim (Option-cases (doc_of l)) [
      | inl g ↦ rw (departure, f, e, g)
      | inr (d, g) ↦
          let posted : d.is_done ≡ true = subst IsDone g done in
          rw (departure, f, e, g, mine-stored b, e, posted)
            (in_order (ltb d.date end) (b.product_id == p) l.deduction.quantity)
    ]
  ]

  departure-early :
      (k : Kind) (doc_of : ItemBatch → Option LinkDoc) (l : ItemBatch)
      → UniqueIds db.batches
      → IsDone (doc_of l)
      → if_found early (departure k doc_of db w l) ≡ (
          if went_before end (doc_of l)
          then spread mine db.batches l.deduction.batch_id l.deduction.quantity
          else pos 0)
  unfolding departure
  departure-early k doc_of l u done =
      let i : ℕ = l.deduction.batch_id in
      elim (Option-cases (find (λ b. b.id == i) db.batches)) [
        | inl f ↦
            let absent : spread mine db.batches i l.deduction.quantity ≡ pos 0 =
              sum_by_zero _ db.batches (
                All-imp _ _ db.batches
                  (λ b (n : (b.id == i) ≡ false). spread-other b i n l.deduction.quantity)
                  (find-none_All _ db.batches f)) in
            rw (departure, f, absent, if_same)
        | inr (b, f) ↦
            let own : b.id ≡ i = (==_iff b.id i).0 (find-holds (λ x. x.id == i) db.batches f) in
            let takes : spread mine db.batches b.id l.deduction.quantity
                ≡ (if mine b then l.deduction.quantity else pos 0) =
              find-All (λ x. TakesOf mine db.batches (mine x) x.id) _ db.batches f
                (spread_unique mine db.batches u) l.deduction.quantity in
            let takes_i : spread mine db.batches i l.deduction.quantity
                ≡ (if mine b then l.deduction.quantity else pos 0) =
              subst
                (λ j.
                  spread mine db.batches j l.deduction.quantity
                  ≡ (if mine b then l.deduction.quantity else pos 0))
                own takes in
            rw takes_i (of_batch k doc_of l b f done)
      ]

  gone-taken :
      (doc_of : ItemBatch → Option LinkDoc) (links : List ItemBatch) (i : ℕ)
      → gone doc_of end links i
        ≡ taken i (map (λ l. l.deduction) (select (λ l. went_before end (doc_of l)) links))
  gone-taken doc_of links i =
      sum_by-select _ _ links
      ∙ sum_by_congr _ _ links (
          all_of _ links (λ l.
            sym (
              nested (went_before end (doc_of l)) (l.deduction.batch_id == i)
                l.deduction.quantity)))
      ∙ sym (
          sum_by-map _ (λ (l : ItemBatch). l.deduction)
            (select (λ l. went_before end (doc_of l)) links)
          ∙ sum_by-select _ _ links)

  departures-early :
      (k : Kind) (doc_of : ItemBatch → Option LinkDoc) (links : List ItemBatch)
      → UniqueIds db.batches
      → All (λ l. IsDone (doc_of l)) links
      → sum_by early (joined (departure k doc_of db w) links)
        ≡ sum_by (λ b. if mine b then gone doc_of end links b.id else pos 0) db.batches
  departures-early k doc_of links u done =
      let ds : List Deduction =
        map (λ l. l.deduction) (select (λ l. went_before end (doc_of l)) links) in
      sum_by-joined (departure k doc_of db w) early links
      ∙ sum_by_congr _ _ links
          (All-imp _ _ links (λ l (e : IsDone (doc_of l)). departure-early k doc_of l u e) done)
      ∙ sym (
          sum_by_congr _ _ db.batches (
            all_of _ db.batches
              (λ b. ap (λ n. if mine b then n else pos 0) (gone-taken doc_of links b.id)))
          ∙ taken-spread mine ds db.batches
          ∙ sum_by-map _ (λ (l : ItemBatch). l.deduction)
              (select (λ l. went_before end (doc_of l)) links)
          ∙ sum_by-select _ _ links)

  abbrev of_mine : (ProductBatch → ℤ) → ProductBatch → ℤ
  of_mine v b = if mine b then v b else pos 0

  abbrev sold_of : ProductBatch → ℤ
  sold_of b = gone (sale_of db) end db.realization_item_batches b.id

  abbrev sent_of : ProductBatch → ℤ
  sent_of b = gone (return_of db) end db.supplier_return_item_batches b.id

  arrived : start_sum p (suc to) (arrivals w db) ≡ sum_by (of_mine (incoming db to)) db.batches
  unfolding arrivals
  arrived =
      start_sum-before p (suc to) (arrivals w db)
      ∙ sum_by-joined (arrival db w) early db.batches
      ∙ sum_by_congr _ _ db.batches (all_of _ db.batches arrival-early)

  departed :
      UniqueIds db.batches
      → All (λ l. IsDone (sale_of db l)) db.realization_item_batches
      → All (λ l. IsDone (return_of db l)) db.supplier_return_item_batches
      → start_sum p (suc to) (departures w db)
        ≡ sum_by (of_mine sold_of) db.batches +ℤ sum_by (of_mine sent_of) db.batches
  unfolding departures
  departed u sold sent =
      start_sum-before p (suc to) (departures w db)
      ∙ sum_by-append early (joined (departure sale (sale_of db) db w) db.realization_item_batches)
          _
      ∙ ap₂ ◌+ℤ◌ (departures-early sale (sale_of db) db.realization_item_batches u sold)
          (departures-early supplier_return (return_of db) db.supplier_return_item_batches u sent)

  shown :
      sum_by (named p (some w)) (stock_balances (some w) to db)
      ≡ sum_by (of_mine (incoming db to)) db.batches
        -ℤ (sum_by (of_mine sold_of) db.batches +ℤ sum_by (of_mine sent_of) db.batches)
  unfolding stock_balances outgoing
  shown =
      named-having p (some w) _
      ∙ named-group_rows db to p (some w) _
      ∙ sum_by-select _ _ db.batches
      ∙ sum_by_congr _ _ db.batches (
          all_of _ db.batches (λ b. rw (mine-stored b) (
            split_row (b.product_id == p) (is_stored db w b) (incoming db to b) (sold_of b)
              (sent_of b))))
      ∙ sum_by_sub _ _ db.batches
      ∙ ap (λ n. sum_by (of_mine (incoming db to)) db.batches -ℤ n) (sum_by_add _ _ db.batches)

  -- The closing quantity of GET /inventory-movement for a product is what GET /stock-balances of the
  -- last day names for the product in the warehouse, if no two batches have one id, every document
  -- of a link is posted, and the period does not end before it begins.
  pub turnover-stock :
      (from : ℕ)
      → from ≤ suc to
      → UniqueIds db.batches
      → All (λ l. IsDone (sale_of db l)) db.realization_item_batches
      → All (λ l. IsDone (return_of db l)) db.supplier_return_item_batches
      → (turnover from to w db p).closing
        ≡ sum_by (named p (some w)) (stock_balances (some w) to db)
  unfolding turnover
  turnover-stock from o u sold sent = omega (
    int_laws,
    parts_of_eq (sums_close p from to (arrivals w db) o),
    parts_of_eq (sums_close p from to (departures w db) o),
    parts_of_eq arrived,
    parts_of_eq (departed u sold sent),
    parts_of_eq shown,
  )
