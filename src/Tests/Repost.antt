-- ===== src/Tests/Repost.antt =====
-- Bulk reposting: a run that fails, a run on a locked system, the order, and the price journal.
use remote_order_server.Common.{
  if◌then◌else◌, ℕ, ◌≡◌, refl, true, false, none, some, List, [], ◌∷◌, ◌++◌, arith, codes, order_by,
  sum_by, delete_where,
}
use remote_order_server.Common.Int.{ℤ, pos}
use remote_order_server.Db.{Db}
use remote_order_server.Tx.{
  err, pure, ◌>>◌, system_locked, in_document, insufficient_stock, by_name,
}
use remote_order_server.Inventory.{
  deduct_loop_by, deduct_stock_by, available_batches, product_label,
}
use remote_order_server.Realization
use remote_order_server.Pricing.{apply_item}
use remote_order_server.Reposting.{
  unposts, posts, unpost_row, post, RepostOptions, DocRow, DocType, run, attempt, work, for_rows,
  post_row, fetch_realizations, fetch_buyer_returns, fetch_goods_receipts, fetch_price_docs,
  posts_before, set_lock, is_held, price_document, applied_at, reset_price_doc,
}
use remote_order_server.Reposting.Release.{run-err, run-locked}
use remote_order_server.Reposting.Chronology.{posts_in_time, AllInTime, fetched}
use remote_order_server.Reposting.Journal.{apply-reset, applied_entry}
use remote_order_server.Tests.{clock, shop, price_doc, price_item, product_7}

abbrev post_all : RepostOptions
post_all = record { start_date = none; end_date = none; types = []; action = some post }

-- Without batches the realization cannot be posted.
abbrev poor : Db
poor = record shop { batches = [] }

abbrev poor_after : Db
poor_after = (run clock (some 2) post_all poor).1

poor_fails : run clock (some 2) post_all poor ≡ (
  err (in_document (insufficient_stock (by_name (codes "tea")) (pos 6000) (pos 6000))),
  poor_after,
)
unfolding run attempt work for_rows post_row fetch_realizations fetch_buyer_returns
    fetch_goods_receipts fetch_price_docs posts_before Realization.post Realization.post_body
    Realization.post_doc Realization.post_items deduct_stock_by deduct_loop_by available_batches
    product_label order_by
poor_fails = refl

run-err_example : poor_after ≡ set_lock false none none poor
run-err_example = run-err clock (some 2) post_all poor poor_fails

abbrev busy : Db
busy = record shop {
  lock = some (record { is_locked = true; locked_by = some 3; reason = some (codes "Bulk") });
}

run-locked_example :
    (run clock none post_all busy ≡ (err system_locked, set_lock false none none busy))
    × (is_held (run clock none post_all busy).1 ≡ false)
run-locked_example = run-locked clock none post_all busy refl

abbrev row_of : DocType → ℕ → ℕ → DocRow
row_of kind id date = record { doc_type = kind; id = id; date = date; created_at = 8 }

posts_in_time_example :
    (rows : List DocRow) × (work clock post_all post shop
      ≡ ((if unposts post then for_rows unpost_row (fetched post_all post shop) else pure tt)
            >> (if posts post then for_rows (post_row clock) rows else pure tt))
          shop)
    × AllInTime rows
    × ((w : DocRow → ℤ) → sum_by w rows ≡ sum_by w (fetched post_all post shop))
posts_in_time_example = posts_in_time clock post_all post shop

apply-reset_example :
    (reset_price_doc
      (row_of price_document 60 4)
      (apply_item price_doc (codes "retail") price_item shop).1).1.price_journal
    ≡ delete_where (applied_at 8) shop.price_journal
      ++ applied_entry price_doc (codes "retail") price_item product_7 ∷ []
apply-reset_example =
    apply-reset price_doc (codes "retail") price_item (row_of price_document 60 4) shop refl
      (λ e. omega arith)
