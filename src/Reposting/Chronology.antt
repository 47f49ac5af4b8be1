-- ===== src/Reposting/Chronology.antt =====
-- The order in which documents are posted again.
use remote_order_server.Common.{
  refl, inl, inr, ◌++◌, if◌then◌else◌, ◌≤◌, ◌<◌, ◌≡◌, true, false, List, [], ◌∷◌, ◌⊎◌, arith, All,
  All-imp, order_by, InOrder, order_by-InOrder, sum_by, sum_by-order_by,
}
use remote_order_server.Common.Int.{ℤ}
use remote_order_server.Db.{Db, Env}
use remote_order_server.Tx.{pure, ◌>>◌}
use remote_order_server.Reposting.{
  DocRow, DocType, Action, RepostOptions, posts_before, type_weight, goods_receipt, price_document,
  buyer_return, realization, work, unposts, posts, for_rows, unpost_row, post_row,
  fetch_realizations, fetch_buyer_returns, fetch_goods_receipts, fetch_price_docs,
}

asym : (a b : DocRow) → posts_before a b ≡ true → posts_before b a ≡ false
unfolding posts_before
asym a b h = ground arith

trans :
    (a b c : DocRow)
    → posts_before b a ≡ false
    → posts_before c b ≡ false
    → posts_before c a ≡ false
unfolding posts_before
trans a b c h k = ground arith

-- The order of the types on one date: receipts, price documents, returns of buyers, realizations.
pub data Earlier : DocType → DocType → Type 0 where
  receipt_prices : Earlier goods_receipt price_document
  receipt_return : Earlier goods_receipt buyer_return
  receipt_sale : Earlier goods_receipt realization
  prices_return : Earlier price_document buyer_return
  prices_sale : Earlier price_document realization
  return_sale : Earlier buyer_return realization

Earlier-of : (s t : DocType) → type_weight s < type_weight t → Earlier s t
Earlier-of goods_receipt goods_receipt h = absurd (omega (arith, h))
Earlier-of goods_receipt price_document h = receipt_prices
Earlier-of goods_receipt buyer_return h = receipt_return
Earlier-of goods_receipt realization h = receipt_sale
Earlier-of price_document goods_receipt h = absurd (omega (arith, h))
Earlier-of price_document price_document h = absurd (omega (arith, h))
Earlier-of price_document buyer_return h = prices_return
Earlier-of price_document realization h = prices_sale
Earlier-of buyer_return goods_receipt h = absurd (omega (arith, h))
Earlier-of buyer_return price_document h = absurd (omega (arith, h))
Earlier-of buyer_return buyer_return h = absurd (omega (arith, h))
Earlier-of buyer_return realization h = return_sale
Earlier-of realization goods_receipt h = absurd (omega (arith, h))
Earlier-of realization price_document h = absurd (omega (arith, h))
Earlier-of realization buyer_return h = absurd (omega (arith, h))
Earlier-of realization realization h = absurd (omega (arith, h))

same_type : (s t : DocType) → type_weight s ≡ type_weight t → s ≡ t
same_type goods_receipt goods_receipt h = refl
same_type goods_receipt price_document h = absurd (omega (arith, h))
same_type goods_receipt buyer_return h = absurd (omega (arith, h))
same_type goods_receipt realization h = absurd (omega (arith, h))
same_type price_document goods_receipt h = absurd (omega (arith, h))
same_type price_document price_document h = refl
same_type price_document buyer_return h = absurd (omega (arith, h))
same_type price_document realization h = absurd (omega (arith, h))
same_type buyer_return goods_receipt h = absurd (omega (arith, h))
same_type buyer_return price_document h = absurd (omega (arith, h))
same_type buyer_return buyer_return h = refl
same_type buyer_return realization h = absurd (omega (arith, h))
same_type realization goods_receipt h = absurd (omega (arith, h))
same_type realization price_document h = absurd (omega (arith, h))
same_type realization buyer_return h = absurd (omega (arith, h))
same_type realization realization h = refl

-- What the order of two rows means.
abbrev pub InTime : DocRow → DocRow → Type 0
InTime a b =
    (a.date < b.date)
    ⊎ ((a.date ≡ b.date) × Earlier a.doc_type b.doc_type)
    ⊎ ((a.date ≡ b.date) × (a.doc_type ≡ b.doc_type) × (a.created_at ≤ b.created_at))

by_weight :
    (a b : DocRow)
    → posts_before b a ≡ false
    → (a.date < b.date)
      ⊎ ((a.date ≡ b.date) × (type_weight a.doc_type < type_weight b.doc_type))
      ⊎ ((a.date ≡ b.date)
          × (type_weight a.doc_type ≡ type_weight b.doc_type)
          × (a.created_at ≤ b.created_at))
unfolding posts_before
by_weight a b h = grind arith

InTime-of : (a b : DocRow) → posts_before b a ≡ false → InTime a b
InTime-of a b h = elim (by_weight a b h) [
  | inl e ↦ inl e
  | inr (inl (e, k)) ↦ inr (inl (e, Earlier-of a.doc_type b.doc_type k))
  | inr (inr (e, k, c)) ↦ inr (inr (e, same_type a.doc_type b.doc_type k, c))
]

abbrev pub AllInTime : List DocRow → Type 0
AllInTime [] = Unit {0}
AllInTime (a ∷ rows) = All (InTime a) rows × AllInTime rows

AllInTime-of : (rows : List DocRow) → InOrder posts_before rows → AllInTime rows
AllInTime-of [] h = tt
AllInTime-of (a ∷ rows) h = (
  All-imp _ _ rows (λ b (k : posts_before b a ≡ false). InTime-of a b k) h.0,
  AllInTime-of rows h.1,
)

-- All rows that the run is about.
abbrev pub fetched : RepostOptions → Action → Db → List DocRow
fetched o a db =
    fetch_realizations o a db
    ++ (fetch_buyer_returns o a db ++ (fetch_goods_receipts o a db ++ fetch_price_docs o a db))

-- The run unposts the documents that it has fetched, if its action unposts, and then posts the same
-- documents, if its action posts: by date; on one date receipts, then price documents, then returns
-- of buyers, then realizations; and of one type by the moment of creation. The sort loses and doubles
-- none: whatever is summed over the rows has the sum of before.
pub posts_in_time :
    (env : Env) (o : RepostOptions) (a : Action) (db : Db)
    → (rows : List DocRow) × (work env o a db
        ≡ ((if unposts a then for_rows unpost_row (fetched o a db) else pure tt)
              >> (if posts a then for_rows (post_row env) rows else pure tt))
            db)
      × AllInTime rows
      × ((w : DocRow → ℤ) → sum_by w rows ≡ sum_by w (fetched o a db))
unfolding work
posts_in_time env o a db =
    let rows : List DocRow = fetched o a db in
    (
      order_by posts_before rows,
      refl,
      AllInTime-of (order_by posts_before rows) (order_by-InOrder posts_before asym trans rows),
      λ w. sum_by-order_by w posts_before rows,
    )
