-- ===== src/Reposting.antt =====
-- services/documentRepostingService.ts
pub mod Release
pub mod Journal
pub mod Chronology
use remote_order_server.Common.{
  ℕ, ◌+◌, Bool, true, false, not, ◌&&◌, ◌||◌, Option, none, some, List, [], ◌∷◌, ◌++◌, map, ◌==◌,
  ltb, leb, if◌then◌else◌, find, select, delete_where, update_where, order_by, Text, codes, text_eq,
}
use remote_order_server.Db.{Db, Env, Status, draft, saved, posted, applied, Lock, PriceEntry}
use remote_order_server.Tx.{
  Tx, Result, ok, err, pure, throw, gets, modify, settle, ◌>>=◌, ◌>>◌, system_locked, in_document,
}
use remote_order_server.Realization
use remote_order_server.BuyerReturn
use remote_order_server.GoodsReceipt
use remote_order_server.Pricing
use remote_order_server.Pricing.{applied_reason}

pub data DocType : Type 0 where
  realization buyer_return goods_receipt price_document : DocType

pub data Action : Type 0 where
  repost post unpost : Action

-- `RepostOptions`; the end date is the moment at which its day begins.
pub record RepostOptions : Type 0 where
  pub start_date : Option ℕ
  pub end_date : Option ℕ
  pub types : List DocType
  pub action : Option Action

-- A row that the service fetches.
pub record DocRow : Type 0 where
  pub doc_type : DocType
  pub id : ℕ
  pub date : ℕ
  pub created_at : ℕ

abbrev pub type_weight : DocType → ℕ
type_weight goods_receipt = 1
type_weight price_document = 2
type_weight buyer_return = 3
type_weight realization = 4

abbrev pub includes : List DocType → DocType → Bool
includes [] t = false
includes (u ∷ types) t = type_weight u == type_weight t || includes types t

-- No types, or an empty list, stand for all.
unfoldable pub include_type : RepostOptions → DocType → Bool
include_type o t = elim o.types [ [] ↦ true | u ∷ types ↦ includes (u ∷ types) t ]

-- date >= startDate, and date <= `${endDate} 23:59:59`
unfoldable pub in_dates : RepostOptions → ℕ → Bool
in_dates o date =
    elim o.start_date [ none ↦ true | some s ↦ leb s date ]
    && elim o.end_date [ none ↦ true | some e ↦ leb date (e + 86399000) ]

-- ORDER BY date DESC, "createdAt" DESC
unfoldable pub newest_first : List DocRow → List DocRow
newest_first =
    order_by (λ a b. ltb b.date a.date || b.date == a.date && ltb b.created_at a.created_at)

abbrev pub is_status : Status → Status → Bool
is_status draft draft = true
is_status saved saved = true
is_status posted posted = true
is_status applied applied = true
is_status _ _ = false

-- The statuses that the queries look for.
abbrev pub doc_status : Action → Status
doc_status post = draft
doc_status _ = posted

abbrev pub receipt_status : Action → Status
receipt_status post = saved
receipt_status _ = posted

abbrev pub price_status : Action → Status
price_status post = draft
price_status _ = applied

module _ (o : RepostOptions) (a : Action) (db : Db) where
  unfoldable pub fetch_realizations : List DocRow
  unfolding include_type in_dates newest_first
  fetch_realizations =
      if include_type o realization
      then newest_first (
          map
            (λ r. record {
              doc_type = realization;
              id = r.id;
              date = r.date;
              created_at = r.created_at;
            })
            (select
              (λ r. is_status r.status (doc_status a) && not r.is_deleted && in_dates o r.date)
              db.realizations))
      else []

  unfoldable pub fetch_buyer_returns : List DocRow
  unfolding include_type in_dates newest_first
  fetch_buyer_returns =
      if include_type o buyer_return
      then newest_first (
          map
            (λ r. record {
              doc_type = buyer_return;
              id = r.id;
              date = r.date;
              created_at = r.created_at;
            })
            (select (λ r. is_status r.status (doc_status a) && in_dates o r.date) db.buyer_returns))
      else []

  unfoldable pub fetch_goods_receipts : List DocRow
  unfolding include_type in_dates newest_first
  fetch_goods_receipts =
      if include_type o goods_receipt
      then newest_first (
          map
            (λ r. record {
              doc_type = goods_receipt;
              id = r.id;
              date = r.date;
              created_at = r.created_at;
            })
            (select
              (λ r. is_status r.status (receipt_status a) && not r.is_deleted && in_dates o r.date)
              db.goods_receipts))
      else []

  unfoldable pub fetch_price_docs : List DocRow
  unfolding include_type in_dates newest_first
  fetch_price_docs =
      if include_type o price_document
      then newest_first (
          map
            (λ r. record {
              doc_type = price_document;
              id = r.id;
              date = r.date;
              created_at = r.created_at;
            })
            (select (λ r. is_status r.status (price_status a) && in_dates o r.date)
              db.price_documents))
      else []

-- The catch of a loop: the error is thrown on with the document's name.
abbrev pub labelled : {A : Type 0} → Result A × Db → Result A × Db
labelled (ok a, db) = (ok a, db)
labelled (err e, db) = (err (in_document e), db)

abbrev pub applied_at : ℕ → PriceEntry → Bool
applied_at date e = elim e.reason [
  | none ↦ false
  | some r ↦ text_eq r applied_reason && e.created_at == date
]

-- The reset of a price document.
unfoldable pub reset_price_doc : DocRow → Tx (Unit {0})
reset_price_doc row = modify (λ db. record db {
  price_journal = delete_where (applied_at row.created_at) db.price_journal;
  price_documents =
      update_where (λ d. d.id == row.id) (λ d. record d { status = draft }) db.price_documents;
})

unfoldable pub unpost_row : DocRow → Tx (Unit {0})
unpost_row row = elim row.doc_type [
  | realization ↦ Realization.unpost row.id true
  | buyer_return ↦ BuyerReturn.unpost row.id true
  | goods_receipt ↦ GoodsReceipt.unpost row.id true
  | price_document ↦ reset_price_doc row
]

unfoldable pub post_row : Env → DocRow → Tx (Unit {0})
post_row env row = elim row.doc_type [
  | realization ↦ (Realization.post env row.id true >> pure tt)
  | buyer_return ↦ BuyerReturn.post env row.id true
  | goods_receipt ↦ GoodsReceipt.post env row.id true
  | price_document ↦ Pricing.apply row.id true
]

unfoldable pub for_rows : (DocRow → Tx (Unit {0})) → List DocRow → Tx (Unit {0})
for_rows f [] = pure tt
for_rows f (row ∷ rows) = (λ db. labelled (f row db)) >> for_rows f rows

-- The comparison of `toPost.sort`: whether `a` has to come before `b`.
unfoldable pub posts_before : DocRow → DocRow → Bool
posts_before a b =
    ltb a.date b.date
    || a.date == b.date
      && (ltb (type_weight a.doc_type) (type_weight b.doc_type)
          || type_weight a.doc_type == type_weight b.doc_type && ltb a.created_at b.created_at)

abbrev pub unposts : Action → Bool
unposts post = false
unposts _ = true

abbrev pub posts : Action → Bool
posts unpost = false
posts _ = true

-- The work inside the global transaction. All rows are fetched before the first phase.
unfoldable pub work : Env → RepostOptions → Action → Tx (Unit {0})
work env o a = do
  realizations ← gets (fetch_realizations o a)
  buyer_returns ← gets (fetch_buyer_returns o a)
  goods_receipts ← gets (fetch_goods_receipts o a)
  price_docs ← gets (fetch_price_docs o a)
  let rows = realizations ++ (buyer_returns ++ (goods_receipts ++ price_docs))
  if unposts a then for_rows unpost_row rows else pure tt
  if posts a then for_rows (post_row env) (order_by posts_before rows) else pure tt

abbrev pub lock_reason : Text
lock_reason = codes "Bulk document reposting"

-- UPDATE "DocumentLock" … WHERE id = 'document_operations'; without the row nothing changes.
abbrev pub set_lock : Bool → Option ℕ → Option Text → Db → Db
set_lock locked by_user reason db = record db {
  lock = elim db.lock [
    | none ↦ none
    | some l ↦ some (record { is_locked = locked; locked_by = by_user; reason = reason })
  ];
}

abbrev pub is_held : Db → Bool
is_held db = elim db.lock [ none ↦ false | some l ↦ l.is_locked ]

-- The `try` and the `catch`: the lock is taken outside the transaction, and an error rolls the
-- transaction back.
unfoldable pub attempt : Env → Option ℕ → RepostOptions → Tx (Unit {0})
attempt env user o db =
    let locked : Db = set_lock true user (some lock_reason) db in
    let a : Action = elim o.action [ none ↦ repost | some a ↦ a ] in
    if is_held db then (err system_locked, db) else settle locked (work env o a locked)

-- The `finally`: the lock is released, however the attempt ended.
unfoldable pub run : Env → Option ℕ → RepostOptions → Tx (Unit {0})
run env user o db = let (r, after) = attempt env user o db in (r, set_lock false none none after)
