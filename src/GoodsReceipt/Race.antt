-- ===== src/GoodsReceipt/Race.antt =====
-- Two calls of `post` of services/goodsReceiptService.ts at once. A call reads the document, without
-- FOR UPDATE and before BEGIN, and writes in its transaction; what the transaction writes is seen by
-- the others when it commits, so that it is one step here.
pub mod Served
use remote_order_server.Common.{
  ℕ, ◌+◌, ◌≡◌, refl, ◌∙◌, false, none, some, List, [], ◌∷◌, ◌++◌, arith, length, find, ◌==◌,
  if◌then◌else◌, find-update_where, Bool-cases, Option-cases, inl, inr,
}
use remote_order_server.Db.{Db, Env, Item, GoodsReceipt, posted}
use remote_order_server.Tx.{Result, ok, err, settle, not_found, already_posted}
use remote_order_server.Realization.{is_posted}
use remote_order_server.GoodsReceipt.{post, post_doc, items_of}
use remote_order_server.GoodsReceipt.Steps.{new_batches, received, stock_items-eq, post_body_cases}

-- Where a call stands.
pub data Phase : Type 0 where
  started : Phase
  checked : GoodsReceipt → Phase
  ended : Result (Unit {0}) → Phase

-- Before BEGIN: the SELECT, and the two checks.
unfoldable pub check : ℕ → Db → Phase
check id db = elim (find (λ r. r.id == id) db.goods_receipts) [
  | none ↦ ended (err not_found)
  | some doc ↦ if is_posted doc.status then ended (err already_posted) else checked doc
]

-- From BEGIN to COMMIT, or ROLLBACK.
unfoldable pub write : Env → ℕ → GoodsReceipt → Db → Phase × Db
write env id doc db = let (r, db') = settle db (post_doc env id doc db) in (ended r, db')

-- The next step of a call.
unfoldable pub advance : Env → ℕ → Phase → Db → Phase × Db
advance env id started db = (check id db, db)
advance env id (checked doc) db = write env id doc db
advance env id (ended r) db = (ended r, db)

pub record System : Type 0 where
  pub first : Phase
  pub second : Phase
  pub db : Db

pub data Turn : Type 0 where
  of_first of_second : Turn

unfoldable pub turn : Env → ℕ → Turn → System → System
turn env id of_first s =
    let (p, db') = advance env id s.first s.db in record s { first = p; db = db' }
turn env id of_second s =
    let (p, db') = advance env id s.second s.db in record s { second = p; db = db' }

unfoldable pub run : Env → ℕ → List Turn → System → System
run env id [] s = s
run env id (t ∷ ts) s = run env id ts (turn env id t s)

abbrev pub both_started : Db → System
both_started db = record { first = started; second = started; db = db }

abbrev pub in_turn : List Turn
in_turn = of_first ∷ of_first ∷ of_second ∷ of_second ∷ []

abbrev pub at_once : List Turn
at_once = of_first ∷ of_second ∷ of_first ∷ of_second ∷ []

module _ (env : Env) (id : ℕ) (doc : GoodsReceipt) where
  write-received : (db : Db) → write env id doc db ≡ (ended (ok tt), received env id doc db)
  unfolding write post_doc
  write-received db = ground (arith, stock_items-eq env id doc.date (items_of id db) db)

  check-found :
      (db : Db)
      → find (λ r. r.id == id) db.goods_receipts ≡ some doc
      → check id db ≡ (if is_posted doc.status then ended (err already_posted) else checked doc)
  unfolding check
  check-found db f = ground arith

  check-received :
      (db : Db)
      → find (λ r. r.id == id) db.goods_receipts ≡ some doc
      → check id (received env id doc db) ≡ ended (err already_posted)
  unfolding check
  check-received db f = rw (
    check,
    find-update_where (λ r. r.id == id) (λ r. record r { status = posted }) db.goods_receipts
        (λ r e. e),
    f,
  )

  check-checked :
      (db : Db)
      → find (λ r. r.id == id) db.goods_receipts ≡ some doc
      → is_posted doc.status ≡ false
      → check id db ≡ checked doc
  check-checked db f d = check-found db f ∙ rw d

  run-in_turn :
      (db : Db)
      → find (λ r. r.id == id) db.goods_receipts ≡ some doc
      → is_posted doc.status ≡ false
      → run env id in_turn (both_started db) ≡ record {
        first = ended (ok tt);
        second = ended (err already_posted);
        db = received env id doc db;
      }
  unfolding run turn advance
  run-in_turn db f d = rw (check-checked db f d, write-received db, check-received db f)

  run-at_once :
      (db : Db)
      → find (λ r. r.id == id) db.goods_receipts ≡ some doc
      → is_posted doc.status ≡ false
      → run env id at_once (both_started db) ≡ record {
        first = ended (ok tt);
        second = ended (ok tt);
        db = received env id doc (received env id doc db);
      }
  unfolding run turn advance
  run-at_once db f d =
      rw (check-checked db f d, write-received db, write-received (received env id doc db))

  -- Of two calls of `post` for a receipt that is found and not posted, that take turns, the second is
  -- refused, and the receipt's batches are added once. If both read the document before either
  -- writes, both return, and the batches are added twice.
  pub race_doubles :
      (db : Db)
      → find (λ r. r.id == id) db.goods_receipts ≡ some doc
      → is_posted doc.status ≡ false
      → let items : List Item = items_of id db in
        let fair : System = run env id in_turn (both_started db) in
        let race : System = run env id at_once (both_started db) in
        (fair.first ≡ ended (ok tt))
        × (fair.second ≡ ended (err already_posted))
        × (fair.db.batches ≡ db.batches ++ new_batches env id doc.date db.generated items)
        × (race.first ≡ ended (ok tt))
        × (race.second ≡ ended (ok tt))
        × (race.db.batches
            ≡ db.batches
              ++ new_batches env id doc.date db.generated items
              ++ new_batches env id doc.date (db.generated + length items) items)
  race_doubles db f d =
      rw (run-in_turn db f d, run-at_once db f d) (refl, refl, refl, refl, refl, refl)

-- A call that nothing interrupts does what `post` does in a transaction of its own.
alone-post :
    (env : Env) (id : ℕ) (db : Db) (other : Phase)
    → let s : System =
        run env id
          (of_first ∷ of_first ∷ [])
          (record { first = started; second = other; db = db }) in
      (s.first ≡ ended (post env id false db).0) × (s.db ≡ (post env id false db).1)
unfolding run turn advance post check
alone-post env id db other = elim (Option-cases (find (λ r. r.id == id) db.goods_receipts)) [
  | inl f ↦ rw ((post_body_cases env id db).0 f, check, f) (refl, refl)
  | inr (doc, f) ↦ elim (Bool-cases (is_posted doc.status)) [
    | inl d ↦ rw (((post_body_cases env id db).1 doc f).0 d, check, f, d) (refl, refl)
    | inr d ↦
        rw
          (
            ((post_body_cases env id db).1 doc f).1 d,
            check-checked env id doc db f d,
            write-received env id doc db,
          )
          (refl, refl)
  ]
]
