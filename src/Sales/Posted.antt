-- ===== src/Sales/Posted.antt =====
-- The routes of realizations leave what is posted alone.
use remote_order_server.Common.{
  ℕ, suc, ◌≡◌, ◌≢◌, refl, subst, ap₂, ◌∙◌, true, false, Option, none, some, List, [], ◌∷◌, ◌++◌,
  arith, get_or, ◌==◌, find, select, Option-cases, Bool-cases, inl, inr, select-append, find-append,
  find-update_other, select-delete_other, map,
}
use mathlib.Core.List.{append-nil}
use remote_order_server.Db.{Db, Env, Item, Realization}
use remote_order_server.Sales.Steps.{guarded, guarded_cases}
use remote_order_server.Tx.{
  Tx, Error, Result, ok, err, settle, cannot_edit_posted, cannot_delete_posted, or_throw, pure,
  not_found, rejected, ◌>>=◌, ◌>>◌,
}
use remote_order_server.Caller.{Caller}
use remote_order_server.Realization.{is_posted, set_order_status}
use remote_order_server.Realization.Body.{items_of}
use remote_order_server.Sales.{
  SaleItem, SaleData, ItemRequest, row_of, insert_item, insert_items, insert_header, create_body,
  create, from_order_body, from_order, set_header, update_sale, replace_items, edit_body, edit,
  delete_body, delete, of_request, order_lines, insert_sale, sale_of_request, insert_ordered,
  sale_of_order,
}

-- A request that changes realizations without posting them.
pub data SaleRequest : Type 0 where
  creates : Option Caller → SaleData → SaleRequest
  orders : Option Caller → ℕ → SaleRequest
  edits : ℕ → SaleData → SaleRequest
  deletes : ℕ → SaleRequest

-- The tables after a request, and after several.
abbrev pub serve : Env → SaleRequest → Db → Db
serve env (creates user d) db = (create env user d db).1
serve env (orders user id) db = (from_order env user id db).1
serve env (edits id d) db = (edit env id d db).1
serve env (deletes id) db = (delete id db).1

abbrev pub serve_all : Env → List SaleRequest → Db → Db
serve_all env [] db = db
serve_all env (q ∷ qs) db = serve_all env qs (serve env q db)

module _ (j : ℕ) (r : Realization) (items : List Item) where
  -- The document `j` is the row `r` with these items.
  abbrev pub Holds : Db → Type 0
  Holds db = (find (λ s. s.id == j) db.realizations ≡ some r) × (items_of j db ≡ items)

  other_id : (id i : ℕ) → id ≢ j → (i == id) ≡ true → (i == j) ≡ false
  other_id id i ne e = ground arith

  row_other :
      (id doc_id order : ℕ) (i : SaleItem) {row : Item}
      → doc_id ≢ j
      → row_of id doc_id order i.product_id i.quantity i.price i.total ≡ some row
      → select (λ x. x.doc_id == j) (row ∷ []) ≡ []
  unfolding row_of
  row_other id doc_id order i ne e = ground arith

  insert_item-Holds :
      (env : Env) (doc_id order : ℕ) (i : SaleItem) (db : Db)
      → doc_id ≢ j
      → Holds db
      → Holds (insert_item env doc_id order i db).1
  unfolding insert_item
  insert_item-Holds env doc_id order i db ne h =
      elim (Option-cases
        (row_of (env.uuid db.generated) doc_id order i.product_id i.quantity i.price i.total)) [
          | inl e ↦ rw (insert_item, e) h
          | inr (row, e) ↦
              rw (insert_item, e)
                (
                  h.0,
                  select-append (λ x. x.doc_id == j) db.realization_items (row ∷ [])
                      ∙ ap₂ ◌++◌ h.1 (row_other (env.uuid db.generated) doc_id order i ne e)
                      ∙ append-nil items,
                )
        ]

  settle-Holds :
      {A : Type 0} (db : Db) (m : Result A × Db) → Holds db → Holds m.1 → Holds (settle db m).1
  settle-Holds db (ok a, after) h k = k
  settle-Holds db (err e, after) h k = h

  >>=-Holds :
      {A B : Type 0} (m : Tx A) (f : A → Tx B) (db : Db)
      → Holds (m db).1
      → ((a : A) (mid : Db) → Holds mid → Holds (f a mid).1)
      → Holds ((m >>= f) db).1
  >>=-Holds {A} {B} m f db h k = go (m db) h
    where
      go :
          (x : Result A × Db)
          → Holds x.1
          → Holds (elim x.0 as (λ _. Result B × Db) [ ok a ↦ f a x.1 | err e ↦ (err e, x.1) ]).1
      go (ok a, mid) h = k a mid h
      go (err e, mid) h = h

  or_throw-Holds :
      {A : Type 0} (o : Option A) (e : Error) (db : Db) → Holds db → Holds (or_throw o e db).1
  or_throw-Holds none e db h = h
  or_throw-Holds (some a) e db h = h

  insert_items-Holds :
      (env : Env) (doc_id order : ℕ) (is : List SaleItem) (db : Db)
      → doc_id ≢ j
      → Holds db
      → Holds (insert_items env doc_id order is db).1
  unfolding insert_items
  insert_items-Holds env doc_id order [] db ne h = h
  insert_items-Holds env doc_id order (i ∷ is) db ne h =
      >>=-Holds (insert_item env doc_id order i) (λ _. insert_items env doc_id (suc order) is) db
        (insert_item-Holds env doc_id order i db ne h)
        (λ _ mid k. insert_items-Holds env doc_id (suc order) is mid ne k)

  insert_header-Holds :
      (env : Env) (doc : Realization) (db : Db) → Holds db → Holds (insert_header env doc db).1
  unfolding insert_header
  insert_header-Holds env doc db h = (find-append (λ s. s.id == j) db.realizations _ h.0, h.1)

  update_sale-Holds :
      (id : ℕ) (f : Realization → Realization) (db : Db)
      → ((s : Realization) → (f s).id ≡ s.id)
      → id ≢ j
      → Holds db
      → Holds (update_sale id f db).1
  update_sale-Holds id f db keep ne h = (
    find-update_other (λ s. s.id == j) (λ s. s.id == id) f db.realizations
          (λ s e. (other_id id s.id ne e, rw (keep s) (other_id id s.id ne e)))
        ∙ h.0,
    h.1,
  )

  replace_items-Holds :
      (env : Env) (id : ℕ) (is : Option (List ItemRequest)) (db : Db)
      → id ≢ j
      → Holds db
      → Holds (replace_items env id is db).1
  unfolding replace_items
  replace_items-Holds env id none db ne h = h
  replace_items-Holds env id (some is) db ne h =
      insert_items-Holds env id 0 (map of_request is) _ ne (
        h.0,
        select-delete_other (λ x. x.doc_id == j) (λ x. x.doc_id == id) db.realization_items
              (λ x e. other_id id x.doc_id ne e)
            ∙ h.1,
      )

  -- A document that is found and is not posted is not `j`, if `j` is.
  not_posted_ne :
      (id : ℕ) (doc : Realization) (db : Db)
      → is_posted r.status ≡ true
      → find (λ s. s.id == id) db.realizations ≡ some doc
      → is_posted doc.status ≡ false
      → Holds db
      → id ≢ j
  not_posted_ne id doc db p f d h e =
      let g : find (λ s. s.id == j) db.realizations ≡ some doc =
        subst (λ n. find (λ s. s.id == n) db.realizations ≡ some doc) e f in
      ground (arith, g, h.0)

  guarded-Holds :
      (id : ℕ) (e : Error) (rest : Tx (Unit {0})) (db : Db)
      → is_posted r.status ≡ true
      → ((id ≢ j) → Holds (rest db).1)
      → Holds db
      → Holds (guarded id e rest db db).1
  guarded-Holds id e rest db p k h = elim (Option-cases (find (λ s. s.id == id) db.realizations)) [
    | inl f ↦ rw ((guarded_cases id e rest db).0 f) h
    | inr (doc, f) ↦ elim (Bool-cases (is_posted doc.status)) [
      | inl d ↦ rw (((guarded_cases id e rest db).1 doc f).0 d) h
      | inr d ↦
          rw (((guarded_cases id e rest db).1 doc f).1 d) (k (not_posted_ne id doc db p f d h))
    ]
  ]

  items-Holds :
      (env : Env) (is : List SaleItem) (id : ℕ) (db : Db)
      → id ≢ j
      → Holds db
      → Holds ((insert_items env id 0 is >> pure id) db).1
  items-Holds env is id db ne h =
      >>=-Holds (insert_items env id 0 is) (λ _. pure id) db
        (insert_items-Holds env id 0 is db ne h) (λ _ mid k. k)

  insert_sale-Holds :
      (env : Env) (doc : Realization) (lines : List SaleItem) (db : Db)
      → ((n : ℕ) → env.uuid n ≢ j)
      → Holds db
      → Holds (insert_sale env doc lines db).1
  unfolding insert_sale insert_header
  insert_sale-Holds env doc lines db ne h =
      items-Holds env lines (env.uuid db.generated) _ (ne db.generated)
        (insert_header-Holds env doc db h)

  create_body-Holds :
      (env : Env) (user : Option Caller) (d : SaleData) (db : Db)
      → ((n : ℕ) → env.uuid n ≢ j)
      → Holds db
      → Holds (create_body env user d db).1
  unfolding create_body
  create_body-Holds env user d db ne h =
      let lines : List SaleItem = map of_request (get_or d.items []) in
      >>=-Holds (or_throw d.amount rejected)
        (λ amount. insert_sale env (sale_of_request env user d amount) lines) db
        (or_throw-Holds d.amount rejected db h)
        (λ amount mid k. insert_sale-Holds env (sale_of_request env user d amount) lines mid ne k)

  insert_ordered-Holds :
      (env : Env) (doc : Realization) (order_id : ℕ) (lines : List SaleItem) (db : Db)
      → ((n : ℕ) → env.uuid n ≢ j)
      → Holds db
      → Holds (insert_ordered env doc order_id lines db).1
  unfolding insert_ordered insert_header set_order_status
  insert_ordered-Holds env doc order_id lines db ne h =
      items-Holds env lines (env.uuid db.generated) _ (ne db.generated)
        (insert_header-Holds env doc db h)

  from_order_body-Holds :
      (env : Env) (user : Option Caller) (order_id : ℕ) (db : Db)
      → ((n : ℕ) → env.uuid n ≢ j)
      → Holds db
      → Holds (from_order_body env user order_id db).1
  unfolding from_order_body
  from_order_body-Holds env user order_id db ne h =
      >>=-Holds (λ db. or_throw (find (λ o. o.id == order_id) db.orders) not_found db)
        (λ order db.
          insert_ordered env (sale_of_order env user order db) order_id
            (order_lines env order db.order_items) db)
        db (or_throw-Holds (find (λ o. o.id == order_id) db.orders) not_found db h)
        (λ order mid k.
          insert_ordered-Holds env (sale_of_order env user order mid) order_id
            (order_lines env order mid.order_items) mid ne k)

  serve-Holds :
      (env : Env) (q : SaleRequest) (db : Db)
      → is_posted r.status ≡ true
      → ((n : ℕ) → env.uuid n ≢ j)
      → Holds db
      → Holds (serve env q db)
  unfolding create from_order edit edit_body delete delete_body set_header
  serve-Holds env (creates user d) db p ne h =
      settle-Holds db (create_body env user d db) h (create_body-Holds env user d db ne h)
  serve-Holds env (orders user id) db p ne h =
      settle-Holds db (from_order_body env user id db) h (from_order_body-Holds env user id db ne h)
  serve-Holds env (edits id d) db p ne h = settle-Holds db (edit_body env id d db) h (
      guarded-Holds id cannot_edit_posted
        (update_sale id (set_header d) >> replace_items env id d.items) db p
        (λ other.
          replace_items-Holds env id d.items _ other
            (update_sale-Holds id (set_header d) db (λ s. refl) other h))
        h)
  serve-Holds env (deletes id) db p ne h = settle-Holds db (delete_body id db) h (
      guarded-Holds id cannot_delete_posted (update_sale id (λ s. record s { is_deleted = true }))
        db p (λ other. update_sale-Holds id _ db (λ s. refl) other h) h)

-- A posted realization stays as it is, with its items, whatever requests create, edit and delete
-- realizations in any order, if the database generates no id that it has.
pub serve_all-Holds :
    (j : ℕ) (r : Realization) (items : List Item) (env : Env) (qs : List SaleRequest) (db : Db)
    → is_posted r.status ≡ true
    → ((n : ℕ) → env.uuid n ≢ j)
    → Holds j r items db
    → Holds j r items (serve_all env qs db)
serve_all-Holds j r items env [] db p ne h = h
serve_all-Holds j r items env (q ∷ qs) db p ne h =
    serve_all-Holds j r items env qs (serve env q db) p ne (serve-Holds j r items env q db p ne h)
