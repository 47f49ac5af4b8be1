-- ===== src/Sync/Push.antt =====
-- What a push leaves behind.
use remote_order_server.Common.{
  Option, All, Bool, true, ℕ, ◌≡◌, refl, sym, ap, ◌∙◌, if◌then◌else◌, List, [], ◌∷◌, map, arith,
}
use remote_order_server.Db.{Db, Env}
use remote_order_server.Tx.{Error, Result, ok, err, settle-err, ◌>>◌}
use remote_order_server.Auth.{User}
use remote_order_server.Orders.{remove_order}
use remote_order_server.Sync.{
  Change, ChangeData, ChangeResult, Operation, insert_op, update_op, delete_op, unknown, perform,
  log_change, push_change, push,
}

module _ (logs : Change → Bool) (env : Env) (users : List User) (user_id : ℕ) where
  perform-err :
      (id : ℕ) (d : Option ChangeData) (o : Operation) (db : Db) {e : Error} {db' : Db}
      → perform env users user_id id d o db ≡ (err e, db')
      → db' ≡ db
  unfolding perform remove_order
  perform-err id d insert_op db {e} {db'} h = settle-err db _ h
  perform-err id d update_op db {e} {db'} h = ground arith
  perform-err id d delete_op db {e} {db'} h = ground arith
  perform-err id d (unknown t) db {e} {db'} h = ground arith

  push_change-err :
      (c : Change) (db : Db) {e : Error} {db' : Db}
      → logs c ≡ true
      → push_change logs env users user_id c db ≡ (err e, db')
      → db' ≡ db
  unfolding push_change log_change
  push_change-err c db {e} {db'} logged h =
      go (perform env users user_id c.id c.data_of c.operation db) refl h
    where
      go :
          (r : Result (Unit {0}) × Db)
          → perform env users user_id c.id c.data_of c.operation db ≡ r
          → ((λ _. r) >> log_change logs env user_id c) db ≡ (err e, db')
          → db' ≡ db
      go (ok a, mid) k h = absurd (ground (arith, logged))
      go (err e', mid) k h =
          sym (ap (λ (r : Result (Unit {0}) × Db). r.1) h)
          ∙ perform-err c.id c.data_of c.operation db k

  -- The changes that are answered with success: true.
  abbrev pub kept : List ChangeResult → List Change → List Change
  kept (r ∷ rs) (c ∷ cs) = let rest = kept rs cs in if r.success then c ∷ rest else rest
  kept _ _ = []

  abbrev IsKept : List Change → Db → Type 0
  IsKept changes db =
      (map (λ r. r.id) (push logs env users user_id changes db).0 ≡ map (λ c. c.id) changes)
      × ((push logs env users user_id (kept (push logs env users user_id changes db).0 changes)
            db).1
          ≡ (push logs env users user_id changes db).1)

  IsKept-cons :
      (c : Change) (changes : List Change) (db : Db)
      → logs c ≡ true
      → ((d : Db) → IsKept changes d)
      → IsKept (c ∷ changes) db
  unfolding push
  IsKept-cons c changes db logged ih = go (push_change logs env users user_id c db) refl
    where
      go :
          (r : Result (Unit {0}) × Db)
          → push_change logs env users user_id c db ≡ r
          → IsKept (c ∷ changes) db
      go (ok a, mid) e = let (ids, tables) = ih mid in rw (e, e) (ap (λ r. c.id ∷ r) ids, tables)
      go (err x, mid) e =
          let (ids, tables) = ih db in
          rw (e, push_change-err c db logged e) (ap (λ r. c.id ∷ r) ids, tables)

  -- Where the database takes the log of every change, a push answers for every change, in their
  -- order; and it leaves the tables that a push of only the changes that succeed would leave: those
  -- that fail change nothing.
  pub push-kept :
      (changes : List Change) (db : Db)
      → All (λ c. logs c ≡ true) changes
      → (map (λ r. r.id) (push logs env users user_id changes db).0 ≡ map (λ c. c.id) changes)
        × ((push logs env users user_id
              (kept (push logs env users user_id changes db).0 changes)
              db).1
            ≡ (push logs env users user_id changes db).1)
  unfolding push
  push-kept [] db logged = (refl, refl)
  push-kept (c ∷ changes) db logged =
      IsKept-cons c changes db logged.0 (λ d. push-kept changes d logged.1)
