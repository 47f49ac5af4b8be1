-- ===== src/Reposting/Release.antt =====
-- The lock and the transaction of a bulk reposting.
use remote_order_server.Common.{
  ℕ, ◌≡◌, sym, ap, ◌∙◌, Bool, true, false, Option, none, some, arith, Bool-cases, inl, inr,
}
use remote_order_server.Db.{Db, Env}
use remote_order_server.Tx.{Result, Error, err, settle-err, system_locked}
use remote_order_server.Reposting.{
  Action, repost, RepostOptions, work, attempt, run, set_lock, is_held, lock_reason,
}

set_lock_twice :
    (a b : Bool) (u v : Option ℕ) (r s : _) (db : Db)
    → set_lock a u r (set_lock b v s db) ≡ set_lock a u r db
set_lock_twice a b u v r s db = ground arith

attempt-held :
    (env : Env) (user : Option ℕ) (o : RepostOptions) (db : Db)
    → is_held db ≡ true
    → attempt env user o db ≡ (err system_locked, db)
unfolding attempt
attempt-held env user o db held = ground arith

-- What an attempt that throws leaves: the tables of before, but for the lock.
attempt-err :
    (env : Env) (user : Option ℕ) (o : RepostOptions) (db : Db) {e : Error} {db' : Db}
    → attempt env user o db ≡ (err e, db')
    → set_lock false none none db' ≡ set_lock false none none db
unfolding attempt
attempt-err env user o db h = elim (Bool-cases (is_held db)) [
  | inl held ↦
      ap (λ (r : Result (Unit {0}) × Db). set_lock false none none r.1)
        (sym h ∙ attempt-held env user o db held)
  | inr free ↦
      let locked : Db = set_lock true user (some lock_reason) db in
      let a : Action = elim o.action [ none ↦ repost | some a ↦ a ] in
      ap (set_lock false none none) (settle-err locked (work env o a locked) (rw free at h))
      ∙ set_lock_twice false true none user none (some lock_reason) db
]

-- A reposting that throws has changed no table but that of the lock, which is free afterwards: the
-- global transaction is rolled back.
pub run-err :
    (env : Env) (user : Option ℕ) (o : RepostOptions) (db : Db) {e : Error} {db' : Db}
    → run env user o db ≡ (err e, db')
    → db' ≡ set_lock false none none db
unfolding run
run-err env user o db h =
    sym (ap (λ (r : Result (Unit {0}) × Db). r.1) h)
    ∙ attempt-err env user o db (
        ap (λ (x : Result (Unit {0})). (x, (attempt env user o db).1))
          (ap (λ (r : Result (Unit {0}) × Db). r.0) h))

-- A call that finds the system locked throws, does no work, and yet releases the lock that another
-- call holds.
pub run-locked :
    (env : Env) (user : Option ℕ) (o : RepostOptions) (db : Db)
    → is_held db ≡ true
    → (run env user o db ≡ (err system_locked, set_lock false none none db))
      × (is_held (run env user o db).1 ≡ false)
unfolding run attempt
run-locked env user o db h = (ground arith, ground arith)
