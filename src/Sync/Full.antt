-- ===== src/Sync/Full.antt =====
-- A full sync is one transaction, and answers for each change.
use remote_order_server.Common.{
  ℕ, ◌≡◌, refl, Bool, true, false, none, some, List, [], ◌∷◌, arith, All, ◌⊎◌, inl, inr,
  if◌then◌else◌, not, ◌&&◌,
}
use remote_order_server.Db.{Db, Env}
use remote_order_server.Tx.{Result, ok, err}
use remote_order_server.Sync.{
  Query, no_query, type_error, runs, with_data, Change, ChangeResult, insert_op, query_of, open_tx,
  aborted, run_query, full_changes, full,
}

abbrev pub has_data : Change → Bool
has_data c = elim c.data_of [ none ↦ false | some d ↦ true ]

-- Some change that has its data is answered with success: false.
abbrev pub some_failed : List Change → List ChangeResult → Bool
some_failed (c ∷ cs) (r ∷ rs) =
    let rest = some_failed cs rs in if not r.success && has_data c then true else rest
some_failed _ _ = false

run_query-cases :
    (q : Query) (db : Db)
    → ((db' : Db) × (run_query q (open_tx db) ≡ (true, open_tx db')))
      ⊎ ((q ≡ type_error) × (run_query q (open_tx db) ≡ (false, open_tx db)))
      ⊎ (run_query q (open_tx db) ≡ (false, aborted))
unfolding run_query
run_query-cases no_query db = inl (db, refl)
run_query-cases type_error db = inr (inl (refl, refl))
run_query-cases (runs q) db = go (q db)
  where
    go :
        (r : Result (Unit {0}) × Db)
        → ((db' : Db) × (run_query (runs (λ _. r)) (open_tx db) ≡ (true, open_tx db')))
          ⊎ ((runs q ≡ type_error) × (run_query (runs (λ _. r)) (open_tx db) ≡ (false, open_tx db)))
          ⊎ (run_query (runs (λ _. r)) (open_tx db) ≡ (false, aborted))
    go (ok a, db') = inl (db', refl)
    go (err e, db') = inr (inr refl)

run_query-aborted : (q : Query) → (run_query q aborted).1 ≡ aborted
unfolding run_query
run_query-aborted no_query = refl
run_query-aborted type_error = refl
run_query-aborted (runs q) = refl

module _ (env : Env) (user_id : ℕ) where
  type_error-has_data : (c : Change) → query_of env user_id c ≡ type_error → has_data c ≡ false
  unfolding query_of with_data
  type_error-has_data c h = ground arith

  full_changes-aborted :
      (changes : List Change) → (full_changes env user_id changes aborted).1 ≡ aborted
  unfolding full_changes
  full_changes-aborted [] = refl
  full_changes-aborted (c ∷ changes) =
      rw (run_query-aborted (query_of env user_id c)) (full_changes-aborted changes)

  full_changes-failed :
      (changes : List Change) (db : Db)
      → some_failed changes (full_changes env user_id changes (open_tx db)).0 ≡ true
      → (full_changes env user_id changes (open_tx db)).1 ≡ aborted
  unfolding full_changes
  full_changes-failed [] db h = cc
  full_changes-failed (c ∷ changes) db h = elim (run_query-cases (query_of env user_id c) db) [
    | inl (db', e) ↦ rw e (full_changes-failed changes db' (rw e at h))
    | inr (inl (q, e)) ↦ rw e (full_changes-failed changes db rw (e, type_error-has_data c q) at h)
    | inr (inr e) ↦ rw e (full_changes-aborted changes)
  ]

  -- A full sync that answers success: false to some change that has its data has changed no table.
  pub full-failed :
      (changes : List Change) (db : Db)
      → some_failed changes (full env user_id changes db).0 ≡ true
      → (full env user_id changes db).1 ≡ db
  unfolding full
  full-failed changes db h = rw (full_changes-failed changes db h)

  inserts-no_query :
      (c : Change)
      → (c.operation ≡ insert_op) × (c.is_order_table ≡ true)
      → query_of env user_id c ≡ no_query
  unfolding query_of
  inserts-no_query c h = ground (arith, h.0, h.1)

  full_changes-inserts :
      (changes : List Change) (db : Db)
      → All (λ c. (c.operation ≡ insert_op) × (c.is_order_table ≡ true)) changes
      → ((full_changes env user_id changes (open_tx db)).1 ≡ open_tx db)
        × (some_failed changes (full_changes env user_id changes (open_tx db)).0 ≡ false)
  unfolding full_changes run_query
  full_changes-inserts [] db h = (refl, refl)
  full_changes-inserts (c ∷ changes) db h =
      rw (inserts-no_query c h.0) (full_changes-inserts changes db h.1)

  -- INSERTs for the table 'Order' are all answered with success: true, and change no table.
  pub full_insert_nothing :
      (changes : List Change) (db : Db)
      → All (λ c. (c.operation ≡ insert_op) × (c.is_order_table ≡ true)) changes
      → ((full env user_id changes db).1 ≡ db)
        × (some_failed changes (full env user_id changes db).0 ≡ false)
  unfolding full
  full_insert_nothing changes db h = let e = full_changes-inserts changes db h in (rw e.0, e.1)
